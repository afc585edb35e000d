-- ===== src/Poll/Record.antt =====
-- internal/poll/poll.go: `recordFence` and `recordNearest`, the history that a tick writes.
use scootless.Base.{
  ℕ, ◌+◌, ◌*◌, Bool, true, false, String, List, [], ◌∷◌, map, Option, none, some, Result, ok, err,
  ◌==◌, string_eq, nat_eq, ltb, length, keep, if◌then◌else◌,
}
use scootless.Base.Int.{ℤ, pos, negsuc, leb_ℤ}
use scootless.Float.{Float64, Math}
use scootless.Geo.{distance_m}
use scootless.Entur.Operators.{EnturError, Operator, operators}
use scootless.Entur.Vehicles.{Vehicle, Query, Fetched}
use scootless.Store.Schema.{Db, Fence, StoreError}
use scootless.Store.Samples.{record_sample}
use scootless.Base.Dict.{put, get as lookup}
use scootless.Store.Nearest.{Nearest, record_nearest as store_nearest}
use scootless.Store.Presence.{Sighting, Arrival, observe_presence}
use scootless.Poll.Select.{nearest_of}
use scootless.Poll.Run.{
  Poller, store_failed, M, ◌>>=◌, ◌>>◌, pure, get, modify, modify_rep, write, for_each,
}

abbrev key_of : Vehicle → String
key_of v = if v.operator_key == "" then "unknown" else v.operator_key

abbrev is_none {ℓ} : {A : Type ℓ} → Option A → Bool
is_none none = true
is_none (some a) = false

abbrev or_zero : Option ℕ → ℕ
or_zero none = 0
or_zero (some n) = n

-- `counts[key]++` over the vehicles.
count_by_operator : List Vehicle → List (String × ℕ) → List (String × ℕ)
unfolding put lookup
count_by_operator [] counts = counts
count_by_operator (v ∷ vs) counts =
    count_by_operator vs (put (key_of v) (or_zero (lookup (key_of v) counts) + 1) counts)

-- A zero for each supported operator that has no entry.
fill_zeros : List Operator → List (String × ℕ) → List (String × ℕ)
unfolding put lookup
fill_zeros [] counts = counts
fill_zeros (o ∷ os) counts = elim (lookup o.key counts) [
  | some n ↦ fill_zeros os counts
  | none ↦ fill_zeros os (put o.key 0 counts)
]

pub counts_of : List Vehicle → List (String × ℕ)
unfolding count_by_operator fill_zeros
counts_of inside = fill_zeros operators (count_by_operator inside [])

abbrev pub sightings_of : List Vehicle → List Sighting
sightings_of inside =
    map (λ (v : Vehicle). record { vehicle_id = v.id; operator = key_of v }) inside

abbrev pub observed : Result StoreError (List Arrival × Db) → M (Unit {0})
observed (err e) s = (err (store_failed e), s)
observed (ok (new, db)) s =
    (ok tt, record s { db = db; rep = record s.rep { arrivals = s.rep.arrivals + length new } })

module _ (p : Poller) (f : Fence) (now : ℕ) (inside : List Vehicle) where
  -- `recordFence`
  unfoldable pub record_fence : M (Unit {0})
  unfolding counts_of for_each
  record_fence = do
    for_each (λ (op, n). write (record_sample f.id now op n)) (counts_of inside)
    s ← get
    observed (observe_presence f.id now (sightings_of inside) p.stale s.db)

-- The loop that fills `closest`.
pub closest_of : Math → List Vehicle → List (String × Vehicle) → List (String × Vehicle)
unfolding put lookup
closest_of m [] closest = closest
closest_of m (v ∷ vs) closest =
    let next : List (String × Vehicle) =
      if v.operator_key == "" then closest else elim (lookup v.operator_key closest) [
        | none ↦ put v.operator_key v closest
        | some cur ↦
            if m.less v.distance_m cur.distance_m then put v.operator_key v closest else closest
      ] in
    closest_of m vs next

-- Two minutes.
abbrev default_nearest_interval : ℕ
default_nearest_interval = 120 * 1000000000

-- Zero stands for the default, and a negative interval disables the lookup.
abbrev pub interval_of : ℤ → Option ℕ
interval_of (pos n) = some (if n == 0 then default_nearest_interval else n)
interval_of (negsuc n) = none

abbrev default_reach_m : ℤ
default_reach_m = pos 5000

abbrev reach_of : Poller → ℤ
reach_of p = if leb_ℤ p.reach_m (pos 0) then default_reach_m else p.reach_m

-- `seen && now.Sub(last) < interval`
abbrev pub asked_lately : ℕ → ℕ → Option ℕ → Bool
asked_lately now interval none = false
asked_lately now interval (some last) = ltb now (last + interval)

-- The supported operators with no entry in `closest`.
abbrev pub absent_from : List (String × Vehicle) → List Operator
absent_from closest = keep (λ (o : Operator). is_none (lookup o.key closest)) operators

module _ (m : Math) (p : Poller) (f : Fence) (now : ℕ) where
  -- `int(d + 0.5)`
  abbrev whole_metres : Float64 → ℤ
  whole_metres d = m.to_int (m.add d (m.decimal 5 1))

  abbrev pub closest_reading : String × Vehicle → Nearest
  closest_reading (key, v) = record {
    operator = key;
    at = now;
    distance_m = some (whole_metres v.distance_m);
    vehicle_id = v.id;
  }

  abbrev pub probe : Operator → Query
  probe o = record {
    at = f.at;
    radius_m = reach_of p;
    operator_keys = o.key ∷ [];
    min_range_m = pos 0;
    form_factors = [];
    include_unrentable = false;
    limit = pos 10;
  }

  abbrev pub probe_reading : Operator → List Vehicle → Nearest
  probe_reading o vs = elim (nearest_of m vs f) [
    | none ↦ record { operator = o.key; at = now; distance_m = none; vehicle_id = "" }
    | some best ↦ record {
      operator = o.key;
      at = now;
      distance_m = some (whole_metres (distance_m m f.at best.at));
      vehicle_id = best.id;
    }
  ]

  -- A lookup that failed is logged and passed over.
  abbrev pub recorded : Operator → Result EnturError Fetched → M (Unit {0})
  recorded o (err e) = pure tt
  recorded o (ok res) = write (store_nearest f.id now (probe_reading o res.vehicles))

  unfoldable pub probe_one : Operator → M (Unit {0})
  probe_one o = do
    modify_rep (λ r. record r { nearest_queries = r.nearest_queries + 1 })
    recorded o (p.fetch (probe o))

  -- The second half: the operators that are absent, unless they were asked about lately.
  unfoldable pub probe_absent : ℕ → List (String × Vehicle) → M (Unit {0})
  unfolding lookup put for_each probe_one
  probe_absent interval closest = do
    s ← get
    if asked_lately now interval (lookup f.id s.nearest_at)
        then pure tt
        else (modify (λ s. record s { nearest_at = put f.id now s.nearest_at })
            >> for_each probe_one (absent_from closest))

  -- `recordNearest`
  unfoldable pub record_nearest : List Vehicle → M (Unit {0})
  unfolding closest_of for_each probe_absent
  record_nearest inside = elim (interval_of p.nearest_interval) [
    | none ↦ pure tt
    | some interval ↦
        for_each (λ c. write (store_nearest f.id now (closest_reading c))) (closest_of m inside [])
        >> probe_absent interval (closest_of m inside [])
  ]
