-- ===== src/Store/Presence.antt =====
-- internal/store/presence.go: which vehicle stood in which fence, and from when to when.
use scootless.Base.{
  ℕ, ◌-◌, ◌*◌, Bool, ◌&&◌, ◌||◌, String, List, [], ◌∷◌, ◌++◌, map, Option, none, some, Result, ok,
  ◌>>=◌, require, ◌==◌, string_eq, nat_eq, leb, ltb, keep, any, contains, if◌then◌else◌,
}
use scootless.Base.Int.{ℤ}
use scootless.Base.Table.{upsert, update_where}
use scootless.Base.Order.{sort}
use scootless.Store.Schema.{
  Db, PresenceRow, StoreError, constraint_failed, may_refer_fence, unix, at_second,
}
use scootless.Store.Samples.{maximum}
use scootless.Store.Nearest.{or_default}

pub record Sighting : Type 0 where
  pub vehicle_id : String
  pub operator : String

pub record Arrival : Type 0 where
  pub sighting : Sighting
  pub at : ℕ

-- Three minutes.
abbrev default_stale : ℕ
default_stale = 180 * 1000000000

-- A row whose vehicle counts as still present: its stint was extended at the cut-off or later.
abbrev pub is_open : String → ℕ → PresenceRow → Bool
is_open fence_id cutoff r = r.fence_id == fence_id && leb cutoff r.last_seen

-- `open[id]`: the start of the vehicle's latest open stint.
unfoldable pub open_stint : String → ℕ → List PresenceRow → String → Option ℕ
unfolding maximum
open_stint fence_id cutoff rows id = maximum (
    map (λ (r : PresenceRow). r.first_seen)
      (keep (λ r. is_open fence_id cutoff r && r.vehicle_id == id) rows))

abbrev pub is_stint : String → String → ℕ → PresenceRow → Bool
is_stint fence_id id first r = r.fence_id == fence_id && r.vehicle_id == id && r.first_seen == first

-- The primary key of `presence`.
abbrev pub presence_key : PresenceRow → PresenceRow → Bool
presence_key r s =
    r.fence_id == s.fence_id && r.vehicle_id == s.vehicle_id && r.first_seen == s.first_seen

abbrev pub extend_to : ℕ → PresenceRow → PresenceRow
extend_to now r = record r { last_seen = now }

-- One round of the loop over `seen`, on the rows and the arrivals so far. `linked` says whether a
-- new row may refer to the fence; `opened` was read before the loop.
abbrev pub sight :
    Bool
    → String
    → ℕ
    → (String → Option ℕ)
    → Sighting
    → List PresenceRow × List Arrival
    → Result StoreError (List PresenceRow × List Arrival)
sight linked fence_id at opened s (rows, new) = elim (opened s.vehicle_id) [
  | some first ↦
      ok (update_where (is_stint fence_id s.vehicle_id first) (extend_to (unix at)) rows, new)
  | none ↦
      let row : PresenceRow = record {
        fence_id = fence_id;
        vehicle_id = s.vehicle_id;
        operator = s.operator;
        first_seen = unix at;
        last_seen = unix at;
      } in
      let hit = presence_key row in
      require (any hit rows || linked) constraint_failed (
        ok (
          upsert hit (extend_to (unix at)) row rows,
          new ++ (record { sighting = s; at = at } ∷ []),
        ))
]

unfoldable pub sight_all :
    Bool
    → String
    → ℕ
    → (String → Option ℕ)
    → List Sighting
    → List PresenceRow × List Arrival
    → Result StoreError (List PresenceRow × List Arrival)
sight_all linked fence_id at opened [] state = ok state
sight_all linked fence_id at opened (s ∷ seen) state =
    sight linked fence_id at opened s state >>= sight_all linked fence_id at opened seen

-- The cut-off of `stale`, in seconds. Before 1970 it is negative in the source and admits every
-- row, as zero does.
abbrev pub cutoff_of : ℕ → ℤ → ℕ
cutoff_of at stale = unix (at - or_default default_stale stale)

-- `ObservePresence`
unfoldable pub observe_presence :
    String → ℕ → List Sighting → ℤ → Db → Result StoreError (List Arrival × Db)
unfolding open_stint sight_all
observe_presence fence_id at seen stale db = do
  let opened = open_stint fence_id (cutoff_of at stale) db.presence
  (rows, new) ← sight_all (may_refer_fence db fence_id) fence_id at opened seen (db.presence, [])
  ok (new, record db { presence = rows })

-- `Arrivals`: the stints that began in [from, to).
unfoldable pub arrivals : String → ℕ → ℕ → Db → List Arrival
unfolding sort
arrivals fence_id from to db =
    map
      (λ (r : PresenceRow). record {
        sighting = record { vehicle_id = r.vehicle_id; operator = r.operator };
        at = at_second r.first_seen;
      })
      (sort (λ r s. ltb r.first_seen s.first_seen)
        (keep
          (λ r.
            r.fence_id == fence_id && leb (unix from) r.first_seen && ltb r.first_seen (unix to))
          db.presence))

-- `SELECT DISTINCT`
unfoldable pub distinct : List String → List String
distinct [] = []
distinct (x ∷ xs) = let rest = distinct xs in if contains rest x then rest else x ∷ rest

-- `PresentIDs`
unfoldable pub present_ids : String → ℕ → ℤ → Db → List String
unfolding distinct
present_ids fence_id at stale db = distinct (
    map (λ (r : PresenceRow). r.vehicle_id)
      (keep (is_open fence_id (cutoff_of at stale)) db.presence))
