-- ===== src/Store/KeyedRows.antt =====
-- internal/store/schema.go: the primary keys of the rows, and how the statements of
-- internal/store/store.go and watch.go treat them.
use scootless.Base.{
  ℕ, ◌<◌, ◌≡◌, refl, Bool, false, ◌||◌, String, List, [], ◌∷◌, ◌++◌, Result, ok, err, ◌==◌,
  string_eq, nat_eq, eq_symm, any, any_mono, All, arith, if◌then◌else◌, Option, Bool-cases,
  Option-cases, inl, inr, ◌>>=◌,
}
use scootless.Base.Table.{Distinct, Distinct-map, Distinct-upsert, Distinct-append, update_where}
use scootless.Store.Schema.{
  Fence, WatchRow, EventRow, SampleRow, PresenceRow, NearestRow, StoreError, unix,
}
use scootless.Store.Watches.{has_id}
use scootless.Store.Samples.{sample_key}
use scootless.Store.Nearest.{nearest_key}
use scootless.Store.Presence.{
  Sighting, Arrival, presence_key, is_stint, extend_to, sight, sight_all,
}

abbrev pub fence_key : Fence → Fence → Bool
fence_key f g = f.id == g.id

abbrev pub watch_key : WatchRow → WatchRow → Bool
watch_key v w = v.id == w.id

abbrev pub event_key : EventRow → EventRow → Bool
event_key d e = d.id == e.id

pub sample_key_symm : (r s : SampleRow) → sample_key r s ≡ sample_key s r
sample_key_symm r s =
    ground (arith, eq_symm r.fence_id s.fence_id, eq_symm r.at s.at, eq_symm r.operator s.operator)

pub nearest_key_symm : (r s : NearestRow) → nearest_key r s ≡ nearest_key s r
nearest_key_symm r s =
    ground (arith, eq_symm r.fence_id s.fence_id, eq_symm r.at s.at, eq_symm r.operator s.operator)

presence_key_symm : (r s : PresenceRow) → presence_key r s ≡ presence_key s r
presence_key_symm r s = ground (
  arith,
  eq_symm r.fence_id s.fence_id,
  eq_symm r.vehicle_id s.vehicle_id,
  eq_symm r.first_seen s.first_seen,
)

-- An update of watches that leaves their identifiers alone.
pub update-watch_keys :
    (hit : WatchRow → Bool) (change : WatchRow → WatchRow) (rows : List WatchRow)
    → ((r : WatchRow) → (change r).id ≡ r.id)
    → Distinct watch_key rows
    → Distinct watch_key (update_where hit change rows)
update-watch_keys hit change rows keeps =
    Distinct-map watch_key (λ r. if hit r then change r else r) rows
      λ r s. ground (arith, keeps r, keeps s)

pub fresh-watch_key :
    (id : String) (rows : List WatchRow) (w : WatchRow)
    → w.id ≡ id
    → any (has_id id) rows ≡ false
    → Distinct watch_key rows
    → Distinct watch_key (rows ++ w ∷ [])
fresh-watch_key id rows w e h =
    Distinct-append watch_key rows w
      (any_mono (λ r. watch_key r w) (has_id id) (λ r m. rw e at m) rows h)

pub fresh-event_key :
    (rows : List EventRow) (e : EventRow)
    → All (λ d. d.id < e.id) rows
    → any (λ d. event_key d e) rows ≡ false
fresh-event_key [] e a = refl
fresh-event_key (d ∷ rows) e a = ground (arith, fresh-event_key rows e a.1)

extend-presence_keys :
    (hit : PresenceRow → Bool) (now : ℕ) (rows : List PresenceRow)
    → Distinct presence_key rows
    → Distinct presence_key (update_where hit (extend_to now) rows)
extend-presence_keys hit now rows =
    Distinct-map presence_key (λ r. if hit r then extend_to now r else r) rows λ r s. ground arith

-- The rows that an observation leaves, from those that it found.
abbrev pub StillKeyed : Result StoreError (List PresenceRow × List Arrival) → Type 0
StillKeyed (ok (rows, new)) = Distinct presence_key rows
StillKeyed (err e) = Unit

module _ (linked : Bool) (fence_id : String) (at : ℕ) (opened : String → Option ℕ) where
  sight-StillKeyed :
      (s : Sighting) (rows : List PresenceRow) (new : List Arrival)
      → Distinct presence_key rows
      → StillKeyed (sight linked fence_id at opened s (rows, new))
  sight-StillKeyed s rows new d = elim (Option-cases (opened s.vehicle_id)) [
    | inr (first, e) ↦
        rw (e, StillKeyed, sight)
          (extend-presence_keys (is_stint fence_id s.vehicle_id first) (unix at) rows d)
    | inl e ↦
        let row : PresenceRow = record {
          fence_id = fence_id;
          vehicle_id = s.vehicle_id;
          operator = s.operator;
          first_seen = unix at;
          last_seen = unix at;
        } in
        let d' =
          Distinct-upsert presence_key (extend_to (unix at)) row rows (λ r t. refl) (λ r t. refl)
            (λ r. presence_key_symm r row) d in
        elim (Bool-cases (any (presence_key row) rows || linked)) [
          | inl may ↦ rw (e, StillKeyed, sight, may) d'
          | inr may_not ↦ rw (e, StillKeyed, sight, may_not) tt
        ]
  ]

  pub sight_all-StillKeyed :
      (seen : List Sighting) (r : Result StoreError (List PresenceRow × List Arrival))
      → StillKeyed r
      → StillKeyed (r >>= sight_all linked fence_id at opened seen)
  unfolding sight_all
  sight_all-StillKeyed seen (err e) d = tt
  sight_all-StillKeyed [] (ok state) d = d
  sight_all-StillKeyed (s ∷ seen) (ok (rows, new)) d =
      sight_all-StillKeyed seen (sight linked fence_id at opened s (rows, new))
        (sight-StillKeyed s rows new d)
