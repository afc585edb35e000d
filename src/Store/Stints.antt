-- ===== src/Store/Stints.antt =====
-- internal/store/presence.go: what one observation does to the stints of a fence.
pub mod Updates
mod Loop
use scootless.Base.{
  ℕ, ◌≡◌, refl, Bool, true, false, not, ◌&&◌, String, List, [], ◌∷◌, ◌++◌, map, Option, none, some,
  ◌==◌, string_eq, nat_eq, eq_iff, eq_refl, eq_symm, any, keep, contains, arith, leb, All,
  Bool-cases, Option-cases, ◌⊎◌, inl, inr, ◌∙◌, ap, sym, ok, ◌>>=◌, >>=-eq-ok, any_intro, any-keep,
  any-map, max, All-mono, contains-any,
}
use mathlib.Core.List.{append-nil, append_assoc}
use scootless.Base.Int.{ℤ}
use scootless.Base.Table.{update_where, upsert}
use scootless.Store.Schema.{Db, PresenceRow, unix, may_refer_fence}
use scootless.Store.Samples.{maximum}
use scootless.Store.Presence.{
  Sighting, Arrival, is_open, open_stint, is_stint, presence_key, extend_to, sight, sight_all,
  cutoff_of, observe_presence, present_ids, distinct,
}
use scootless.Store.Stints.Updates.{
  Rows, is_some, is_present, maximum-in, update-keeps, update-reaches, upsert-keeps, upsert-reaches,
  row_of_stint, maximum-some, open_stint-some,
}
use scootless.Store.Stints.Loop.{
  is_new, arrival_of, fresh, begun, extended, sight-cases, sight-extends, sight-keeps,
  sight_all-arrivals, sight_all-keeps, HasRows, sight-HasRows, sight-reaches, sight_all-reaches,
  sight_all-quiet,
}

observed :
    (fence_id : String) (at : ℕ) (seen : List Sighting) (stale : ℤ) (db after : Db)
    (new : List Arrival)
    → observe_presence fence_id at seen stale db ≡ ok (new, after)
    → sight_all
        (may_refer_fence db fence_id)
        fence_id
        at
        (open_stint fence_id (cutoff_of at stale) db.presence)
        seen
        (db.presence, [])
      ≡ ok (after.presence, new)
unfolding observe_presence
observed fence_id at seen stale db after new e =
    let ((rows, found), loop, shape) =
      >>=-eq-ok
        (sight_all (may_refer_fence db fence_id) fence_id at
          (open_stint fence_id (cutoff_of at stale) db.presence) seen (db.presence, []))
        (λ (rows, new). ok (new, record db { presence = rows })) e in
    let same_rows : rows ≡ after.presence = ground arith in
    let same_new : found ≡ new = ground arith in rw (sym same_rows, sym same_new) loop

-- The arrivals that an observation reports are exactly the sightings of vehicles with no open stint
-- before it, in the order seen and at the time of the observation.
pub observe_presence-arrivals :
    (fence_id : String) (at : ℕ) (seen : List Sighting) (stale : ℤ) (db after : Db)
    (new : List Arrival)
    → observe_presence fence_id at seen stale db ≡ ok (new, after)
    → new
      ≡ map
          (λ s. record { sighting = s; at = at })
          (keep
            (λ s. not (is_some (open_stint fence_id (cutoff_of at stale) db.presence s.vehicle_id)))
            seen)
observe_presence-arrivals fence_id at seen stale db after new e =
    sight_all-arrivals (may_refer_fence db fence_id) fence_id at _ seen db.presence after.presence
      [] new (observed fence_id at seen stale db after new e)

contains-distinct : (xs : List String) (x : String) → contains (distinct xs) x ≡ contains xs x
unfolding distinct
contains-distinct [] x = refl
contains-distinct (y ∷ ys) x = elim (Bool-cases (contains (distinct ys) y)) [
  | inl dup ↦ elim (Bool-cases (y == x)) [
    | inl hit ↦
        let same : y ≡ x = ground (arith, eq_iff y x) in
        rw same ground (arith, contains-distinct ys x, contains-distinct ys y, eq_refl x)
    | inr miss ↦ ground (arith, contains-distinct ys x)
  ]
  | inr new ↦ ground (arith, contains-distinct ys x)
]

contains-present :
    (fence_id : String) (cutoff : ℕ) (id : String) (rows : Rows)
    → contains
        (distinct (map (λ (r : PresenceRow). r.vehicle_id) (keep (is_open fence_id cutoff) rows)))
        id
      ≡ any (is_present fence_id cutoff id) rows
contains-present fence_id cutoff id rows =
    contains-distinct _ id
    ∙ contains-any _ id
    ∙ any-map (λ (r : PresenceRow). r.vehicle_id) (λ v. v == id) _
    ∙ any-keep (λ (r : PresenceRow). r.vehicle_id == id) (is_open fence_id cutoff) rows

-- Whatever an observation saw is present at any later cut-off that is not after its second, and a
-- second observation of the same vehicles at such a cut-off succeeds and reports no arrival.
pub observe_presence-again :
    (fence_id : String) (at later : ℕ) (seen : List Sighting) (stale still : ℤ) (db after : Db)
    (new : List Arrival)
    → observe_presence fence_id at seen stale db ≡ ok (new, after)
    → leb (cutoff_of later still) (unix at) ≡ true
    → All (λ s. contains (present_ids fence_id later still after) s.vehicle_id ≡ true) seen
      × ((last : Db) × (observe_presence fence_id later seen still after ≡ ok ([], last)))
unfolding observe_presence present_ids distinct
observe_presence-again fence_id at later seen stale still db after new e c =
    let reached : All
        (λ s. any (is_present fence_id (cutoff_of later still) s.vehicle_id) after.presence ≡ true)
        seen =
      sight_all-reaches (may_refer_fence db fence_id) fence_id at _ _ seen db.presence
        after.presence [] new c (row_of_stint fence_id (cutoff_of at stale) db.presence)
        (observed fence_id at seen stale db after new e) in
    let (rows, quiet) =
      sight_all-quiet (may_refer_fence after fence_id) fence_id later
        (open_stint fence_id (cutoff_of later still) after.presence) 0 seen after.presence []
        (All-mono _ _
          (λ s. open_stint-some fence_id (cutoff_of later still) after.presence s.vehicle_id) seen
          reached) in
    (
      All-mono _ _ (λ s h. contains-present fence_id _ s.vehicle_id after.presence ∙ h) seen
          reached,
      (record after { presence = rows }, rw (quiet, observe_presence) refl),
    )
