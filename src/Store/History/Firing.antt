-- ===== src/Store/History/Firing.antt =====
-- A watch that does not repeat fires at most once, however ticks and requests interleave.
use scootless.Base.{
  ℕ, ◌≤◌, ◌≡◌, refl, Bool, true, false, not, ◌&&◌, String, List, [], ◌∷◌, ◌==◌, string_eq, any,
  any_mono, any-map, any-append, any-keep, All, arith, if◌then◌else◌, Bool-cases, inl, inr, ◌∙◌,
  ◌++◌, eq_iff,
}
use scootless.Base.Table.{update_where, delete_where}
use scootless.Store.Schema.{Db, WatchRow, State, expired, cancelled, is_armed}
use scootless.Store.Watches.{
  row_of, has_id, can_fire, fire_row, with_state, is_overdue, is_cancellable,
}
use scootless.Store.History.{
  Call, saves, deletes, creates, fires, sets, expires, cancels, reports, counts, measures, observes,
  step, wins, firings, observes-watches,
}

module _ (id : String) where
  -- The calls that are made of a watch that exists: its identifier, which is random, is not given
  -- to a new watch, and `SetState` does not arm it again.
  abbrev Respects : Call → Type 0
  Respects (creates w) = (w.id == id) ≡ false
  Respects (sets watch_id s) = (watch_id == id && is_armed s) ≡ false
  Respects _ = Unit

  -- No row of the watch is armed, or none repeats.
  abbrev IsSpent : Db → Type 0
  IsSpent db = any (can_fire id) db.watches ≡ false

  abbrev repeats : WatchRow → Bool
  repeats r = r.id == id && r.repeat

  abbrev IsOneShot : Db → Type 0
  IsOneShot db = any repeats db.watches ≡ false

  -- A test that no row passes is passed by none after an update that cannot make it pass.
  any-update_where :
      (p hit : WatchRow → Bool) (change : WatchRow → WatchRow) (rows : List WatchRow)
      → ((r : WatchRow) → hit r ≡ true → p (change r) ≡ true → p r ≡ true)
      → any p rows ≡ false
      → any p (update_where hit change rows) ≡ false
  any-update_where p hit change rows keeps h =
      any-map (λ r. if hit r then change r else r) p rows
      ∙ any_mono (λ r. p (if hit r then change r else r)) p (λ r. ground (arith, keeps r)) rows h

  any-delete_where :
      (p hit : WatchRow → Bool) (rows : List WatchRow)
      → any p rows ≡ false
      → any p (delete_where hit rows) ≡ false
  any-delete_where p hit rows h =
      any-keep p (λ r. not (hit r)) rows
      ∙ any_mono (λ r. not (hit r) && p r) p (λ r. ground arith) rows h

  any-add :
      (p : WatchRow → Bool) (rows : List WatchRow) (r : WatchRow)
      → p r ≡ false
      → any p rows ≡ false
      → any p (rows ++ r ∷ []) ≡ false
  any-add p rows r new old = ground (arith, any-append p rows (r ∷ []))

  set_state-IsSpent :
      (watch_id : String) (s : State) (db : Db)
      → (watch_id == id && is_armed s) ≡ false
      → IsSpent db
      → any (can_fire id) (update_where (has_id watch_id) (with_state s) db.watches) ≡ false
  set_state-IsSpent watch_id s db r h =
      any-update_where (can_fire id) (has_id watch_id) (with_state s) db.watches
        (λ w hit live. ground (arith, eq_iff w.id watch_id, eq_iff w.id id, eq_iff watch_id id)) h

  -- A watch that cannot fire stays so.
  step-IsSpent : (c : Call) (db : Db) → Respects c → IsSpent db → IsSpent (step c db)
  unfolding step
  step-IsSpent (saves f) db r h = h
  step-IsSpent (deletes fence_id) db r h =
      ground (arith, any-delete_where (can_fire id) (λ w. w.fence_id == fence_id) db.watches h)
  step-IsSpent (creates w) db r h = ground (arith, any-add (can_fire id) db.watches (row_of w))
  step-IsSpent (fires watch_id at) db r h = ground (
    arith,
    any-update_where (can_fire id) (can_fire watch_id) (fire_row at) db.watches
        (λ w hit live. ground arith) h,
  )
  step-IsSpent (sets watch_id s) db r h = ground (arith, set_state-IsSpent watch_id s db r h)
  step-IsSpent (expires now) db r h =
      any-update_where (can_fire id) (is_overdue now) (with_state expired) db.watches
        (λ w hit live. ground arith) h
  step-IsSpent (cancels device) db r h =
      any-update_where (can_fire id) (is_cancellable device) (with_state cancelled) db.watches
        (λ w hit live. ground arith) h
  step-IsSpent (reports watch_id at payload) db r h = ground arith
  step-IsSpent (counts fence_id at operator n) db r h = ground arith
  step-IsSpent (measures fence_id at n) db r h = ground arith
  step-IsSpent (observes fence_id at seen stale) db r h = rw observes-watches h

  step-IsOneShot : (c : Call) (db : Db) → Respects c → IsOneShot db → IsOneShot (step c db)
  unfolding step
  step-IsOneShot (saves f) db r h = h
  step-IsOneShot (deletes fence_id) db r h =
      ground (arith, any-delete_where repeats (λ w. w.fence_id == fence_id) db.watches h)
  step-IsOneShot (creates w) db r h = ground (arith, any-add repeats db.watches (row_of w))
  step-IsOneShot (fires watch_id at) db r h = ground (
    arith,
    any-update_where repeats (can_fire watch_id) (fire_row at) db.watches (λ w hit live. live) h,
  )
  step-IsOneShot (sets watch_id s) db r h = ground (
    arith,
    any-update_where repeats (has_id watch_id) (with_state s) db.watches (λ w hit live. live) h,
  )
  step-IsOneShot (expires now) db r h =
      any-update_where repeats (is_overdue now) (with_state expired) db.watches (λ w hit live. live)
        h
  step-IsOneShot (cancels device) db r h =
      any-update_where repeats (is_cancellable device) (with_state cancelled) db.watches
        (λ w hit live. live) h
  step-IsOneShot (reports watch_id at payload) db r h = ground arith
  step-IsOneShot (counts fence_id at operator n) db r h = ground arith
  step-IsOneShot (measures fence_id at n) db r h = ground arith
  step-IsOneShot (observes fence_id at seen stale) db r h = rw observes-watches h

  fire_row-spends :
      (at : ℕ) (rows : List WatchRow)
      → any repeats rows ≡ false
      → any (can_fire id) (update_where (can_fire id) (fire_row at) rows) ≡ false
  fire_row-spends at [] h = refl
  fire_row-spends at (w ∷ rows) h = ground (arith, fire_row-spends at rows)

  fires-IsSpent :
      (watch_id : String) (at : ℕ) (db : Db)
      → watch_id ≡ id
      → IsOneShot db
      → IsSpent (step (fires watch_id at) db)
  unfolding step
  fires-IsSpent watch_id at db e h = rw e (ground (arith, fire_row-spends at db.watches h))

  -- A call that fires the watch leaves it spent.
  wins-spends : (c : Call) (db : Db) → wins id c db ≡ true → IsOneShot db → IsSpent (step c db)
  wins-spends (fires watch_id at) db won h =
      fires-IsSpent watch_id at db ((eq_iff watch_id id).0 (ground arith)) h
  wins-spends _ db won h = cc

  wins_of_IsSpent : (c : Call) (db : Db) → IsSpent db → wins id c db ≡ false
  unfolding firings
  wins_of_IsSpent (fires watch_id at) db h = elim (Bool-cases (watch_id == id)) [
    | inl e ↦ rw ((eq_iff watch_id id).0 e) (ground arith)
    | inr e ↦ ground arith
  ]
  wins_of_IsSpent _ db h = refl

  firings_of_IsSpent :
      (calls : List Call) (db : Db) → All Respects calls → IsSpent db → firings id calls db ≡ 0
  unfolding firings
  firings_of_IsSpent [] db r h = refl
  firings_of_IsSpent (c ∷ calls) db r h =
      rw (wins_of_IsSpent c db h)
        (omega (arith, firings_of_IsSpent calls (step c db) r.1 (step-IsSpent c db r.0 h)))

  -- Over any sequence of the store's calls that neither create a watch under this identifier nor
  -- arm it by `SetState`, a watch whose rows do not repeat is fired successfully at most once.
  pub firings-le-one :
      (calls : List Call) (db : Db) → All Respects calls → IsOneShot db → firings id calls db ≤ 1
  unfolding firings
  firings-le-one [] db r h = omega arith
  firings-le-one (c ∷ calls) db r h = elim (Bool-cases (wins id c db)) [
    | inl won ↦
        rw won (omega (arith, firings_of_IsSpent calls (step c db) r.1 (wins-spends c db won h)))
    | inr lost ↦
        rw lost (omega (arith, firings-le-one calls (step c db) r.1 (step-IsOneShot c db r.0 h)))
  ]
