-- ===== src/Poll/Reached.antt =====
-- internal/poll/poll.go: a step of a tick as calls of the store, for each kind of step.
use scootless.Base.{
  ℕ, ◌≡◌, refl, Bool, true, false, String, List, [], ◌∷◌, ◌++◌, Result, ok, err, All, if◌then◌else◌,
  ◌∙◌, ap, sym, contains, string_eq,
}
use scootless.Base.Int.{ℤ}
use scootless.Store.Schema.{Db, StoreError, not_found, no_rows, fence_in_use, constraint_failed}
use scootless.Store.Watches.{mark_fired, record_event}
use scootless.Store.Samples.{record_sample}
use scootless.Store.Nearest.{Nearest, record_nearest as store_nearest}
use scootless.Store.Presence.{Sighting, observe_presence, Arrival}
use scootless.Store.History.{
  Call, fires, reports, counts, measures, observes, step, run, after, same_db,
}
use scootless.Poll.Run.{Run, pure, modify, write}
use scootless.Poll.Record.{observed}
use scootless.Poll.Evaluate.{marked}
use scootless.Poll.Keeps.{Keeps, Keeps-write}

run-snoc :
    (calls : List Call) (c : Call) (db : Db) → run (calls ++ c ∷ []) db ≡ step c (run calls db)
unfolding run
run-snoc [] c db = refl
run-snoc (d ∷ calls) c db = run-snoc calls c (step d db)

module _ (db0 : Db) (ids : List String) where
  -- The database is what some sequence of the store's calls makes of the first one, and the report
  -- names no other watches than the given ones.
  abbrev pub Reached : Run → Type 0
  Reached s =
      ((calls : List Call) × (s.db ≡ run calls db0))
      × All (λ id. contains ids id ≡ true) s.rep.fired

  -- A statement that is a call of the store.
  pub Reached-write :
      (statement : Db → Result StoreError Db) (c : Call)
      → ((db new : Db) → statement db ≡ ok new → step c db ≡ new)
      → Keeps Reached (write statement)
  Reached-write statement c same = Keeps-write Reached statement λ s new ((calls, e), named) done. (
    (calls ++ c ∷ [], sym (same s.db new done) ∙ ap (step c) e ∙ sym (run-snoc calls c db0)),
    named,
  )

  fires-db :
      (id : String) (now : ℕ) (db new : Db)
      → mark_fired id now db ≡ ok new
      → step (fires id now) db ≡ new
  unfolding step
  fires-db id now db new done = ap (after same_db db) done

  observes-db :
      (fence_id : String) (now : ℕ) (seen : List Sighting) (stale : ℤ) (db new : Db)
      (a : List Arrival)
      → observe_presence fence_id now seen stale db ≡ ok (a, new)
      → step (observes fence_id now seen stale) db ≡ new
  unfolding step
  observes-db fence_id now seen stale db new a done = ap (after (λ (a, next). next) db) done

  pub reports-db :
      (id : String) (now : ℕ) (payload : String) (db new : Db)
      → record_event id now payload db ≡ ok new
      → step (reports id now payload) db ≡ new
  unfolding step
  reports-db id now payload db new done = ap (after same_db db) done

  pub counts-db :
      (fence_id : String) (now : ℕ) (op : String) (n : ℕ) (db new : Db)
      → record_sample fence_id now op n db ≡ ok new
      → step (counts fence_id now op n) db ≡ new
  unfolding step
  counts-db fence_id now op n db new done = ap (after same_db db) done

  pub measures-db :
      (fence_id : String) (now : ℕ) (n : Nearest) (db new : Db)
      → store_nearest fence_id now n db ≡ ok new
      → step (measures fence_id now n) db ≡ new
  unfolding step
  measures-db fence_id now n db new done = ap (after same_db db) done

  Reached-modify :
      (change : Run → Run)
      → ((s : Run) → (change s).db ≡ s.db)
      → ((s : Run) → (change s).rep.fired ≡ s.rep.fired)
      → Keeps Reached (modify change)
  Reached-modify change same alike s ((calls, e), named) = ((calls, same s ∙ e), rw (alike s) named)

  pub Reached-marked :
      (id : String) (now : ℕ) → Keeps Reached (λ s. marked (mark_fired id now s.db) s)
  Reached-marked id now s ((calls, e), named) = go (mark_fired id now s.db) refl
    where
      go : (r : Result StoreError Db) → mark_fired id now s.db ≡ r → Reached (marked r s).1
      go (ok new) done = (
        (
          calls ++ fires id now ∷ [],
          sym (fires-db id now s.db new done)
              ∙ ap (step (fires id now)) e
              ∙ sym (run-snoc calls (fires id now) db0),
        ),
        named,
      )
      go (err not_found) done = ((calls, e), named)
      go (err no_rows) done = ((calls, e), named)
      go (err fence_in_use) done = ((calls, e), named)
      go (err constraint_failed) done = ((calls, e), named)

  pub Reached-observed :
      (fence_id : String) (now : ℕ) (seen : List Sighting) (stale : ℤ)
      → Keeps Reached (λ s. observed (observe_presence fence_id now seen stale s.db) s)
  Reached-observed fence_id now seen stale s ((calls, e), named) =
      go (observe_presence fence_id now seen stale s.db) refl
    where
      go :
          (r : Result StoreError (List Arrival × Db))
          → observe_presence fence_id now seen stale s.db ≡ r
          → Reached (observed r s).1
      go (ok (new, after_db)) done = (
        (
          calls ++ observes fence_id now seen stale ∷ [],
          sym (observes-db fence_id now seen stale s.db after_db new done)
              ∙ ap (step (observes fence_id now seen stale)) e
              ∙ sym (run-snoc calls (observes fence_id now seen stale) db0),
        ),
        named,
      )
      go (err why) done = ((calls, e), named)

  pub Reached-if_modify :
      (b : Bool) (change : Run → Run)
      → ((s : Run) → (change s).db ≡ s.db)
      → ((s : Run) → (change s).rep.fired ≡ s.rep.fired)
      → Keeps Reached (if b then modify change else pure tt)
  Reached-if_modify true change same alike = Reached-modify change same alike
  Reached-if_modify false change same alike = λ s h. h
