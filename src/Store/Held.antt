-- ===== src/Store/Held.antt =====
-- internal/store/fence_delete.go with the foreign key of `event`: fences that cannot be deleted.
-- The schema turns foreign keys on for the pool's one connection, and `DeleteFence` removes the
-- watches of a fence and not their events.
use scootless.Base.{
  ℕ, suc, ◌≡◌, refl, Bool, true, false, not, ◌&&◌, String, List, [], ◌∷◌, ◌++◌, is_ok, ◌==◌,
  string_eq, eq_iff, any, any_intro, any-append, any-map, any-keep, any_congr, arith, if◌then◌else◌,
  Bool-cases, inl, inr, ◌∙◌,
}
use scootless.Base.Table.{update_where, delete_where}
use scootless.Store.Schema.{Db, WatchRow, EventRow, unix, expired, cancelled}
use scootless.Store.Fences.{delete_fence, has_events}
use scootless.Store.Watches.{
  row_of, has_id, can_fire, fire_row, with_state, is_overdue, is_cancellable,
}
use scootless.Store.History.{
  Call, saves, deletes, creates, fires, sets, expires, cancels, reports, counts, measures, observes,
  step, run, after_require, after_delete, observes-watches, observes-events,
}

-- Foreign keys are enforced, and a watch of the fence has reported an event.
pub record IsHeld (id : String) (db : Db) : Type 0 where
  pub enforced : db.foreign_keys ≡ true
  pub reported : has_events id db ≡ true

module _ (id : String) where
  -- A watch of the fence that an event names.
  abbrev names : EventRow → WatchRow → Bool
  names e w = w.fence_id == id && w.id == e.watch_id

  -- It is enough that no watch of the fence that an event names gets lost.
  watches-IsHeld :
      (db new : Db)
      → new.foreign_keys ≡ db.foreign_keys
      → new.events ≡ db.events
      → ((e : EventRow) → any (names e) db.watches ≡ true → any (names e) new.watches ≡ true)
      → IsHeld id db
      → IsHeld id new
  watches-IsHeld db new flag same kept h = record {
    enforced = flag ∙ h.enforced;
    reported = rw same (
        any_intro (λ e. any (names e) db.watches) (λ e. any (names e) new.watches) kept db.events
          h.reported);
  }

  update-IsHeld :
      (hit : WatchRow → Bool) (change : WatchRow → WatchRow) (db : Db)
      → ((r : WatchRow) → (change r).id ≡ r.id)
      → ((r : WatchRow) → (change r).fence_id ≡ r.fence_id)
      → IsHeld id db
      → IsHeld id (record db { watches = update_where hit change db.watches })
  update-IsHeld hit change db ids refs = watches-IsHeld db _ refl refl λ e h.
      any-map (λ r. if hit r then change r else r) (names e) db.watches
      ∙ any_congr _ (names e) (λ r. ground (arith, ids r, refs r)) db.watches
      ∙ h

  kept-names :
      (other : String) (e : EventRow) (rows : List WatchRow)
      → (other == id) ≡ false
      → any (names e) rows ≡ true
      → any (names e) (delete_where (λ w. w.fence_id == other) rows) ≡ true
  kept-names other e rows differ h =
      any-keep (names e) (λ w. not (w.fence_id == other)) rows
      ∙ any_intro (names e) (λ w. not (w.fence_id == other) && names e w)
          (λ w n. ground (arith, eq_iff w.fence_id other, eq_iff w.fence_id id, eq_iff other id))
          rows h

  add-IsHeld :
      (e : EventRow) (next : ℕ) (db : Db)
      → IsHeld id db
      → IsHeld id (record db { events = db.events ++ e ∷ []; next_event = next })
  add-IsHeld e next db h = record {
    enforced = h.enforced;
    reported =
        ground (arith, any-append (λ d. any (names d) db.watches) db.events (e ∷ []), h.reported);
  }

  step-IsHeld : (c : Call) (db : Db) → IsHeld id db → IsHeld id (step c db)
  unfolding step
  step-IsHeld (saves f) db h = record { enforced = h.enforced; reported = h.reported }
  step-IsHeld (deletes other) db h = elim (Bool-cases (other == id)) [
    | inl same ↦ after_delete (IsHeld id) other db h λ loose.
        absurd (ground (arith, rw ((eq_iff other id).0 same) at loose, h.enforced, h.reported))
    | inr differ ↦
        after_delete (IsHeld id) other db h
          λ loose. watches-IsHeld db _ refl refl (λ e n. kept-names other e db.watches differ n) h
  ]
  step-IsHeld (creates w) db h = after_require (IsHeld id) _ _ db _ h λ free.
      watches-IsHeld db (record db { watches = db.watches ++ row_of w ∷ [] }) refl refl
        (λ e n. ground (arith, any-append (names e) db.watches (row_of w ∷ []), n)) h
  step-IsHeld (fires watch_id at) db h =
      after_require (IsHeld id) _ _ db _ h
        λ live. update-IsHeld (can_fire watch_id) (fire_row at) db (λ r. refl) (λ r. refl) h
  step-IsHeld (sets watch_id s) db h =
      after_require (IsHeld id) _ _ db _ h
        λ known. update-IsHeld (has_id watch_id) (with_state s) db (λ r. refl) (λ r. refl) h
  step-IsHeld (expires now) db h =
      update-IsHeld (is_overdue now) (with_state expired) db (λ r. refl) (λ r. refl) h
  step-IsHeld (cancels device) db h =
      update-IsHeld (is_cancellable device) (with_state cancelled) db (λ r. refl) (λ r. refl) h
  step-IsHeld (reports watch_id at payload) db h = after_require (IsHeld id) _ _ db _ h λ known.
      add-IsHeld
        (record { id = db.next_event; watch_id = watch_id; at = unix at; payload = payload })
        (suc db.next_event) db h
  step-IsHeld (counts fence_id at operator n) db h = ground arith
  step-IsHeld (measures fence_id at n) db h = ground arith
  step-IsHeld (observes fence_id at seen stale) db h =
      let (events, flag) = observes-events fence_id at seen stale db in
      watches-IsHeld db _ flag events (λ e n. rw (observes-watches fence_id at seen stale db) n) h

  delete_fence-held : (db : Db) → IsHeld id db → is_ok (delete_fence id db) ≡ false
  unfolding delete_fence
  delete_fence-held db h = ground (arith, h.enforced, h.reported)

  -- Once a watch of the fence has reported an event, the fence is never deleted again on a
  -- connection that enforces foreign keys: after any further calls `DeleteFence` still fails.
  pub run-delete_fence-held :
      (calls : List Call) (db : Db) → IsHeld id db → is_ok (delete_fence id (run calls db)) ≡ false
  unfolding run
  run-delete_fence-held [] db h = delete_fence-held db h
  run-delete_fence-held (c ∷ calls) db h =
      run-delete_fence-held calls (step c db) (step-IsHeld c db h)
