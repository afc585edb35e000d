-- ===== src/Store/History.antt =====
-- internal/store: sequences of calls. The poll loop and the HTTP handlers share the one connection,
-- so whatever they interleave is a sequence of the store's statements; a call that fails leaves the
-- tables as they were.
pub mod Keys
pub mod Links
pub mod Linked
pub mod Firing
use scootless.Base.{
  ℕ, any, require, Bool-cases, inl, inr, ◌+◌, ◌≡◌, refl, ◌>>=◌, ◌==◌, string_eq, ◌&&◌, zero, suc,
  Bool, true, false, String, List, [], ◌∷◌, ◌++◌, Result, ok, err, is_ok, if◌then◌else◌,
}
use scootless.Base.Int.{ℤ}
use scootless.Store.Schema.{Db, Fence, Watch, State, StoreError, PresenceRow}
use scootless.Store.Fences.{save_fence, delete_fence, is_waiting, has_events, without_fence}
use scootless.Store.Watches.{
  create_watch, mark_fired, set_state, expire_watches, cancel_armed, record_event,
}
use scootless.Store.Samples.{record_sample}
use scootless.Store.Nearest.{Nearest, record_nearest}
use scootless.Store.Presence.{Sighting, Arrival, observe_presence}

-- A call of the store that writes, with its arguments.
pub data Call : Type 0 where
  saves : Fence → Call
  deletes : (fence_id : String) → Call
  creates : Watch → Call
  fires : (watch_id : String) (at : ℕ) → Call
  sets : (watch_id : String) → State → Call
  expires : (now : ℕ) → Call
  cancels : (device : String) → Call
  reports : (watch_id : String) (at : ℕ) (payload : String) → Call
  counts : (fence_id : String) (at : ℕ) (operator : String) (count : ℕ) → Call
  measures : (fence_id : String) (at : ℕ) → Nearest → Call
  observes : (fence_id : String) (at : ℕ) → List Sighting → (stale : ℤ) → Call

-- The tables after a call, from those before it and its outcome.
abbrev pub after {ℓ} : {A : Type ℓ} → (A → Db) → Db → Result StoreError A → Db
after new db (ok a) = new a
after new db (err e) = db

abbrev pub same_db : Db → Db
same_db db = db

unfoldable pub step : Call → Db → Db
unfolding save_fence delete_fence create_watch mark_fired set_state expire_watches cancel_armed
    record_event record_sample record_nearest observe_presence
step (saves f) db = save_fence f db
step (deletes fence_id) db = after (λ (removed, new). new) db (delete_fence fence_id db)
step (creates w) db = after same_db db (create_watch w db)
step (fires watch_id at) db = after same_db db (mark_fired watch_id at db)
step (sets watch_id s) db = after same_db db (set_state watch_id s db)
step (expires now) db = (expire_watches now db).1
step (cancels device) db = (cancel_armed device db).1
step (reports watch_id at payload) db = after same_db db (record_event watch_id at payload db)
step (counts fence_id at operator n) db = after same_db db (record_sample fence_id at operator n db)
step (measures fence_id at n) db = after same_db db (record_nearest fence_id at n db)
step (observes fence_id at seen stale) db =
    after (λ (new, next). next) db (observe_presence fence_id at seen stale db)

-- What holds before a guarded call, and after it where the guard passes, holds after it in any
-- case.
pub after_require {ℓ} :
    (P : Db → Type ℓ) (guard : Bool) (e : StoreError) (db new : Db)
    → P db
    → (guard ≡ true → P new)
    → P (after same_db db (require guard e (ok new)))
after_require P true e db new h k = k refl
after_require P false e db new h k = h

pub after_delete {ℓ} :
    (P : Db → Type ℓ) (id : String) (db : Db)
    → P db
    → ((db.foreign_keys && has_events id db) ≡ false → P (without_fence id db))
    → P (after (λ (removed, new). new) db (delete_fence id db))
unfolding delete_fence
after_delete P id db h k = elim (Bool-cases (any (is_waiting id) db.watches)) [
  | inl waiting ↦ rw (waiting, delete_fence) h
  | inr idle ↦ elim (Bool-cases (db.foreign_keys && has_events id db)) [
    | inl held ↦ rw (idle, held, delete_fence) h
    | inr loose ↦ rw (idle, loose, delete_fence) (k loose)
  ]
]

unfoldable pub run : List Call → Db → Db
unfolding step
run [] db = db
run (c ∷ calls) db = run calls (step c db)

pub run-append : (xs ys : List Call) (db : Db) → run (xs ++ ys) db ≡ run ys (run xs db)
unfolding run
run-append [] ys db = refl
run-append (x ∷ xs) ys db = run-append xs ys (step x db)

-- The call succeeds in firing the watch.
abbrev pub wins : String → Call → Db → Bool
wins id (fires watch_id at) db = watch_id == id && is_ok (mark_fired watch_id at db)
wins id _ db = false

-- How often a sequence of calls fires a watch.
unfoldable pub firings : String → List Call → Db → ℕ
unfolding step mark_fired
firings id [] db = 0
firings id (c ∷ calls) db = (if wins id c db then 1 else 0) + firings id calls (step c db)

kept-watches :
    (db : Db) (r : Result StoreError (List PresenceRow × List Arrival))
    → (after
        (λ (new, next). next)
        db
        (r >>= λ (rows, new). ok (new, record db { presence = rows }))).watches
      ≡ db.watches
kept-watches db (ok (rows, new)) = refl
kept-watches db (err e) = refl

-- `ObservePresence` writes `presence` alone.
pub observes-watches :
    (fence_id : String) (at : ℕ) (seen : List Sighting) (stale : ℤ) (db : Db)
    → (step (observes fence_id at seen stale) db).watches ≡ db.watches
unfolding step
observes-watches fence_id at seen stale db = kept-watches db _

kept-rest :
    (db : Db) (r : Result StoreError (List PresenceRow × List Arrival))
    → let new =
        after
          (λ (new, next). next)
          db
          (r >>= λ (rows, new). ok (new, record db { presence = rows })) in
      (new.events ≡ db.events) × (new.foreign_keys ≡ db.foreign_keys)
kept-rest db (ok (rows, new)) = (refl, refl)
kept-rest db (err e) = (refl, refl)

pub observes-events :
    (fence_id : String) (at : ℕ) (seen : List Sighting) (stale : ℤ) (db : Db)
    → let new = step (observes fence_id at seen stale) db in
      (new.events ≡ db.events) × (new.foreign_keys ≡ db.foreign_keys)
unfolding step
observes-events fence_id at seen stale db = kept-rest db _
