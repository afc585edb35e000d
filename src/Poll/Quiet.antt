-- ===== src/Poll/Quiet.antt =====
-- internal/poll/poll.go: the steps of a tick that start no delivery and report no watch.
use scootless.Base.{ℕ, ◌≡◌, refl, List, Result, ok, err}
use scootless.Float.{Math}
use scootless.Entur.Vehicles.{Vehicle}
use scootless.Store.Schema.{Db, Fence, StoreError}
use scootless.Store.Samples.{record_sample}
use scootless.Base.Dict.{put}
use scootless.Store.Nearest.{record_nearest as store_nearest}
use scootless.Store.Presence.{observe_presence, Arrival}
use scootless.Poll.Run.{Run, Poller, write}
use scootless.Poll.Record.{record_fence, record_nearest, observed, sightings_of}
use scootless.Poll.Walk.{walk-record_fence, walk-record_nearest}
use scootless.Poll.Keeps.{Keeps-IsClosed, Keeps, Keeps-write}

module _ (P : Run → Type 0)
    (frame : (s t : Run)
      → s.deliveries ≡ t.deliveries
      → s.rep.fired ≡ t.rep.fired
      → P s
      → P t) where
  Quiet-write : (statement : Db → Result StoreError Db) → Keeps P (write statement)
  Quiet-write statement =
      Keeps-write P statement (λ s new h done. frame s (record s { db = new }) refl refl h)

  Quiet-observed :
      (f : Db → Result StoreError (List Arrival × Db)) → Keeps P (λ s. observed (f s.db) s)
  Quiet-observed f s h = after_it (f s.db)
    where
      after_it : (r : Result StoreError (List Arrival × Db)) → P (observed r s).1
      after_it (ok (new, db)) = frame s _ refl refl h
      after_it (err e) = h

  pub Quiet-record_fence :
      (p : Poller) (f : Fence) (now : ℕ) (inside : List Vehicle)
      → Keeps P (record_fence p f now inside)
  Quiet-record_fence p f now inside =
      walk-record_fence (λ act. Keeps P act) (Keeps-IsClosed P) p f now inside
        (λ op n. Quiet-write (record_sample f.id now op n))
        (Quiet-observed (observe_presence f.id now (sightings_of inside) p.stale))

  pub Quiet-record_nearest :
      (m : Math) (p : Poller) (now : ℕ) (f : Fence) (inside : List Vehicle)
      → Keeps P (record_nearest m p f now inside)
  Quiet-record_nearest m p now f inside =
      walk-record_nearest (λ act. Keeps P act) (Keeps-IsClosed P) p f now inside m
        (λ n. Quiet-write (store_nearest f.id now n))
        (λ s h. frame s (record s { nearest_at = put f.id now s.nearest_at }) refl refl h)
        λ s h. frame s _ refl refl h
