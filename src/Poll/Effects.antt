-- ===== src/Poll/Effects.antt =====
-- internal/poll/poll.go: `evaluate`, `recordFence` and `recordNearest` as calls of the store.
use scootless.Base.{
  ℕ, refl, Bool, true, false, String, List, Option, none, some, Result, ok, err, if◌then◌else◌,
  string_eq,
}
use scootless.Float.{Math}
use scootless.Entur.Vehicles.{Vehicle}
use scootless.Store.Schema.{Db, Fence, Watch}
use scootless.Store.Watches.{mark_fired, record_event}
use scootless.Store.Samples.{record_sample}
use scootless.Store.Nearest.{record_nearest as store_nearest}
use scootless.Store.History.{reports, counts, measures}
use scootless.Poll.Select.{matches}
use scootless.Poll.Run.{Poller, Notification, M, ◌>>◌, pure, write}
use scootless.Poll.Record.{record_fence, record_nearest, sightings_of}
use scootless.Poll.Evaluate.{
  evaluate, notification, verdict, fire, act_on, marked, announce, dispatch,
}
use scootless.Poll.Walk.{walk-record_fence, walk-record_nearest}
use scootless.Poll.Keeps.{Keeps-IsClosed, Keeps, Keeps-bind}
use scootless.Poll.Reached.{
  Reached, Reached-write, reports-db, counts-db, measures-db, Reached-marked, Reached-observed,
  Reached-if_modify,
}

module _ (db0 : Db) (ids : List String) (m : Math) (p : Poller) (now : ℕ) where
  Reached-announce :
      (w : Watch) (f : Fence) (n : Notification) (o : Option String)
      → Keeps (Reached db0 ids) (announce p w f now n o)
  Reached-announce w f n none = λ s h. h
  Reached-announce w f n (some payload) =
      Keeps-bind (Reached db0 ids) (write (record_event w.id now payload))
        (λ _. dispatch p w f now n >> pure true)
        (Reached-write db0 ids (record_event w.id now payload) (reports w.id now payload)
          (reports-db db0 ids w.id now payload))
        λ _.
          Keeps-bind (Reached db0 ids) (dispatch p w f now n) (λ _. pure true)
            (Reached-if_modify db0 ids p.has_sink _ (λ s. refl) (λ s. refl)) λ _ s h. h

  Reached-fire :
      (w : Watch) (f : Fence) (matching hit : List Vehicle)
      → Keeps (Reached db0 ids) (fire p w f now matching hit)
  unfolding fire
  Reached-fire w f matching hit =
      Keeps-bind (Reached db0 ids) (λ s. marked (mark_fired w.id now s.db) s) announced
        (Reached-marked db0 ids w.id now) each
    where
      note : Notification
      note = notification p w f now matching hit

      announced : Bool → M Bool
      announced won = if won then announce p w f now note (p.encode note) else pure false

      each : (won : Bool) → Keeps (Reached db0 ids) (announced won)
      each true = Reached-announce w f note (p.encode note)
      each false = λ s h. h

  pub Reached-evaluate :
      (w : Watch) (f : Fence) (inside : List Vehicle) (dark : List String)
      → Keeps (Reached db0 ids) (evaluate p w f now inside dark)
  unfolding evaluate
  Reached-evaluate w f inside dark = acted (verdict w (matches inside w) dark)
    where
      acted :
          (r : Result String (Option (List Vehicle)))
          → Keeps (Reached db0 ids) (act_on p w f now (matches inside w) r)
      acted (err k) s h = h
      acted (ok none) s h = h
      acted (ok (some hit)) s h = Reached-fire w f (matches inside w) hit s h

  pub Reached-record_fence :
      (f : Fence) (inside : List Vehicle) → Keeps (Reached db0 ids) (record_fence p f now inside)
  Reached-record_fence f inside =
      walk-record_fence (λ act. Keeps (Reached db0 ids) act) (Keeps-IsClosed (Reached db0 ids)) p f
        now inside
        (λ op n.
          Reached-write db0 ids (record_sample f.id now op n) (counts f.id now op n)
            (counts-db db0 ids f.id now op n))
        (Reached-observed db0 ids f.id now (sightings_of inside) p.stale)

  pub Reached-record_nearest :
      (f : Fence) (inside : List Vehicle)
      → Keeps (Reached db0 ids) (record_nearest m p f now inside)
  Reached-record_nearest f inside =
      walk-record_nearest (λ act. Keeps (Reached db0 ids) act) (Keeps-IsClosed (Reached db0 ids)) p
        f now inside m
        (λ n.
          Reached-write db0 ids (store_nearest f.id now n) (measures f.id now n)
            (measures-db db0 ids f.id now n))
        (λ s h. h) λ s h. h
