-- ===== src/Poll/Told.antt =====
-- internal/poll/poll.go: the watches that a tick reports are those whose notifications it starts.
use mathlib.Core.List.{append-nil, append_assoc}
use scootless.Base.{
  ℕ, ◌≡◌, refl, sym, ap, ◌∙◌, Bool, true, false, String, List, [], ◌∷◌, ◌++◌, map, Option, none,
  some, Result, ok, err, All-of, length, if◌then◌else◌, ◌==◌, string_eq, ◌||◌,
}
use scootless.Float.{Math}
use scootless.Entur.Operators.{EnturError}
use scootless.Entur.Vehicles.{Vehicle, Fetched}
use scootless.Store.Schema.{
  Db, Fence, Watch, StoreError, not_found, no_rows, fence_in_use, constraint_failed,
}
use scootless.Store.Fences.{fences}
use scootless.Store.Watches.{expire_watches, armed_watches, mark_fired, record_event}
use scootless.Poll.Select.{Group, within, group_fences, matches}
use scootless.Poll.Run.{
  Run, Poller, Notification, TickError, M, resume, wrote, ◌>>=◌, ◌>>◌, pure, modify_rep, for_each,
  empty_report,
}
use scootless.Poll.Evaluate.{
  evaluate, notification, verdict, fire, act_on, marked, announce, dispatch,
}
use scootless.Poll.Tick.{
  fence_step, group_steps, group_step, group_done, group_query, refresh, tick, watch_step,
  note_fired, outcome_of,
}
use scootless.Poll.Walk.{walk-for_each, walk-fence_step}
use scootless.Poll.Keeps.{Keeps-IsClosed, Keeps, Keeps-bind, Keeps-for_each, Keeps-if}
use scootless.Poll.Quiet.{Quiet-record_fence, Quiet-record_nearest}

map-snoc :
    {A B : Type 0} (f : A → B) (xs : List A) (x : A) → map f (xs ++ x ∷ []) ≡ map f xs ++ f x ∷ []
map-snoc f [] x = refl
map-snoc f (y ∷ xs) x = ap (λ ys. f y ∷ ys) (map-snoc f xs x)

abbrev pub told_of : Run → List String
told_of s = map (λ (n : Notification). n.watch_id) s.deliveries

module _ (before : List String) where
  -- The notifications that were started since are those of the reported watches, in order.
  abbrev Told : Run → Type 0
  Told s = told_of s ≡ before ++ s.rep.fired

  Told-frame :
      (s t : Run) → s.deliveries ≡ t.deliveries → s.rep.fired ≡ t.rep.fired → Told s → Told t
  Told-frame s t d f h =
      ap (λ ns. map (λ (n : Notification). n.watch_id) ns) (sym d) ∙ h ∙ ap (λ ids. before ++ ids) f

  -- After `evaluate` and before the report: a watch that fired is told of, and not yet reported.
  abbrev Owed : Watch → Result TickError Bool × Run → Type 0
  Owed w (ok true, s) = told_of s ≡ (before ++ s.rep.fired) ++ w.id ∷ []
  Owed w (ok false, s) = Told s
  Owed w (err e, s) = Told s

  module _ (m : Math) (p : Poller) (now : ℕ) (sink : p.has_sink ≡ true) where
    Owed-announce :
        (w : Watch) (f : Fence) (matching hit : List Vehicle) (o : Option String) (s : Run)
        → Told s
        → Owed w (announce p w f now (notification p w f now matching hit) o s)
    Owed-announce w f matching hit none s h = h
    Owed-announce w f matching hit (some payload) s h =
        recorded_event (record_event w.id now payload s.db)
      where
        n : Notification
        n = notification p w f now matching hit

        recorded_event :
            (r : Result StoreError Db)
            → Owed w (resume (λ _. dispatch p w f now n >> pure true) (wrote r s))
        recorded_event (err e) = h
        recorded_event (ok db) = rw sink (
            map-snoc (λ (n : Notification). n.watch_id) s.deliveries n
            ∙ ap (λ ids. ids ++ w.id ∷ []) h)

    Owed-fire :
        (w : Watch) (f : Fence) (matching hit : List Vehicle) (s : Run)
        → Told s
        → Owed w (fire p w f now matching hit s)
    unfolding fire
    Owed-fire w f matching hit s h = won (mark_fired w.id now s.db)
      where
        note : Notification
        note = notification p w f now matching hit

        won :
            (r : Result StoreError Db)
            → Owed w (
                resume
                  (λ won. if won then announce p w f now note (p.encode note) else pure false)
                  (marked r s))
        won (ok db) = Owed-announce w f matching hit (p.encode note) (record s { db = db }) h
        won (err not_found) = h
        won (err no_rows) = h
        won (err fence_in_use) = h
        won (err constraint_failed) = h

    Owed-evaluate :
        (w : Watch) (f : Fence) (inside : List Vehicle) (dark : List String) (s : Run)
        → Told s
        → Owed w (evaluate p w f now inside dark s)
    unfolding evaluate
    Owed-evaluate w f inside dark s h = acted (verdict w (matches inside w) dark)
      where
        acted :
            (r : Result String (Option (List Vehicle)))
            → Owed w (act_on p w f now (matches inside w) r s)
        acted (err k) = h
        acted (ok none) = h
        acted (ok (some hit)) = Owed-fire w f (matches inside w) hit s h

    Told-noted :
        (w : Watch) (r : Result TickError Bool × Run)
        → Owed w r
        → Told (resume (note_fired m p now w) r).1
    Told-noted w (ok true, s) h = h ∙ append_assoc before s.rep.fired (w.id ∷ [])
    Told-noted w (ok false, s) h = h
    Told-noted w (err e, s) h = h

    Told-watch_step :
        (f : Fence) (inside : List Vehicle) (dark : List String) (w : Watch)
        → Keeps Told (watch_step m p now f inside dark w)
    Told-watch_step f inside dark w =
        Keeps-if Told (w.fence_id == f.id) (evaluate p w f now inside dark >>= note_fired m p now w)
          (pure tt)
          (λ s h.
            Told-noted w (evaluate p w f now inside dark s) (Owed-evaluate w f inside dark s h))
          (λ s h. h)

    Told-fence_step :
        (watches : List Watch) (vehicles : List Vehicle) (f : Fence)
        → Keeps Told (fence_step m p now watches vehicles f)
    Told-fence_step watches vehicles f =
        let inside = within m vehicles f in
        walk-fence_step (λ act. Keeps Told act) (Keeps-IsClosed Told) m p now watches vehicles f
          (Quiet-record_fence Told Told-frame p f now inside)
          (Quiet-record_nearest Told Told-frame m p now f inside) (λ dark s h. h)
          λ dark.
            walk-for_each (λ act. Keeps Told act) (Keeps-IsClosed Told)
              (watch_step m p now f inside dark) watches (Told-watch_step f inside dark)

    Told-group_step :
        (watches : List Watch) (g : Group) (r : Result EnturError Fetched)
        (failed : List EnturError)
        → Keeps Told (group_step m p now watches g r failed)
    Told-group_step watches g (err e) failed = λ s h. h
    Told-group_step watches g (ok res) failed =
        Keeps-bind Told (group_done m p now watches g res) (λ _. pure failed)
          (Keeps-bind Told (modify_rep (λ r. record r { truncated = r.truncated || res.truncated }))
            (λ _. for_each (fence_step m p now watches res.vehicles) g.fences) (λ s h. h)
            λ _. Keeps-for_each Told (fence_step m p now watches res.vehicles) g.fences (
              All-of (λ f. Keeps Told (fence_step m p now watches res.vehicles f))
                (Told-fence_step watches res.vehicles) g.fences))
          λ _ s h. h

    Told-group_steps :
        (watches : List Watch) (gs : List Group) (failed : List EnturError)
        → Keeps Told (group_steps m p now watches gs failed)
    unfolding group_steps
    Told-group_steps watches [] failed = λ s h. h
    Told-group_steps watches (g ∷ gs) failed =
        Keeps-bind Told (group_step m p now watches g (p.fetch (group_query m p now g)) failed)
          (group_steps m p now watches gs)
          (Told-group_step watches g (p.fetch (group_query m p now g)) failed)
          (λ failed'. Told-group_steps watches gs failed')

    Told-outcome_of : (failed : List EnturError) → Keeps Told (outcome_of m p now failed)
    Told-outcome_of [] = λ s h. h
    Told-outcome_of (e ∷ failed) = λ s h. h

    Told-refresh : (fs : List Fence) → Keeps Told (refresh m p now fs)
    unfolding refresh
    Told-refresh [] s h = h
    Told-refresh (f ∷ fs) s h =
        let watches = armed_watches now s.db in
        Keeps-bind Told counted (λ _. group_steps m p now watches gs [] >>= outcome_of m p now)
          (λ t k. k)
          (λ _.
            Keeps-bind Told (group_steps m p now watches gs []) (outcome_of m p now)
              (Told-group_steps watches gs []) Told-outcome_of)
          s h
      where
        gs : List Group
        gs = group_fences m (f ∷ fs)

        counted : M (Unit {0})
        counted = modify_rep (λ r. record r { fences = length (f ∷ fs); queries = length gs })

-- Where there is a sink, a tick, failed or not, hands to it, after what was handed before, one
-- notification for each watch that it reports as fired, in the order of the report, and no other.
pub tick-told :
    (m : Math) (p : Poller) (now : ℕ) (s : Run)
    → p.has_sink ≡ true
    → let after = (tick m p now s).1 in told_of after ≡ told_of s ++ after.rep.fired
unfolding tick
tick-told m p now s sink =
    Told-refresh (told_of s) m p now sink (fences (expire_watches now s.db).1)
      (record s {
        db = (expire_watches now s.db).1;
        rep = record (empty_report now) { expired = (expire_watches now s.db).0 };
      })
      (sym (append-nil (told_of s)))
