-- ===== src/Poll/Passes.antt =====
-- internal/poll/poll.go: a whole `Tick` is a sequence of the store's calls.
use scootless.Base.{
  ℕ, ◌≡◌, refl, Bool, true, false, String, List, [], ◌∷◌, Result, ok, err, All, All-of, All-mono,
  All-append, map, contains, eq_refl, arith, length, ◌||◌, ◌==◌, string_eq,
}
use scootless.Float.{Math}
use scootless.Entur.Operators.{EnturError}
use scootless.Entur.Vehicles.{Vehicle, Fetched}
use scootless.Store.Schema.{Db, Fence, Watch}
use scootless.Store.Fences.{fences}
use scootless.Store.Watches.{expire_watches, armed_watches}
use scootless.Store.Lifetime.{expire_watches-live}
use scootless.Store.History.{Call, expires, run}
use scootless.Store.History.Keys.{HasKeys, run-HasKeys}
use scootless.Store.History.Links.{HasLinks}
use scootless.Store.History.Linked.{run-HasLinks}
use scootless.Poll.Select.{Group, within, group_fences}
use scootless.Poll.Run.{Run, Poller, M, ◌>>=◌, pure, modify_rep, for_each, empty_report}
use scootless.Poll.Evaluate.{evaluate}
use scootless.Poll.Tick.{
  fence_step, group_steps, group_step, group_done, group_query, refresh, tick, watch_step,
  note_fired, outcome_of,
}
use scootless.Poll.Walk.{walk-fence_step}
use scootless.Poll.Keeps.{Keeps-IsClosed, Keeps, Keeps-bind, Keeps-for_each, Keeps-if}
use scootless.Poll.Reached.{Reached}
use scootless.Poll.Effects.{Reached-evaluate, Reached-record_fence, Reached-record_nearest}

module _ (db0 : Db) (ids : List String) (m : Math) (p : Poller) (now : ℕ) where
  abbrev Kept : {A : Type 0} → M A → Type 0
  Kept = Keeps (Reached db0 ids)

  abbrev Named : Watch → Type 0
  Named w = contains ids w.id ≡ true

  Kept-note_fired : (w : Watch) (fired : Bool) → Named w → Kept (note_fired m p now w fired)
  Kept-note_fired w true n s (h, named) =
      (h, All-append (λ id. contains ids id ≡ true) s.rep.fired (w.id ∷ []) named (n, tt))
  Kept-note_fired w false n s h = h

  Kept-watch_step :
      (f : Fence) (inside : List Vehicle) (dark : List String) (w : Watch)
      → Named w
      → Kept (watch_step m p now f inside dark w)
  Kept-watch_step f inside dark w n =
      Keeps-if (Reached db0 ids) (w.fence_id == f.id)
        (evaluate p w f now inside dark >>= note_fired m p now w) (pure tt)
        (Keeps-bind (Reached db0 ids) (evaluate p w f now inside dark) (note_fired m p now w)
          (Reached-evaluate db0 ids m p now w f inside dark) (λ fired. Kept-note_fired w fired n))
        λ s h. h

  Kept-fence_step :
      (watches : List Watch) (vehicles : List Vehicle)
      → All Named watches
      → (f : Fence) → Kept (fence_step m p now watches vehicles f)
  Kept-fence_step watches vehicles ns f =
      let inside = within m vehicles f in
      walk-fence_step (λ act. Kept act) (Keeps-IsClosed (Reached db0 ids)) m p now watches vehicles
        f (Reached-record_fence db0 ids m p now f inside)
        (Reached-record_nearest db0 ids m p now f inside) (λ dark s h. h)
        λ dark. Keeps-for_each (Reached db0 ids) (watch_step m p now f inside dark) watches (
          All-mono Named (λ w. Kept (watch_step m p now f inside dark w))
            (Kept-watch_step f inside dark) watches ns)

  Kept-group_step :
      (watches : List Watch) (g : Group) (r : Result EnturError Fetched) (failed : List EnturError)
      → All Named watches
      → Kept (group_step m p now watches g r failed)
  Kept-group_step watches g (err e) failed ns = λ s h. h
  Kept-group_step watches g (ok res) failed ns =
      Keeps-bind (Reached db0 ids) (group_done m p now watches g res) (λ _. pure failed)
        (Keeps-bind (Reached db0 ids)
          (modify_rep (λ r. record r { truncated = r.truncated || res.truncated }))
          (λ _. for_each (fence_step m p now watches res.vehicles) g.fences) (λ s h. h)
          λ _. Keeps-for_each (Reached db0 ids) (fence_step m p now watches res.vehicles) g.fences (
            All-of (λ f. Kept (fence_step m p now watches res.vehicles f))
              (Kept-fence_step watches res.vehicles ns) g.fences))
        λ _ s h. h

  Kept-group_steps :
      (watches : List Watch) (gs : List Group) (failed : List EnturError)
      → All Named watches
      → Kept (group_steps m p now watches gs failed)
  unfolding group_steps
  Kept-group_steps watches [] failed ns = λ s h. h
  Kept-group_steps watches (g ∷ gs) failed ns =
      Keeps-bind (Reached db0 ids)
        (group_step m p now watches g (p.fetch (group_query m p now g)) failed)
        (group_steps m p now watches gs)
        (Kept-group_step watches g (p.fetch (group_query m p now g)) failed ns)
        (λ failed'. Kept-group_steps watches gs failed' ns)

  Kept-outcome_of : (failed : List EnturError) → Kept (outcome_of m p now failed)
  Kept-outcome_of [] = λ s h. h
  Kept-outcome_of (e ∷ failed) = λ s h. h

  kept-refresh :
      (fs : List Fence) (s : Run)
      → All Named (armed_watches now s.db)
      → Reached db0 ids s
      → Reached db0 ids (refresh m p now fs s).1
  unfolding refresh
  kept-refresh [] s ns h = h
  kept-refresh (f ∷ fs) s ns h =
      let watches = armed_watches now s.db in
      Keeps-bind (Reached db0 ids) counted
        (λ _. group_steps m p now watches gs [] >>= outcome_of m p now) (λ t k. k)
        (λ _.
          Keeps-bind (Reached db0 ids) (group_steps m p now watches gs []) (outcome_of m p now)
            (Kept-group_steps watches gs [] ns) Kept-outcome_of)
        s h
    where
      gs : List Group
      gs = group_fences m (f ∷ fs)

      counted : M (Unit {0})
      counted = modify_rep (λ r. record r { fences = length (f ∷ fs); queries = length gs })

named_self : (ws : List Watch) → All (λ w. contains (map (λ (v : Watch). v.id) ws) w.id ≡ true) ws
named_self [] = tt
named_self (w ∷ ws) =
    (ground (arith, eq_refl w.id), All-mono _ _ (λ v h. ground arith) ws (named_self ws))

-- Whatever the upstream answers and whatever fails, a tick does to the database what some sequence
-- of the store's calls does, and each watch that it reports as fired is one that `ArmedWatches`
-- returned when it began.
pub tick-run :
    (m : Math) (p : Poller) (now : ℕ) (s : Run)
    → let after = (tick m p now s).1 in
      ((calls : List Call) × (after.db ≡ run calls s.db))
      × All
          (λ id. contains (map (λ (w : Watch). w.id) (armed_watches now s.db)) id ≡ true)
          after.rep.fired
unfolding tick run
tick-run m p now s =
    let ids = map (λ (w : Watch). w.id) (armed_watches now s.db) in
    let same : armed_watches now (expire_watches now s.db).1 ≡ armed_watches now s.db =
      (expire_watches-live now s.db).1 in
    kept-refresh s.db ids m p now (fences (expire_watches now s.db).1)
      (record s {
        db = (expire_watches now s.db).1;
        rep = record (empty_report now) { expired = (expire_watches now s.db).0 };
      })
      (rw same (named_self (armed_watches now s.db))) ((expires now ∷ [], refl), tt)

-- A tick, failed or not, keeps the primary keys and the foreign keys of a database where they hold.
tick-HasLinks :
    (m : Math) (p : Poller) (now : ℕ) (s : Run)
    → HasKeys s.db
    → HasLinks s.db
    → HasKeys (tick m p now s).1.db × HasLinks (tick m p now s).1.db
tick-HasLinks m p now s k l =
    let ((calls, e), named) = tick-run m p now s in
    rw e (run-HasKeys calls s.db k, run-HasLinks calls s.db l)
