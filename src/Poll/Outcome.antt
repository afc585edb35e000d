-- ===== src/Poll/Outcome.antt =====
-- internal/poll/poll.go: how a `Tick` ends, and that it reports a watch whose vehicle has come.
use mathlib.Core.List.{Memᴰ}
use scootless.Base.{
  All-of, ℕ, ◌≡◌, ◌≢◌, refl, sym, true, List, [], ◌∷◌, none, Result, ok, err, All, All-self,
  All-of_append, All-mono, All-map, All-keep_both, any, eq_refl, arith, length, ◌==◌, string_eq,
}
use scootless.Base.Order.{All-sort}
use scootless.Float.{Math}
use scootless.Entur.Operators.{EnturError}
use scootless.Store.Schema.{Db, Fence, Watch, WatchRow, unknown_kind, is_armed}
use scootless.Store.Fences.{fences}
use scootless.Store.Watches.{expire_watches, armed_watches, can_fire, is_live}
use scootless.Store.Lifetime.{expire_watches-live}
use scootless.Poll.Select.{Group, group_fences}
use scootless.Poll.Selection.{served, group_fences-serves}
use scootless.Poll.Run.{
  Run, Poller, Notification, TickError, upstream, store_failed, bad_kind, encoding, resume,
  empty_report,
}
use scootless.Poll.Tick.{group_steps, refresh, tick, outcome_of}
use scootless.Poll.Groups.{failures, instead, group_steps-answered}
use scootless.Poll.Leads.{Ends}
use scootless.Poll.Aims.{free}
use scootless.Poll.Noted.{Ready}
use scootless.Poll.Serving.{Serves-group_steps}

-- An armed watch is one that can fire.
pub armed-can_fire :
    (now : ℕ) (db : Db)
    → All (λ (w : Watch). any (can_fire w.id) db.watches ≡ true) (armed_watches now db)
unfolding armed_watches
armed-can_fire now db = All-map _ _ _ (
    All-sort _ _ _ (
      All-keep_both _ _ (is_live now) (λ r live here. here (ground arith)) db.watches
        (each db.watches)))
  where
    each :
        (rows : List WatchRow)
        → All (λ r. is_armed r.state ≡ true → any (can_fire r.id) rows ≡ true) rows
    each [] = tt
    each (r ∷ rows) = (
      λ h. ground (arith, eq_refl r.id),
      All-mono _ _ (λ s k h. ground (arith, k h)) rows (each rows),
    )

-- Every fence that `Fences` returns is in the database.
fences-stored :
    (db : Db) → All (λ (f : Fence). any (λ (g : Fence). g.id == f.id) db.fences ≡ true) (fences db)
unfolding fences
fences-stored db = All-sort _ _ _ (each db.fences)
  where
    each : (fs : List Fence) → All (λ (f : Fence). any (λ (g : Fence). g.id == f.id) fs ≡ true) fs
    each [] = tt
    each (f ∷ fs) = (ground (arith, eq_refl f.id), All-mono _ _ (λ g h. ground arith) fs (each fs))

All-served :
    (P : Fence → Type 0) (gs : List Group)
    → All P (served gs)
    → All (λ (g : Group). All P g.fences) gs
All-served P [] a = tt
All-served P (g ∷ gs) a =
    let (l, r) = All-of_append P g.fences (served gs) a in (l, All-served P gs r)

-- The groups of a tick serve fences that the database has.
pub groups-stored :
    (m : Math) (db : Db)
    → All
        (λ (g : Group).
          All (λ (f : Fence). any (λ (h : Fence). h.id == f.id) db.fences ≡ true) g.fences)
        (group_fences m (fences db))
groups-stored m db =
    All-served _ (group_fences m (fences db))
      (rw (group_fences-serves m (fences db)).0 (fences-stored db))

module _ (m : Math) (p : Poller) (now : ℕ) where
  -- What the ending of a tick tells of its watches and groups.
  abbrev pub Explained : List Watch → List Group → Result TickError (Unit {0}) → Type 0
  Explained watches gs (ok t) = failures m p now watches gs ≡ []
  Explained watches gs (err (upstream es)) = (es ≡ failures m p now watches gs) × (es ≢ [])
  Explained watches gs (err (store_failed e)) = ⊥
  Explained watches gs (err (bad_kind k)) = (w : Watch) × Memᴰ w watches × (w.kind ≡ unknown_kind k)
  Explained watches gs (err encoding) = (n : Notification) × (p.encode n ≡ none)

  -- A loop over the groups that ends well returns the failures.
  abbrev Returns : List EnturError → Result TickError (List EnturError) × Run → Type 0
  Returns failed (ok es, s) = es ≡ failed
  Returns failed (err e, s) = Unit

  Returns-instead :
      (watches : List Watch) (failed : List EnturError)
      (r : Result TickError (List EnturError) × Run)
      → Returns failed (instead m p now watches failed r)
  Returns-instead watches failed (ok es, s) = refl
  Returns-instead watches failed (err e, s) = tt

  Returns-group_steps :
      (watches : List Watch) (gs : List Group) (s : Run)
      → Returns (failures m p now watches gs) (group_steps m p now watches gs [] s)
  Returns-group_steps watches gs s =
      rw (group_steps-answered m p now watches gs s) (Returns-instead watches _ _)

  Explained-outcome_of :
      (watches : List Watch) (gs : List Group) (Q : Run → Type 0)
      (r : Result TickError (List EnturError) × Run)
      → Ends (λ e. Explained watches gs (err e)) Q r
      → Returns (failures m p now watches gs) r
      → Explained watches gs (resume (outcome_of m p now) r).0
  Explained-outcome_of watches gs Q (ok [], s) h v = sym v
  Explained-outcome_of watches gs Q (ok (e ∷ es), s) h v = (v, λ none_left. cc)
  Explained-outcome_of watches gs Q (err e, s) h v = h

  abbrev pub counted : List Fence → Run → Run
  counted fs s = record s {
    rep = record s.rep { fences = length fs; queries = length (group_fences m fs) };
  }

  Explained-refresh :
      (watches : List Watch) (fs : List Fence) (s : Run)
      → armed_watches now s.db ≡ watches
      → All
          (λ (g : Group).
            All (λ (f : Fence). any (λ (h : Fence). h.id == f.id) s.db.fences ≡ true) g.fences)
          (group_fences m fs)
      → Explained watches (group_fences m fs) (refresh m p now fs s).0
  unfolding refresh group_fences
  Explained-refresh watches [] s same stored = refl
  Explained-refresh watches (f ∷ fs) s same stored =
      let gs = group_fences m (f ∷ fs) in
      let E : TickError → Type 0 = λ e. Explained watches gs (err e) in
      rw same (
        Explained-outcome_of watches gs (Ready E s.db.fences free)
          (group_steps m p now watches gs [] (counted (f ∷ fs) s))
          (Serves-group_steps E s.db.fences m p now (λ _. Unit) (λ n sound e. (n, e)) watches
            (All-mono _ _ (λ w there k e. (w, there, e)) watches (All-self watches))
            (λ q res e. All-of (λ _. Unit) (λ _. tt) res.vehicles) free gs [] stored
            (counted (f ∷ fs) s) (refl, tt))
          (Returns-group_steps watches gs (counted (f ∷ fs) s)))

-- A tick ends well where every query was answered. It returns all the queries' failures, in order,
-- where there are some, and otherwise fails only for a notification that cannot be encoded or an
-- armed watch of an unknown kind: no statement of its own is refused by the database.
pub tick-Explained :
    (m : Math) (p : Poller) (now : ℕ) (s : Run)
    → Explained m p now (armed_watches now s.db) (group_fences m (fences s.db)) (tick m p now s).0
unfolding tick expire_watches fences
tick-Explained m p now s =
    let db = (expire_watches now s.db).1 in
    Explained-refresh m p now (armed_watches now s.db) (fences db)
      (record s {
        db = db;
        rep = record (empty_report now) { expired = (expire_watches now s.db).0 };
      })
      (expire_watches-live now s.db).1 (groups-stored m db)
