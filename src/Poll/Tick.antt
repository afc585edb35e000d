-- ===== src/Poll/Tick.antt =====
-- internal/poll/poll.go: `Tick`, one full pass. The groups are fetched at once and are worked on in
-- order, so the fetches are a function from queries to results.
use scootless.Base.{
  ℕ, Bool, true, false, ◌||◌, String, List, [], ◌∷◌, ◌++◌, Result, ok, err, ◌==◌, string_eq, length,
  if◌then◌else◌,
}
use scootless.Base.Int.{pos}
use scootless.Float.{Math}
use scootless.Entur.Operators.{EnturError}
use scootless.Entur.Vehicles.{Vehicle, Query, Fetched}
use scootless.Store.Schema.{Db, Fence, Watch}
use scootless.Store.Fences.{fences}
use scootless.Store.Watches.{expire_watches, armed_watches}
use scootless.Store.Nearest.{dark_operators}
use scootless.Poll.Select.{Group, within, group_fences}
use scootless.Poll.Run.{
  Run, Poller, TickError, upstream, M, ◌>>=◌, ◌>>◌, pure, throw, get, modify_rep, for_each,
  empty_report,
}
use scootless.Poll.Record.{record_fence, record_nearest}
use scootless.Poll.Evaluate.{evaluate}

module _ (m : Math) (p : Poller) (now : ℕ) where
  -- `rep.Fired = append(rep.Fired, w.ID)`
  abbrev pub note_fired : Watch → Bool → M (Unit {0})
  note_fired w true = modify_rep (λ r. record r { fired = r.fired ++ (w.id ∷ []) })
  note_fired w false = pure tt

  -- One watch of the innermost loop.
  abbrev pub watch_step : Fence → List Vehicle → List String → Watch → M (Unit {0})
  watch_step f inside dark w =
      if w.fence_id == f.id then evaluate p w f now inside dark >>= note_fired w else pure tt

  -- The body of the loop over the fences of a group.
  unfoldable pub fence_step : List Watch → List Vehicle → Fence → M (Unit {0})
  unfolding within record_fence record_nearest dark_operators for_each evaluate
  fence_step watches vehicles f = do
    record_fence p f now (within m vehicles f)
    record_nearest m p f now (within m vehicles f)
    s ← get
    modify_rep (λ r. record r { dark = r.dark ++ dark_operators f.id now (pos 0) s.db })
    for_each (watch_step f (within m vehicles f) (dark_operators f.id now (pos 0) s.db)) watches

  abbrev pub group_query : Group → Query
  group_query g = record {
    at = g.at;
    radius_m = g.radius_m;
    operator_keys = [];
    min_range_m = pos 0;
    form_factors = [];
    include_unrentable = false;
    limit = pos 0;
  }

  abbrev pub group_done : List Watch → Group → Fetched → M (Unit {0})
  group_done watches g res =
      modify_rep (λ r. record r { truncated = r.truncated || res.truncated })
      >> for_each (fence_step watches res.vehicles) g.fences

  abbrev pub group_step :
      List Watch → Group → Result EnturError Fetched → List EnturError → M (List EnturError)
  group_step watches g (err e) failed = pure (failed ++ (e ∷ []))
  group_step watches g (ok res) failed = group_done watches g res >>= λ _. pure failed

  -- The loop over the groups, with the failures so far.
  unfoldable pub group_steps : List Watch → List Group → List EnturError → M (List EnturError)
  unfolding fence_step for_each
  group_steps watches [] failed = pure failed
  group_steps watches (g ∷ gs) failed =
      group_step watches g (p.fetch (group_query g)) failed >>= group_steps watches gs

  abbrev pub outcome_of : List EnturError → M (Unit {0})
  outcome_of [] = pure tt
  outcome_of (e ∷ failed) = throw (upstream (e ∷ failed))

  -- `Tick` after the watches have been expired.
  unfoldable pub refresh : List Fence → M (Unit {0})
  unfolding group_fences armed_watches group_steps
  refresh [] = pure tt
  refresh (f ∷ fs) = do
    s ← get
    modify_rep
        (λ r. record r { fences = length (f ∷ fs); queries = length (group_fences m (f ∷ fs)) })
    failed ← group_steps (armed_watches now s.db) (group_fences m (f ∷ fs)) []
    outcome_of failed

  -- `Tick`, on the database, the memory of the nearest lookups and the deliveries before it.
  unfoldable pub tick : M (Unit {0})
  unfolding expire_watches fences refresh
  tick s = do_expired (expire_watches now s.db)
    where
      do_expired : ℕ × Db → Result TickError (Unit {0}) × Run
      do_expired (n, db) =
          refresh (fences db)
            (record s { db = db; rep = record (empty_report now) { expired = n } })
