-- ===== src/Poll/Groups.antt =====
-- internal/poll/poll.go: a query that fails does not cost the other groups their data.
use scootless.Base.{
  ◌≡◌, refl, List, [], ◌∷◌, ◌++◌, Result, ok, err, is_ok, keep, Bool, Result-cases, inl, inr, ◌∙◌,
  ap, sym, if◌then◌else◌,
}
use mathlib.Core.List.{append_assoc, append-nil}
use scootless.Base.{ℕ}
use scootless.Float.{Math}
use scootless.Entur.Operators.{EnturError}
use scootless.Entur.Vehicles.{Fetched}
use scootless.Store.Schema.{Watch}
use scootless.Poll.Select.{Group}
use scootless.Poll.Run.{Run, Poller, TickError, M, resume, pure}
use scootless.Poll.Tick.{group_query, group_done, group_step, group_steps}

module _ (m : Math) (p : Poller) (now : ℕ) (watches : List Watch) where
  -- The upstream answers the group's query.
  abbrev pub answered : Group → Bool
  answered g = is_ok (p.fetch (group_query m p now g))

  abbrev error_of : {A : Type 0} → Result EnturError A → List EnturError
  error_of (ok a) = []
  error_of (err e) = e ∷ []

  -- The failures of the groups, in order.
  abbrev pub failures : List Group → List EnturError
  failures [] = []
  failures (g ∷ gs) = error_of (p.fetch (group_query m p now g)) ++ failures gs

  -- What is left of a run over groups: its state, and the failures instead of its value.
  abbrev pub instead :
      List EnturError
      → Result TickError (List EnturError) × Run
      → Result TickError (List EnturError) × Run
  instead failed = resume λ _. pure failed

  after_group :
      (all failed : List EnturError) (rest kept : List EnturError → M (List EnturError))
      → ((s : Run) → rest failed s ≡ instead all (kept [] s))
      → (r : Result TickError (Unit {0}) × Run)
      → resume rest (resume (λ _. pure failed) r)
        ≡ instead all (resume kept (resume (λ _. pure []) r))
  after_group all failed rest kept same (ok t, s) = same s
  after_group all failed rest kept same (err e, s) = refl

  steps-up :
      (gs : List Group) (g : Group) (res : Fetched) (failed : List EnturError) (s : Run)
      → p.fetch (group_query m p now g) ≡ ok res
      → group_steps m p now watches (g ∷ gs) failed s
        ≡ resume
            (group_steps m p now watches gs)
            (resume (λ _. pure failed) (group_done m p now watches g res s))
  unfolding group_steps
  steps-up gs g res failed s up =
      ap (λ r. resume (group_steps m p now watches gs) (group_step m p now watches g r failed s)) up

  isolated_from :
      (gs : List Group) (failed : List EnturError) (s : Run)
      → group_steps m p now watches gs failed s
        ≡ instead (failed ++ failures gs) (group_steps m p now watches (keep answered gs) [] s)
  unfolding group_steps
  isolated_from [] failed s = ap (λ l. (ok l, s)) (sym (append-nil failed))
  isolated_from (g ∷ gs) failed s = elim (Result-cases (p.fetch (group_query m p now g))) [
    | inl (e, down) ↦
        rw (down, group_steps)
          (isolated_from gs (failed ++ e ∷ []) s
            ∙ ap (λ l. instead l (group_steps m p now watches (keep answered gs) [] s))
                (append_assoc failed (e ∷ []) (failures gs)))
    | inr (res, up) ↦
        steps-up gs g res failed s up
        ∙ after_group (failed ++ failures gs) failed (group_steps m p now watches gs)
            (group_steps m p now watches (keep answered gs)) (isolated_from gs failed)
            (group_done m p now watches g res s)
        ∙ ap
            (λ l. instead (failed ++ l) (
              resume (group_steps m p now watches (keep answered gs))
                (resume (λ _. pure []) (group_done m p now watches g res s))))
            (sym (ap (λ r. error_of r ++ failures gs) up))
        ∙ ap (instead (failed ++ failures (g ∷ gs))) (
            sym (
              ap
                (λ b.
                  group_steps m p now watches (if b then g ∷ keep answered gs else keep answered gs)
                    [] s)
                (ap is_ok up)
              ∙ steps-up (keep answered gs) g res [] s up))
  ]

  -- The groups whose query failed do not count: the loop does to the database, the report and the
  -- deliveries what it does for the groups that were answered alone, and it returns the failures.
  pub group_steps-answered :
      (gs : List Group) (s : Run)
      → group_steps m p now watches gs [] s
        ≡ instead (failures gs) (group_steps m p now watches (keep answered gs) [] s)
  group_steps-answered gs s = isolated_from gs [] s
