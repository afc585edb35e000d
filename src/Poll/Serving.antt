-- ===== src/Poll/Serving.antt =====
-- internal/poll/poll.go: the groups of a `Tick`, seen from a watch whose vehicle has come.
use mathlib.Core.List.{Memᴰ}
use mathlib.Core.List.Memᴰ
use scootless.Base.{
  Option, ℕ, ◌≡◌, refl, sym, true, false, List, [], ◌∷◌, none, Result, ok, err, All, All-at,
  All-mono, ◌==◌, string_eq, ◌||◌,
}
use scootless.Float.{Float64, Math}
use scootless.Entur.Operators.{EnturError}
use scootless.Entur.Vehicles.{Query, Fetched}
use scootless.Store.Schema.{Fence, Watch, appearance}
use scootless.Poll.Select.{Group, within, matches}
use scootless.Poll.Run.{Poller, Notification, TickError, encoding, M, pure}
use scootless.Poll.Evaluate.{newcomers, is_empty}
use scootless.Poll.Tick.{fence_step, group_steps, group_step, group_done, group_query}
use scootless.Poll.Leads.{Leads-bind, Leads-for_each, Leads-for_each_some}
use scootless.Poll.Aims.{IsWritable, Aim, awaited, reported}
use scootless.Poll.Noted.{Ready, Excused}
use scootless.Poll.Answered.{Serves, Known, Serves-fence_step, Serves-fence_step_new}

module _ (E : TickError → Type 0) (fs : List Fence) (m : Math) (p : Poller) (now : ℕ)
    (Finite : Option Float64 → Type 0)
    (codes : (n : Notification)
      → All (IsWritable Finite) n.vehicles
      → p.encode n ≡ none
      → E encoding)
    (watches : List Watch) (kinds : All (Excused E fs p now Finite codes) watches)
    (answers : (q : Query) (res : Fetched)
      → p.fetch q ≡ ok res
      → All (IsWritable Finite) res.vehicles) where
  abbrev Stored : Group → Type 0
  Stored g = All (Known E fs m p now Finite codes) g.fences

  abbrev Aims : {A : Type 0} → Aim → Aim → M A → Type 0
  Aims = Serves E fs m p now Finite codes

  Serves-group_step :
      (aim : Aim) (g : Group) (r : Result EnturError Fetched) (failed : List EnturError)
      → p.fetch (group_query m p now g) ≡ r
      → Stored g
      → Aims aim aim (group_step m p now watches g r failed)
  Serves-group_step aim g (err e) failed asked known = λ s h. h
  Serves-group_step aim g (ok res) failed asked known =
      Leads-bind E (Ready E fs aim) (Ready E fs aim) (Ready E fs aim)
        (group_done m p now watches g res) (λ _. pure failed)
        (λ s h.
          Leads-for_each E (Ready E fs aim) (fence_step m p now watches res.vehicles) g.fences
            (All-mono (Known E fs m p now Finite codes) _
              (Serves-fence_step E fs m p now Finite codes watches res.vehicles kinds
                (answers _ res asked) aim)
              g.fences known)
            (record s { rep = record s.rep { truncated = s.rep.truncated || res.truncated } }) h)
        λ _ s h. h

  pub Serves-group_steps :
      (aim : Aim) (gs : List Group) (failed : List EnturError)
      → All Stored gs
      → Aims aim aim (group_steps m p now watches gs failed)
  unfolding group_steps
  Serves-group_steps aim [] failed known = λ s h. h
  Serves-group_steps aim (g ∷ gs) failed known =
      Leads-bind E (Ready E fs aim) (Ready E fs aim) (Ready E fs aim)
        (group_step m p now watches g (p.fetch (group_query m p now g)) failed)
        (group_steps m p now watches gs)
        (Serves-group_step aim g (p.fetch (group_query m p now g)) failed refl known.0)
        (λ failed'. Serves-group_steps aim gs failed' known.1)

  -- The group of a fence is answered, and the watch has a newcomer there.
  module _ (w : Watch) (f : Fence) (g : Group) (res : Fetched) (there : Memᴰ w watches)
      (here : (w.fence_id == f.id) ≡ true) (kind : w.kind ≡ appearance)
      (served_by : Memᴰ f g.fences) (up : p.fetch (group_query m p now g) ≡ ok res)
      (new : is_empty (newcomers w (matches (within m res.vehicles f) w)) ≡ false) where
    Serves-group_done :
        Stored g → Aims (awaited w.id) (reported w.id) (group_done m p now watches g res)
    Serves-group_done known s h =
        Leads-for_each_some E (Ready E fs (awaited w.id)) (Ready E fs (reported w.id))
          (fence_step m p now watches res.vehicles) f g.fences served_by (each (awaited w.id))
          (each (reported w.id))
          (Serves-fence_step_new E fs m p now Finite codes watches res.vehicles kinds
            (answers _ res up) w f
            (All-at (Known E fs m p now Finite codes) f g.fences served_by known) there here kind
            new)
          (record s { rep = record s.rep { truncated = s.rep.truncated || res.truncated } }) h
      where
        each :
            (aim : Aim)
            → All (λ f. Aims aim aim (fence_step m p now watches res.vehicles f)) g.fences
        each aim =
            All-mono (Known E fs m p now Finite codes) _
              (Serves-fence_step E fs m p now Finite codes watches res.vehicles kinds
                (answers _ res up) aim)
              g.fences known

    pub Serves-group_steps_new :
        (gs : List Group) (failed : List EnturError)
        → Memᴰ g gs
        → All Stored gs
        → Aims (awaited w.id) (reported w.id) (group_steps m p now watches gs failed)
    unfolding group_steps
    Serves-group_steps_new [] failed at known = absurd (Memᴰ.not-nil at)
    Serves-group_steps_new (x ∷ gs) failed (Memᴰ.head e) known =
        Leads-bind E (Ready E fs (awaited w.id)) (Ready E fs (reported w.id))
          (Ready E fs (reported w.id))
          (group_step m p now watches x (p.fetch (group_query m p now x)) failed)
          (group_steps m p now watches gs)
          (rw (sym e, up)
            (Leads-bind E (Ready E fs (awaited w.id)) (Ready E fs (reported w.id))
              (Ready E fs (reported w.id)) (group_done m p now watches g res) (λ _. pure failed)
              (Serves-group_done (rw e known.0)) λ _ s h. h))
          (λ failed'. Serves-group_steps (reported w.id) gs failed' known.1)
    Serves-group_steps_new (x ∷ gs) failed (Memᴰ.tail at) known =
        Leads-bind E (Ready E fs (awaited w.id)) (Ready E fs (awaited w.id))
          (Ready E fs (reported w.id))
          (group_step m p now watches x (p.fetch (group_query m p now x)) failed)
          (group_steps m p now watches gs)
          (Serves-group_step (awaited w.id) x (p.fetch (group_query m p now x)) failed refl known.0)
          (λ failed'. Serves-group_steps_new gs failed' at known.1)
