-- ===== src/Poll/Answered.antt =====
-- internal/poll/poll.go: how a `Tick` can fail, and that it reports a watch whose vehicle has come.
use mathlib.Core.List.{Memᴰ}
use scootless.Base.{
  Option, ℕ, ◌≡◌, Bool, true, false, String, List, [], ◌∷◌, ◌++◌, Bool-cases, inl, inr, Result, ok,
  err, All, All-mono, any, ◌==◌, string_eq, none,
}
use scootless.Base.Int.{pos}
use scootless.Float.{Float64, Math}
use scootless.Entur.Vehicles.{Vehicle}
use scootless.Store.Schema.{Fence, Watch, appearance}
use scootless.Store.Nearest.{dark_operators}
use scootless.Poll.Select.{within, outside, matches}
use scootless.Poll.Run.{
  Run, Poller, Notification, TickError, encoding, M, resume, ◌>>=◌, ◌>>◌, pure, modify_rep,
  for_each,
}
use scootless.Poll.Record.{record_fence, record_nearest}
use scootless.Poll.Evaluate.{evaluate, newcomers, is_empty}
use scootless.Poll.Tick.{fence_step, watch_step, note_fired}
use scootless.Poll.Leads.{Ends, Leads, Leads-bind, Leads-for_each, Leads-for_each_some, Leads-if}
use scootless.Poll.Recording.{Leads-record_fence, Leads-record_nearest}
use scootless.Poll.Aims.{IsWritable, Aim, awaited, reported}
use scootless.Poll.Noted.{Ready, Ready-frame, Noted, Excused, Noted-evaluate, Noted-evaluate_new}

within_sound :
    (Finite : Option Float64 → Type 0) (m : Math) (vs : List Vehicle) (f : Fence)
    → All (IsWritable Finite) vs
    → All (IsWritable Finite) (within m vs f)
unfolding within
within_sound Finite m [] f h = tt
within_sound Finite m (v ∷ vs) f (here, later) = elim (Bool-cases (outside m f v)) [
  | inl out ↦ rw out (within_sound Finite m vs f later)
  | inr inside ↦ rw inside (here, within_sound Finite m vs f later)
]

module _ (E : TickError → Type 0) (fs : List Fence) (m : Math) (p : Poller) (now : ℕ)
    (Finite : Option Float64 → Type 0)
    (codes : (n : Notification)
      → All (IsWritable Finite) n.vehicles
      → p.encode n ≡ none
      → E encoding) where
  -- A step that leads from one aim to another.
  abbrev pub Serves : {A : Type 0} → Aim → Aim → M A → Type 0
  Serves aim next = Leads E (Ready E fs aim) (Ready E fs next)

  Ends-note_fired :
      (aim : Aim) (w : Watch) (r : Result TickError Bool × Run)
      → Noted E fs aim w r
      → Ends E (Ready E fs aim) (resume (note_fired m p now w) r)
  Ends-note_fired aim w (ok true, s) h = h
  Ends-note_fired aim w (ok false, s) h = h
  Ends-note_fired aim w (err e, s) h = h

  module _ (f : Fence) (inside : List Vehicle) (dark : List String)
      (sound : All (IsWritable Finite) inside) where
    Serves-watch_step :
        (aim : Aim) (w : Watch)
        → Excused E fs p now Finite codes w
        → Serves aim aim (watch_step m p now f inside dark w)
    Serves-watch_step aim w kinds =
        Leads-if E (Ready E fs aim) (Ready E fs aim) (w.fence_id == f.id)
          (evaluate p w f now inside dark >>= note_fired m p now w) (pure tt)
          (λ s h.
            Ends-note_fired aim w (evaluate p w f now inside dark s)
              (Noted-evaluate E fs p now Finite codes w f inside dark s sound aim kinds h))
          λ s h. h

    Serves-watch_step_new :
        (w : Watch)
        → (w.fence_id == f.id) ≡ true
        → w.kind ≡ appearance
        → is_empty (newcomers w (matches inside w)) ≡ false
        → Serves (awaited w.id) (reported w.id) (watch_step m p now f inside dark w)
    Serves-watch_step_new w here kind new s h = rw here (
        Ends-note_fired (reported w.id) w (evaluate p w f now inside dark s)
          (Noted-evaluate_new E fs p now Finite codes w f inside dark s sound kind new h))

  -- The fence is in the database.
  abbrev pub Known : Fence → Type 0
  Known f = any (λ (g : Fence). g.id == f.id) fs ≡ true

  module _ (watches : List Watch) (vehicles : List Vehicle) where
    -- The records of a fence keep what is asked, so that its watches decide.
    Serves-watches :
        (aim next : Aim) (f : Fence)
        → Known f
        → ((dark : List String)
            → Serves aim next (for_each (watch_step m p now f (within m vehicles f) dark) watches))
        → Serves aim next (fence_step m p now watches vehicles f)
    unfolding fence_step
    Serves-watches aim next f known each =
        Leads-bind E (Ready E fs aim) (Ready E fs aim) (Ready E fs next)
          (record_fence p f now inside) (λ _. record_nearest m p f now inside >> evaluated)
          (Leads-record_fence E (Ready E fs aim) p f now inside linked (Ready-frame E fs aim))
          λ _.
            Leads-bind E (Ready E fs aim) (Ready E fs aim) (Ready E fs next)
              (record_nearest m p f now inside) (λ _. evaluated)
              (Leads-record_nearest E (Ready E fs aim) p f now inside linked (Ready-frame E fs aim)
                m)
              λ _ s h.
                each (dark_operators f.id now (pos 0) s.db)
                  (record s {
                    rep = record s.rep {
                      dark = s.rep.dark ++ dark_operators f.id now (pos 0) s.db;
                    };
                  })
                  h
      where
        inside : List Vehicle
        inside = within m vehicles f

        evaluated : M (Unit {0})
        evaluated s =
            (modify_rep (λ r. record r { dark = r.dark ++ dark_operators f.id now (pos 0) s.db })
                >> for_each (watch_step m p now f inside (dark_operators f.id now (pos 0) s.db))
                    watches)
              s

        linked : (s : Run) → Ready E fs aim s → any (λ (g : Fence). g.id == f.id) s.db.fences ≡ true
        linked s h = rw h.0 known

    module _ (kinds : All (Excused E fs p now Finite codes) watches)
        (sound : All (IsWritable Finite) vehicles) where
      Serves-each :
          (aim : Aim) (f : Fence) (dark : List String)
          → All (λ w. Serves aim aim (watch_step m p now f (within m vehicles f) dark w)) watches
      Serves-each aim f dark =
          All-mono (Excused E fs p now Finite codes)
            (λ w. Serves aim aim (watch_step m p now f (within m vehicles f) dark w))
            (Serves-watch_step f (within m vehicles f) dark (within_sound Finite m vehicles f sound)
              aim)
            watches kinds

      pub Serves-fence_step :
          (aim : Aim) (f : Fence) → Known f → Serves aim aim (fence_step m p now watches vehicles f)
      Serves-fence_step aim f known = Serves-watches aim aim f known λ dark.
          Leads-for_each E (Ready E fs aim) (watch_step m p now f (within m vehicles f) dark)
            watches (Serves-each aim f dark)

      pub Serves-fence_step_new :
          (w : Watch) (f : Fence)
          → Known f
          → Memᴰ w watches
          → (w.fence_id == f.id) ≡ true
          → w.kind ≡ appearance
          → is_empty (newcomers w (matches (within m vehicles f) w)) ≡ false
          → Serves (awaited w.id) (reported w.id) (fence_step m p now watches vehicles f)
      Serves-fence_step_new w f known there here kind new =
          Serves-watches (awaited w.id) (reported w.id) f known λ dark.
            Leads-for_each_some E (Ready E fs (awaited w.id)) (Ready E fs (reported w.id))
              (watch_step m p now f (within m vehicles f) dark) w watches there
              (Serves-each (awaited w.id) f dark) (Serves-each (reported w.id) f dark)
              (Serves-watch_step_new f (within m vehicles f) dark
                (within_sound Finite m vehicles f sound) w here kind new)
