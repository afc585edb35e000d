-- ===== src/Poll/Noted.antt =====
-- internal/poll/poll.go: `evaluate` of one watch, seen from a watch that is awaited or that was
-- reported.
use scootless.Base.{
  ℕ, ◌≡◌, refl, sym, ◌∙◌, All, All-keep, not, ◌&&◌, Bool, true, false, String, List, [], ◌∷◌, ◌++◌,
  Option, none, some, Result, ok, err, any, contains, string_eq, arith, Bool-cases, inl, inr,
  if◌then◌else◌,
}
use scootless.Base.Table.{update_where}
use scootless.Float.{Float64}
use scootless.Entur.Vehicles.{Vehicle}
use scootless.Store.Schema.{
  Db, Fence, Watch, WatchRow, Kind, appearance, scarcity, unknown_kind, has_watch, may_refer_watch,
}
use scootless.Store.Watches.{can_fire, fire_row, has_id, mark_fired, record_event}
use scootless.Poll.Select.{matches}
use scootless.Poll.Firing.{counts_for, matches-keep, newcomers-keep}
use scootless.Poll.Run.{
  Run, Poller, Notification, TickError, bad_kind, encoding, resume, pure, modify,
}
use scootless.Poll.Evaluate.{
  evaluate, notification, verdict, newcomers, is_empty, fire, act_on, announce,
}
use scootless.Poll.Aims.{
  IsWritable, Aim, awaited, reported, Met, Met-fired, has_watch-fired, contains-snoc,
}

verdict-new :
    (w : Watch) (matching : List Vehicle) (dark : List String)
    → w.kind ≡ appearance
    → is_empty (newcomers w matching) ≡ false
    → verdict w matching dark ≡ ok (some (newcomers w matching))
unfolding verdict
verdict-new w matching dark kind new = ground arith

record_event-ok :
    (id : String) (now : ℕ) (payload : String) (db : Db)
    → has_watch db id ≡ true
    → (new : Db) × (record_event id now payload db ≡ ok new)
      × (new.fences ≡ db.fences)
      × (new.watches ≡ db.watches)
unfolding record_event
record_event-ok id now payload db h =
    let known : may_refer_watch db id ≡ true = ground arith in rw known (_, refl, refl, refl)

unknown-of_verdict :
    (w : Watch) (matching : List Vehicle) (dark : List String) (k : String)
    → verdict w matching dark ≡ err k
    → w.kind ≡ unknown_kind k
unfolding verdict
unknown-of_verdict w matching dark k e = go w.kind refl
  where
    go : (kind : Kind) → w.kind ≡ kind → w.kind ≡ unknown_kind k
    go appearance same = ground arith
    go scarcity same = ground arith
    go (unknown_kind j) same = ground arith

module _ (Sound : Vehicle → Type 0) (w : Watch) (inside : List Vehicle) where
  matches_sound : All Sound inside → All Sound (matches inside w)
  matches_sound sound = rw (matches-keep inside w) (All-keep Sound (counts_for w) inside sound)

  newcomers_sound : All Sound inside → All Sound (newcomers w (matches inside w))
  newcomers_sound sound =
      rw (matches-keep inside w, newcomers-keep w inside)
        (All-keep Sound (λ v. counts_for w v && not (contains w.baseline v.id)) inside sound)

  -- A notification is about vehicles that are inside.
  hit_sound :
      (dark : List String) (hit : List Vehicle)
      → All Sound inside
      → verdict w (matches inside w) dark ≡ ok (some hit)
      → All Sound hit
  unfolding verdict
  hit_sound dark hit sound e = go w.kind refl
    where
      go : (kind : Kind) → w.kind ≡ kind → All Sound hit
      go appearance same =
          let shape : newcomers w (matches inside w) ≡ hit = ground arith in
          rw (sym shape) (newcomers_sound sound)
      go scarcity same =
          let shape : matches inside w ≡ hit = ground arith in rw (sym shape) (matches_sound sound)
      go (unknown_kind j) same = absurd (ground arith)

module _ (E : TickError → Type 0) (fs : List Fence) where
  abbrev pub Ready : Aim → Run → Type 0
  Ready aim s = (s.db.fences ≡ fs) × Met aim s.db.watches s.rep.fired

  pub Ready-frame :
      (aim : Aim) (s t : Run)
      → t.db.fences ≡ s.db.fences
      → t.db.watches ≡ s.db.watches
      → t.rep.fired ≡ s.rep.fired
      → Ready aim s
      → Ready aim t
  Ready-frame aim s t f w r h = (f ∙ h.0, rw (w, r) h.1)

  -- After `evaluate`: ready once the report has the watch, where it fired.
  abbrev pub Noted : Aim → Watch → Result TickError Bool × Run → Type 0
  Noted aim w (ok true, s) = (s.db.fences ≡ fs) × Met aim s.db.watches (s.rep.fired ++ w.id ∷ [])
  Noted aim w (ok false, s) = Ready aim s
  Noted aim w (err e, s) = E e

  module _ (p : Poller) (now : ℕ) (Finite : Option Float64 → Type 0)
      (codes : (n : Notification)
        → All (IsWritable Finite) n.vehicles
        → p.encode n ≡ none
        → E encoding) where
    Noted-announce :
        (aim : Aim) (w : Watch) (f : Fence) (n : Notification) (o : Option String) (s : Run)
        → p.encode n ≡ o
        → All (IsWritable Finite) n.vehicles
        → any (has_id w.id) s.db.watches ≡ true
        → (s.db.fences ≡ fs) × Met aim s.db.watches (s.rep.fired ++ w.id ∷ [])
        → Noted aim w (announce p w f now n o s)
    Noted-announce aim w f n none s e sound known h = codes n sound e
    Noted-announce aim w f n (some payload) s e sound known h =
        let (new, done, fences, watches) = record_event-ok w.id now payload s.db known in
        rw done (dispatched p.has_sink (record s { db = new }) (fences ∙ h.0, rw watches h.1))
      where
        dispatched :
            (b : Bool) (t : Run)
            → Noted aim w (ok true, t)
            → Noted aim w (
                resume
                  (λ _. pure true)
                  ((if b
                      then modify (λ s. record s { deliveries = s.deliveries ++ (n ∷ []) })
                      else pure tt)
                    t))
        dispatched true t k = k
        dispatched false t k = k

    -- `fire` by whether the watch can still fire.
    Noted-fire :
        (aim : Aim) (w : Watch) (f : Fence) (matching hit : List Vehicle) (s : Run)
        → s.db.fences ≡ fs
        → All (IsWritable Finite) hit
        → (any (can_fire w.id) s.db.watches ≡ false → Met aim s.db.watches s.rep.fired)
        → (any (can_fire w.id) s.db.watches ≡ true
            → Met aim
                (update_where (can_fire w.id) (fire_row now) s.db.watches)
                (s.rep.fired ++ w.id ∷ []))
        → Noted aim w (fire p w f now matching hit s)
    unfolding fire mark_fired
    Noted-fire aim w f matching hit s same sound lost won =
        elim (Bool-cases (any (can_fire w.id) s.db.watches)) [
          | inl e ↦ rw e (
              Noted-announce aim w f note (p.encode note)
                (record s { db = record s.db { watches = after } }) refl sound
                (has_watch-fired w.id now s.db.watches e) (same, won e))
          | inr e ↦ rw e (same, lost e)
        ]
      where
        note : Notification
        note = notification p w f now matching hit

        after : List WatchRow
        after = update_where (can_fire w.id) (fire_row now) s.db.watches

    -- The watch's kind is known, or the error that it makes is one that is allowed.
    abbrev pub Excused : Watch → Type 0
    Excused w = (k : String) → w.kind ≡ unknown_kind k → E (bad_kind k)

    module _ (w : Watch) (f : Fence) (inside : List Vehicle) (dark : List String) (s : Run)
        (sound : All (IsWritable Finite) inside) where
      pub Noted-evaluate :
          (aim : Aim) → Excused w → Ready aim s → Noted aim w (evaluate p w f now inside dark s)
      unfolding evaluate
      Noted-evaluate aim kinds h = acted (verdict w (matches inside w) dark) refl
        where
          acted :
              (r : Result String (Option (List Vehicle)))
              → verdict w (matches inside w) dark ≡ r
              → Noted aim w (act_on p w f now (matches inside w) r s)
          acted (err k) e = kinds k (unknown-of_verdict w (matches inside w) dark k e)
          acted (ok none) e = h
          acted (ok (some hit)) e =
              Noted-fire aim w f (matches inside w) hit s h.0
                (hit_sound (IsWritable Finite) w inside dark hit sound e) (λ _. h.1)
                λ _. Met-fired aim w.id now s.db.watches s.rep.fired h.1

      -- An awaited watch with a newcomer is reported.
      pub Noted-evaluate_new :
          w.kind ≡ appearance
          → is_empty (newcomers w (matches inside w)) ≡ false
          → Ready (awaited w.id) s
          → Noted (reported w.id) w (evaluate p w f now inside dark s)
      unfolding evaluate
      Noted-evaluate_new kind new (same, h) = rw (verdict-new w (matches inside w) dark kind new) (
          Noted-fire (reported w.id) w f (matches inside w) (newcomers w (matches inside w)) s same
            (newcomers_sound (IsWritable Finite) w inside sound) (λ e. still e h)
            λ _. contains-snoc s.rep.fired w.id)
        where
          still :
              any (can_fire w.id) s.db.watches ≡ false
              → Met (awaited w.id) s.db.watches s.rep.fired
              → contains s.rep.fired w.id ≡ true
          still e (inl armed) = cc
          still e (inr there) = there
