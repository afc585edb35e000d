-- ===== src/Track/Alternation.antt =====
-- cmd/scootless-track/main.go: the order in which the events of one vehicle come.
use scootless.Base.{
  ℕ, ◌≡◌, refl, Bool, true, false, not, ◌&&◌, List, [], ◌∷◌, Option, none, some, arith,
  if◌then◌else◌,
}
use scootless.Float.{Math}
use scootless.Geo.{Point}
use scootless.Entur.Vehicles.{Vehicle}
use scootless.Track.{State, Event, parked, reappeared, moved, vanished, look, follow, fresh}

-- Where a vehicle is, as a reader of the events knows it.
pub data Phase : Type 0 where
  unseen here away : Phase

-- The phase after an event, where the event may come in that phase.
abbrev pub next : Phase → Event → Option Phase
next unseen (parked at range_m) = some here
next here (moved at by_m) = some here
next here vanished = some away
next away (reappeared at moved_m bearing gone_for_s) = some here
next _ _ = none

abbrev pub accepts : Phase → List Event → Bool
accepts p [] = true
accepts p (e ∷ events) = elim (next p e) [ none ↦ false | some q ↦ accepts q events ]

-- The phase that a state stands for.
abbrev phase : State → Phase
phase s = if s.seen then here else if s.has_start then away else unseen

-- A vehicle that is seen has a start.
abbrev IsStarted : State → Type 0
IsStarted s = (s.seen && not s.has_start) ≡ false

module _ (m : Math) where
  accepts-follow :
      (looks : List (ℕ × Option Vehicle)) (s : State)
      → IsStarted s
      → accepts (phase s) (follow m looks s) ≡ true
  unfolding follow look
  accepts-follow [] s h = refl
  accepts-follow ((now, some v) ∷ looks) s h =
      let new : State = record s {
        seen = true;
        at = v.at;
        since = now;
        start = v.at;
        has_start = true;
      } in
      let back : State = record s { seen = true; at = v.at; since = now; start = v.at } in
      let gone : State = record s { at = v.at } in
      ground (
        arith,
        accepts-follow looks new,
        accepts-follow looks back,
        accepts-follow looks gone,
        accepts-follow looks s,
      )
  accepts-follow ((now, none) ∷ looks) s h =
      let gone : State = record s { seen = false; gone_at = now } in
      ground (arith, accepts-follow looks gone, accepts-follow looks s)

  -- Whatever is seen and missed, the events of a vehicle begin with `parked`, which never comes
  -- again; `moved` comes only while it is there, and `vanished` and `reappeared` alternate.
  pub follow-alternates :
      (origin : Point) (looks : List (ℕ × Option Vehicle))
      → accepts unseen (follow m looks (fresh origin)) ≡ true
  follow-alternates origin looks = accepts-follow looks (fresh origin) refl
