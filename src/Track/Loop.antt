-- ===== src/Track/Loop.antt =====
-- cmd/scootless-track/main.go: the loop of `run`, which gives up after a while.
use scootless.Base.{
  ℕ, zero, suc, ◌+◌, ◌*◌, ◌≤◌, ◌<◌, ◌≡◌, refl, true, String, List, [], ◌∷◌, ◌++◌, Result, ltb,
  length, map, arith, Bool-cases, inl, inr, if◌then◌else◌,
}
use scootless.Float.{Math}
use scootless.Geo.{Point}
use scootless.Entur.Operators.{EnturError}
use scootless.Entur.Vehicles.{Vehicle}
use scootless.Track.{State, Event, round}

-- A look at the vehicles: when it was made, what the lookup gave, and when its events were out.
pub record Look : Type 0 where
  pub at : ℕ
  pub result : Result EnturError (List (String × Vehicle))
  pub done : ℕ

-- How the loop ends: the deadline passed, or a signal came while it waited.
pub data Ending : Type 0 where
  time_limit stopped : Ending

-- The events, the ending, and how many looks were made.
pub record Outcome : Type 0 where
  pub events : List (String × Event)
  pub ending : Ending
  pub looks : ℕ

abbrev ended : List (String × Event) → Outcome
ended events = record { events = events; ending = time_limit; looks = 1 }

abbrev then_more : List (String × Event) → Outcome → Outcome
then_more events o = record o { events = events ++ o.events; looks = suc o.looks }

-- The loop, over the looks that there is time for before a signal.
unfoldable pub track_loop :
    Math → Point → List String → ℕ → List Look → List (String × State) → Outcome
unfolding round
track_loop m origin ids deadline [] states = record { events = []; ending = stopped; looks = 0 }
track_loop m origin ids deadline (l ∷ ls) states =
    let (next, events) = round m l.at origin ids l.result states in
    let more = track_loop m origin ids deadline ls next in
    if ltb deadline l.done then ended events else then_more events more

-- The ticker's promise: no look is out earlier than its number of intervals after the first.
abbrev pub IsPaced : ℕ → ℕ → List ℕ → Type 0
IsPaced every t [] = Unit
IsPaced every t (out ∷ outs) = (t ≤ out) × IsPaced every (t + every) outs

-- Whatever the lookups give, the loop gives up: if the looks are out at intervals of at least
-- `every` and n intervals reach beyond the deadline, the time limit ends it by the look after
-- those, unless a signal comes before.
pub track_loop-ends :
    (m : Math) (origin : Point) (ids : List String) (deadline every start n : ℕ) (ls : List Look)
    (states : List (String × State))
    → IsPaced every start (map (λ (l : Look). l.done) ls)
    → deadline < start + n * every
    → n < length ls
    → let o = track_loop m origin ids deadline ls states in
      (o.ending ≡ time_limit) × (o.looks ≤ suc n)
unfolding track_loop
track_loop-ends m origin ids deadline every start n [] states paced late enough =
    absurd (omega arith)
track_loop-ends m origin ids deadline every start zero (l ∷ ls) states paced late enough =
    let over : ltb deadline l.done ≡ true = ground arith in rw over (refl, omega arith)
track_loop-ends m origin ids deadline every start (suc n) (l ∷ ls) states paced late enough =
    elim (Bool-cases (ltb deadline l.done)) [
      | inl over ↦ rw over (refl, omega arith)
      | inr in_time ↦
          let (e, h) =
            track_loop-ends m origin ids deadline every (start + every) n ls
              (round m l.at origin ids l.result states).0 paced.1 (further start every n late)
              (omega arith) in
          rw in_time (e, omega (arith, h))
    ]
  where
    further :
        (start every n : ℕ)
        → deadline < start + suc n * every
        → deadline < start + every + n * every
    further start every n h = omega arith
