-- ===== src/Track/Ends.antt =====
-- cmd/scootless-track/main.go: that the command gives up, and what its records hold.
use scootless.Base.{
  ℕ, suc, ◌≢◌, ◌+◌, ◌*◌, ◌≤◌, ◌<◌, ◌≡◌, refl, ap, ◌∙◌, false, String, List, [], ◌∷◌, map, ok,
  string_eq, length, length-map, arith,
}
use scootless.Base.Int.{pos, leb_ℤ}
use scootless.Float.{Math}
use scootless.Geo.{zero_point}
use scootless.Entur.Client.{Client, new}
use scootless.Config.{Config, EnvFile, Parsers, load}
use scootless.Track.Loop.{Look, Outcome, time_limit, track_loop, track_loop-ends, IsPaced}
use scootless.Track.Command.{
  Moment, Flags, finished, deadline_of, look_at, follow_all, configured, run,
}

looks-done :
    (m : Math) (ids : List String) (c : Client) (moments : List Moment)
    → map (λ (l : Look). l.done) (map (look_at m ids c) moments)
      ≡ map (λ (w : Moment). w.done) moments
unfolding look_at
looks-done m ids c [] = refl
looks-done m ids c (w ∷ moments) = ap (λ ts. w.done ∷ ts) (looks-done m ids c moments)

follow_all-finishes :
    (m : Math) (ids : List String) (flags : Flags) (start every : ℕ) (moments : List Moment)
    (c : Config)
    → flags.every ≡ pos (suc every)
    → follow_all m ids flags start moments c
      ≡ finished (
          track_loop m zero_point ids
            (deadline_of start flags.until)
            (map (look_at m ids (new c.client_name)) moments)
            [])
unfolding follow_all
follow_all-finishes m ids flags start every moments c rate =
    let positive : leb_ℤ flags.every (pos 0) ≡ false = rw rate (ground arith) in rw positive refl

-- A command that is given vehicles to follow, a configuration that loads and a positive interval
-- ends by its time limit, whatever the upstream answers: after at most n + 1 looks, where the looks
-- are out at intervals of at least that length, n of them reach beyond the deadline, and no signal
-- comes before.
pub run-ends :
    (m : Math) (p : Parsers) (flags : Flags) (ids : List String) (default_path : String)
    (file : EnvFile) (environ : List String) (c : Config) (start every n : ℕ)
    (moments : List Moment)
    → ids ≢ []
    → load p m default_path file environ ≡ ok c
    → flags.every ≡ pos (suc every)
    → IsPaced (suc every) start (map (λ (w : Moment). w.done) moments)
    → deadline_of start flags.until < start + n * suc every
    → n < length moments
    → (o : Outcome) × (run m p flags ids default_path file environ start moments ≡ finished o)
      × (o.ending ≡ time_limit)
      × (o.looks ≤ suc n)
unfolding run
run-ends m p flags [] default_path file environ c start every n moments given loads rate paced late
      enough =
    absurd (given refl)
run-ends m p flags (id ∷ ids) default_path file environ c start every n moments given loads rate
      paced late enough =
    let looks = map (look_at m (id ∷ ids) (new c.client_name)) moments in
    let o = track_loop m zero_point (id ∷ ids) (deadline_of start flags.until) looks [] in
    let (ending, few) =
      track_loop-ends m zero_point (id ∷ ids) (deadline_of start flags.until) (suc every) start n
        looks [] (rw (looks-done m (id ∷ ids) (new c.client_name) moments) paced) late
        (rw (length-map (look_at m (id ∷ ids) (new c.client_name)) moments) enough) in
    (
      o,
      ap (configured (follow_all m (id ∷ ids) flags start moments)) loads
          ∙ follow_all-finishes m (id ∷ ids) flags start every moments c rate,
      ending,
      few,
    )
