-- ===== src/Tests/PollRuns.antt =====
-- internal/poll: the results at concrete ticks.
use scootless.Base.{
  ◌≡◌, ◌≢◌, ◌⊎◌, refl, true, false, String, List, [], ◌∷◌, ◌++◌, none, some, ok, err, keep, ◌==◌,
  nat_eq, string_eq, if◌then◌else◌, arith,
}
use scootless.Base.Int.{pos}
use scootless.Tests.Data.{
  flat, flat-IsLinear, flat-IsNumber, home, work, watched, arrival_watch, noon, poller, start,
  near_scooter, far_scooter, answers, whole,
}
use scootless.Entur.Operators.{exchange_failed}
use scootless.Entur.Vehicles.{Vehicle}
use scootless.Store.Schema.{Db, unknown_kind, fired}
use scootless.Store.Watches.{mark_fired, record_event, row_of}
use scootless.Poll.Select.{Group, nearest_of}
use scootless.Poll.Selection.{nearest_of-nearest, NoneNearer, IsOneOf, far}
use scootless.Poll.Run.{Poller, Notification}
use scootless.Poll.Record.{record_nearest}
use scootless.Poll.Evaluate.{evaluate, notification}
use scootless.Poll.Firing.{evaluate-fires, evaluate-holds_back, counts_for, reported}
use scootless.Geo.{bounding_radius_m}
use scootless.Poll.Tick.{tick, group_steps}
use scootless.Poll.Groups.{group_steps-answered, answered, failures, instead}
use scootless.Poll.Told.{told_of, tick-told}
use scootless.Poll.Throttle.{Pass, passes, record_nearest-throttled}

abbrev inside : List Vehicle
inside = near_scooter ∷ far_scooter ∷ []

abbrev marked_db : Db
marked_db = record watched {
  watches = record (row_of arrival_watch) { state = fired; fired_at = some 10 } ∷ [];
}

abbrev note : Notification
note =
    notification poller arrival_watch home noon (keep (counts_for arrival_watch) inside)
      (reported arrival_watch inside)

appearance_known : (k : String) → arrival_watch.kind ≢ unknown_kind k
appearance_known k e = absurd (ground arith)

evaluate-fires_example :
    (last : Db) × (record_event "w1" noon "payload" marked_db ≡ ok last)
    × (evaluate poller arrival_watch home noon inside [] start ≡ (
      ok true,
      record start {
        db = last;
        deliveries = if poller.has_sink then start.deliveries ++ note ∷ [] else start.deliveries;
      },
    ))
unfolding mark_fired
evaluate-fires_example =
    evaluate-fires poller arrival_watch home noon inside [] "payload" marked_db start
      appearance_known refl refl refl refl

evaluate-holds_back_example :
    evaluate poller arrival_watch home noon (near_scooter ∷ []) [] start ≡ (ok false, start)
evaluate-holds_back_example =
    evaluate-holds_back poller arrival_watch home noon (near_scooter ∷ []) [] start appearance_known
      refl refl

abbrev two_groups : List Group
two_groups =
    record { at = home.at; radius_m = pos 900; fences = home ∷ [] }
    ∷ record { at = work.at; radius_m = pos 800; fences = work ∷ [] }
    ∷ []

-- The upstream that fails at a radius of 800.
abbrev half_down : Poller
half_down = record poller {
  fetch = λ q. elim q.radius_m [
    | pos n ↦ if n == 800 then err (exchange_failed "down") else answers q
    | _ ↦ answers q
  ];
}

group_steps-answered_example :
    group_steps flat half_down noon (arrival_watch ∷ []) two_groups [] start
    ≡ instead flat half_down noon
        (arrival_watch ∷ [])
        (failures flat half_down noon (arrival_watch ∷ []) two_groups)
        (group_steps flat half_down noon
          (arrival_watch ∷ [])
          (keep (answered flat half_down noon (arrival_watch ∷ [])) two_groups)
          []
          start)
group_steps-answered_example =
    group_steps-answered flat half_down noon (arrival_watch ∷ []) two_groups start

abbrev other_pass : Pass
other_pass = record { fence = work; at = 10000000000; inside = [] }

record_nearest-throttled_example :
    let u =
      passes flat poller (other_pass ∷ []) (record_nearest flat poller home noon [] start).1 in
    (record_nearest flat poller home 20000000000 [] u).1.rep.nearest_queries ≡ u.rep.nearest_queries
unfolding record_nearest
record_nearest-throttled_example =
    record_nearest-throttled flat poller home noon 20000000000 120000000000 [] [] (other_pass ∷ [])
      start refl (refl, tt) refl (λ e. absurd (ground arith))

nearest_of-nearest_example :
    ((nearest_of flat inside home ≡ none) × NoneNearer flat home (whole 1000000000000) inside)
    ⊎ ((v : Vehicle) × (nearest_of flat inside home ≡ some v)
        × (flat.less (far flat home v) (whole 1000000000000) ≡ true)
        × NoneNearer flat home (far flat home v) inside
        × IsOneOf flat home v inside)
nearest_of-nearest_example =
    nearest_of-nearest flat home flat-IsLinear inside refl
      (flat-IsNumber (far flat home near_scooter), (flat-IsNumber (far flat home far_scooter), tt))

tick-told_example :
    told_of (tick flat poller noon start).1 ≡ [] ++ (tick flat poller noon start).1.rep.fired
tick-told_example = tick-told flat poller noon start refl

-- The watch fires on the vehicle that its baseline lacks.
tick_test : (tick flat poller noon start).1.rep.fired ≡ "w1" ∷ []
unfolding tick bounding_radius_m scootless.Geo.distance_m scootless.Store.Samples.record_sample
    scootless.Store.Presence.observe_presence scootless.Store.Nearest.record_nearest nearest_of
    mark_fired record_event
tick_test = refl
