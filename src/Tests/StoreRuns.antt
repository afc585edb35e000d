-- ===== src/Tests/StoreRuns.antt =====
-- internal/store: the results at concrete tables.
use scootless.Base.{
  ◌≡◌, refl, true, false, List, [], ◌∷◌, none, some, ok, is_ok, ◌==◌, string_eq, All, any, keep,
  ◌≤◌, not, contains, map, ◌&&◌, ◌-◌, ◌*◌, nat_eq, ltb, leb, Bool,
}
use scootless.Base.Int.{pos}
use scootless.Tests.Data.{watched, empty_db, arrival_watch, noon}
use scootless.Store.Schema.{Db, Fence, NearestRow, unix, fired}
use scootless.Store.Fences.{delete_fence}
use scootless.Store.Watches.{row_of}
use scootless.Store.Nearest.{dark_operators, has_distance}
use scootless.Store.Dark.{dark_operators-contains}
use scootless.Store.Presence.{
  observe_presence, Sighting, Arrival, open_stint, cutoff_of, present_ids,
}
use scootless.Store.Stints.{observe_presence-again, observe_presence-arrivals}
use scootless.Store.Stints.Updates.{is_some}
use scootless.Store.Deletion.{delete_fence-IsDeleted, IsDeleted}
use scootless.Store.Held.{run-delete_fence-held}
use scootless.Store.History.{Call, fires, reports, creates, deletes, run, firings}
use scootless.Store.History.Keys.{HasKeys, run-HasKeys}
use scootless.Store.History.Links.{HasLinks}
use scootless.Store.History.Linked.{run-HasLinks}
use scootless.Store.History.Firing.{firings-le-one}

pub watched-HasKeys : HasKeys watched
watched-HasKeys = record {
  fence_keys = (refl, tt);
  watch_keys = (refl, tt);
  sample_keys = tt;
  presence_keys = tt;
  nearest_keys = tt;
  event_keys = tt;
  event_ids = tt;
}

pub watched-HasLinks : HasLinks watched
watched-HasLinks = record {
  enforced = refl;
  watch_links = (refl, tt);
  sample_links = tt;
  presence_links = tt;
  nearest_links = tt;
  event_links = tt;
}

abbrev calls : List Call
calls =
    creates arrival_watch
    ∷ fires "w1" noon
    ∷ reports "w1" noon "payload"
    ∷ fires "w1" noon
    ∷ deletes "home"
    ∷ []

run-HasKeys_example : HasKeys (run calls watched)
run-HasKeys_example = run-HasKeys calls watched watched-HasKeys

run-HasLinks_example : HasLinks (run calls watched)
run-HasLinks_example = run-HasLinks calls watched watched-HasLinks

firings-le-one_example : firings "w1" (fires "w1" noon ∷ fires "w1" noon ∷ []) watched ≤ 1
firings-le-one_example =
    firings-le-one "w1" (fires "w1" noon ∷ fires "w1" noon ∷ []) watched (tt, (tt, tt)) refl

-- The fence after its watch has fired and reported.
abbrev reported_db : Db
reported_db = record watched {
  watches = record (row_of arrival_watch) { state = fired; fired_at = some 10 } ∷ [];
  events = record { id = 1; watch_id = "w1"; at = 10; payload = "payload" } ∷ [];
  next_event = 2;
}

run-delete_fence-held_example : is_ok (delete_fence "home" (run calls reported_db)) ≡ false
run-delete_fence-held_example =
    run-delete_fence-held "home" calls reported_db (record { enforced = refl; reported = refl })

delete_fence-IsDeleted_example :
    (true ≡ any (λ (f : Fence). f.id == "home") empty_db.fences)
    × IsDeleted "home" empty_db (record empty_db { fences = [] })
unfolding delete_fence
delete_fence-IsDeleted_example =
    delete_fence-IsDeleted "home" empty_db (record empty_db { fences = [] }) true refl

-- Two operators, one of which went silent.
abbrev lit_db : Db
lit_db = record empty_db {
  nearest =
      (record {
        fence_id = "home";
        at = 5;
        operator = "ryde";
        distance_m = some (pos 40);
        vehicle_id = none;
      })
      ∷ (record {
        fence_id = "home";
        at = 5;
        operator = "voi";
        distance_m = some (pos 70);
        vehicle_id = none;
      })
      ∷ (record {
        fence_id = "home";
        at = 9;
        operator = "voi";
        distance_m = none;
        vehicle_id = none;
      })
      ∷ (record {
        fence_id = "home";
        at = 9;
        operator = "ryde";
        distance_m = some (pos 50);
        vehicle_id = none;
      })
      ∷ [];
}

dark_operators-contains_example :
    let followed : NearestRow → Bool = λ r.
      any
        (λ s. (s.fence_id == r.fence_id && s.operator == r.operator) && ltb r.at s.at)
        lit_db.nearest in
    contains (dark_operators "home" noon (pos 0) lit_db) "voi" ≡ (
      any
        (λ r. (r.fence_id == "home" && not (followed r)) && has_distance r.distance_m)
        lit_db.nearest
      && (any
            (λ r.
              (r.fence_id == "home" && not (followed r))
              && (not (has_distance r.distance_m) && r.operator == "voi"))
            lit_db.nearest
          && any
              (λ r.
                r.fence_id == "home"
                && r.operator == "voi"
                && has_distance r.distance_m
                && leb (unix (noon - 21600 * 1000000000)) r.at)
              lit_db.nearest))
dark_operators-contains_example =
    dark_operators-contains "home" "voi" noon (pos 0) lit_db (refl, (refl, (refl, (refl, tt))))

dark_operators_test : dark_operators "home" noon (pos 0) lit_db ≡ "voi" ∷ []
unfolding dark_operators
dark_operators_test = refl

abbrev two_seen : List Sighting
two_seen =
    record { vehicle_id = "a"; operator = "ryde" }
    ∷ record { vehicle_id = "b"; operator = "voi" }
    ∷ []

abbrev seen_db : Db
seen_db = record watched {
  presence =
      record {
        fence_id = "home";
        vehicle_id = "a";
        operator = "ryde";
        first_seen = 10;
        last_seen = 10;
      }
      ∷ record {
        fence_id = "home";
        vehicle_id = "b";
        operator = "voi";
        first_seen = 10;
        last_seen = 10;
      }
      ∷ [];
}

abbrev two_new : List Arrival
two_new = map (λ s. record { sighting = s; at = noon }) two_seen

observe_presence-arrivals_example :
    two_new
    ≡ map
        (λ s. record { sighting = s; at = noon })
        (keep
          (λ s.
            not
              (is_some (open_stint "home" (cutoff_of noon (pos 0)) watched.presence s.vehicle_id)))
          two_seen)
unfolding observe_presence
observe_presence-arrivals_example =
    observe_presence-arrivals "home" noon two_seen (pos 0) watched seen_db two_new refl

observe_presence-again_example :
    All
      (λ s. contains (present_ids "home" 20000000000 (pos 0) seen_db) s.vehicle_id ≡ true)
      two_seen
    × ((last : Db) × (observe_presence "home" 20000000000 two_seen (pos 0) seen_db ≡ ok ([], last)))
unfolding observe_presence
observe_presence-again_example =
    observe_presence-again "home" noon 20000000000 two_seen (pos 0) (pos 0) watched seen_db two_new
      refl refl
