-- ===== src/Tests/ApiRuns.antt =====
-- internal/api: the results at concrete requests.
use scootless.Base.{
  ℕ, ◌↔◌, ◌+◌, ◌≤◌, ◌≡◌, refl, Bool, true, false, ◌&&◌, List, [], ◌∷◌, ◌++◌, none, ok, String, ◌==◌,
  string_eq, any,
}
use scootless.Base.Int.{pos}
use scootless.Tests.Data.{empty_db, flat, home, watched, noon, answers, near_scooter, far_scooter}
use scootless.Entur.Vehicles.{Fetched}
use scootless.Entur.Operators.{lookup}
use scootless.Store.Schema.{Db, Fence, Watch}
use scootless.Store.Watches.{row_of, is_live}
use scootless.Poll.Firing.{should_fire}
use scootless.Api.{
  status, delete_fence_handler, CreateWatchReq, watch_of, max_ttl, ttl_of, create_watch_handler,
}
use scootless.Store.Fences.{is_waiting, fence}
use scootless.Store.Deletion.{IsDeleted}
use scootless.Api.Removal.{delete_fence_handler-IsDeleted}
use scootless.Api.Arming.{create_watch_handler-calm, create_watch_handler-armed}

abbrev pub request : CreateWatchReq
request = record {
  device = "phone";
  kind = "appearance";
  fence_id = "home";
  lat = none;
  lon = none;
  radius_m = pos 0;
  operators = "ryde" ∷ [];
  min_range_m = pos 0;
  threshold = pos 0;
  ttl_seconds = pos 600;
  repeat = false;
}

abbrev is_blank : String → Bool
is_blank s = s == ""

abbrev pub new_watch : Watch
new_watch =
    watch_of flat answers is_blank noon "f1" "w2" request home (near_scooter ∷ far_scooter ∷ [])

abbrev pub armed_db : Db
armed_db = record watched { watches = watched.watches ++ row_of new_watch ∷ [] }

create_watch_handler-calm_example :
    (f : Fence) × (res : Fetched) × (fence new_watch.fence_id armed_db ≡ ok f)
    × (answers (record {
      at = f.at;
      radius_m = f.radius_m;
      operator_keys = "ryde" ∷ [];
      min_range_m = pos 0;
      form_factors = [];
      include_unrentable = false;
      limit = pos 0;
    })
        ≡ ok res)
    × ((dark : List String) → should_fire new_watch res.vehicles dark ≡ false)
unfolding create_watch_handler lookup
create_watch_handler-calm_example =
    create_watch_handler-calm flat answers is_blank noon "f1" "w2" request new_watch watched
      armed_db refl refl

create_watch_handler-armed_example :
    (noon + 1000000000 ≤ new_watch.expires_at)
    × (new_watch.expires_at ≤ noon + max_ttl)
    × ((t : ℕ)
        → t + 1000000000 ≤ new_watch.expires_at
        → any (λ r. r.id == "w2" && is_live t r) armed_db.watches ≡ true)
    × ((t : ℕ)
        → new_watch.expires_at ≤ t
        → any (λ r. r.id == "w2" && is_live t r) armed_db.watches ≡ false)
unfolding create_watch_handler lookup
create_watch_handler-armed_example =
    create_watch_handler-armed flat answers is_blank noon "f1" "w2" request new_watch watched
      armed_db refl refl refl

-- A time to live that is no duration of 64 bits wraps, here to less than a second.
ttl_of_test : ttl_of (pos 18446744074) ≡ 290448384
unfolding ttl_of
ttl_of_test = refl

delete_fence_handler-IsDeleted_example :
    let (reply, new) = delete_fence_handler "home" empty_db in
    ((reply ≡ status 409) ↔ (any (is_waiting "home") empty_db.watches ≡ true))
    × (reply ≡ status 204
        → (true ≡ any (λ (f : Fence). f.id == "home") empty_db.fences)
          × IsDeleted "home" empty_db new)
delete_fence_handler-IsDeleted_example = delete_fence_handler-IsDeleted "home" empty_db refl
