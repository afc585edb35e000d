-- ===== src/Http/Handlers.antt =====
-- internal/api/api.go: the other handlers, on a request, the tables, and what the clock, the
-- upstream and `randomID` give.
use scootless.Base.{
  ℕ, Bool, false, String, List, [], map, Option, none, some, Result, ok, err, ◌>>=◌, require, is_ok,
  length, if◌then◌else◌,
}
use scootless.Base.Int.{ℤ, pos, leb_ℤ}
use scootless.Float.{Math}
use scootless.Entur.Operators.{EnturError, operator_ids}
use scootless.Entur.Vehicles.{Query, Fetched}
use scootless.Store.Schema.{Db, Fence, Watch, EventRow, StoreError, not_found}
use scootless.Store.Fences.{fences, save_fence}
use scootless.Store.Watches.{watch, events}
use scootless.Store.Samples.{SamplePoint, samples}
use scootless.Store.Presence.{Arrival, arrivals}
use scootless.Poll.Run.{Fetcher}
use scootless.Api.{Reply, status, created, found, listed, stopped, out_of_range, or_default}
use scootless.Http.{
  CreateFenceReq, Request, Server, param, int_param, split_operators, coords, window, blank,
  bad_request,
}
use scootless.Http.Views.{FenceJson, WatchJson, VehicleJson, fence_of, watch_of, vehicles_of}
use scootless.Http.Summary.{StatusJson}
use scootless.Http.Boards.{BoardRequest, BoardJson}

-- What a handler writes: a status alone or with an error, or 200 or 201 with a body.
pub data Answer : Type 0 where
  code : ℕ → Answer
  healthy : Answer
  vehicle_list :
      (count : ℕ) (truncated : Bool) (radius_m : ℤ) (vehicles : List VehicleJson) → Answer
  fence_list : List FenceJson → Answer
  fence_created : FenceJson → Answer
  watch_created : WatchJson → Answer
  watch_found : WatchJson → Answer
  watch_list : List WatchJson → Answer
  watches_stopped : ℕ → Answer
  event_list : List EventRow → Answer
  sample_list : (fence_id : String) (from to : ℕ) → List SamplePoint → Answer
  arrival_list : (fence_id : String) (from to : ℕ) (count : ℕ) → List Arrival → Answer
  status_is : StatusJson → Answer
  board_is : BoardJson → Answer
  -- A stream, with what it refreshes and how often.
  streaming : BoardRequest → ℤ → Answer

abbrev pub coded {ℓ} : {A : Type ℓ} → (A → Answer) → Result ℕ A → Answer
coded answer (ok a) = answer a
coded answer (err n) = code n

-- The replies of the handlers that arm, list and cancel watches, as they are written.
abbrev pub written : Reply → Answer
unfolding watch_of
written (status n) = code n
written (created w) = watch_created (watch_of w)
written (found w) = watch_found (watch_of w)
written (listed ws) = watch_list (map watch_of ws)
written (stopped n) = watches_stopped n

-- `listFences`
unfoldable pub list_fences : Db → Answer
unfolding fences fence_of
list_fences db = fence_list (map fence_of (fences db))

abbrev watch_answer : Result StoreError Watch → Answer
unfolding watch_of
watch_answer (ok w) = watch_found (watch_of w)
watch_answer (err not_found) = code 404
watch_answer (err e) = code 500

-- `getWatch`
unfoldable pub get_watch : String → Db → Answer
unfolding watch watch_of
get_watch id db = watch_answer (watch id db)

-- `watchEvents`
unfoldable pub watch_events : String → Db → Answer
unfolding events
watch_events id db = event_list (events id db)

module _ (m : Math) (s : Server) where
  abbrev vehicles_answer : ℤ → Result EnturError Fetched → Result ℕ Answer
  vehicles_answer radius_m (err e) = err 502
  vehicles_answer radius_m (ok res) =
      ok (vehicle_list (length res.vehicles) res.truncated radius_m (vehicles_of m res.vehicles))

  -- `vehicles`
  unfoldable pub vehicles : Fetcher → Request → Answer
  unfolding param coords int_param split_operators operator_ids
  vehicles fetch r =
      coded (λ a. a)
        (coords m s (param "lat" r) (param "lon" r) >>= λ at.
          int_param r "radius" (pos 150) >>= λ radius_m.
          int_param r "min_range_m" (pos 0) >>= λ min_range_m.
          let ops = split_operators s.parsers (param "operators" r) in
          let query : Query = record {
            at = at;
            radius_m = radius_m;
            operator_keys = ops;
            min_range_m = min_range_m;
            form_factors = [];
            include_unrentable = false;
            limit = pos 0;
          } in
          require (is_ok (operator_ids ops)) bad_request (vehicles_answer radius_m (fetch query)))

  -- The fence that `createFence` saves; `randomID` gave an identifier.
  abbrev pub new_fence : String → CreateFenceReq → Fence
  unfolding blank
  new_fence random req = record {
    id = or_default blank req.id random;
    name = or_default blank req.name "fence";
    at = record { lat = req.lat; lon = req.lon };
    radius_m = if leb_ℤ req.radius_m (pos 0) then pos 150 else req.radius_m;
  }

  -- `createFence`; `none` is a body that does not decode.
  unfoldable pub create_fence : String → Option CreateFenceReq → Db → Answer × Db
  unfolding out_of_range blank save_fence fence_of
  create_fence random none db = (code bad_request, db)
  create_fence random (some req) db =
      if out_of_range m req.lat req.lon
      then (code bad_request, db)
      else (fence_created (fence_of (new_fence random req)), save_fence (new_fence random req) db)

  -- `history`
  unfoldable pub history : ℕ → Request → Db → Answer
  unfolding window samples
  history now r db =
      coded (λ (id, from, to). sample_list id from to (samples id from to db)) (window m s now r)

  -- `arrivals`
  unfoldable pub arrivals_handler : ℕ → Request → Db → Answer
  unfolding window arrivals
  arrivals_handler now r db =
      coded
        (λ (id, from, to).
          arrival_list id from to (length (arrivals id from to db)) (arrivals id from to db))
        (window m s now r)
