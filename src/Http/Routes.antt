-- ===== src/Http/Routes.antt =====
-- internal/api/api.go: the routes of `Handler`. A pattern for GET also takes HEAD, a wildcard is a
-- segment that is not empty, and a known path under another method is a 405: package net/http.
use scootless.Base.{
  ℕ, Bool, true, false, ◌&&◌, ◌||◌, String, List, [], ◌∷◌, ◌==◌, string_eq, if◌then◌else◌,
}
use scootless.Base.Int.{ℤ}
use scootless.Base.Text.{split}
use scootless.Float.{Math}
use scootless.Store.Schema.{Db}
use scootless.Poll.Run.{Fetcher}
use scootless.Api.{
  Outcome, create_watch_handler, delete_fence_handler, list_watches, cancel_watch,
  cancel_all_watches,
}
use scootless.Http.{Request, Server, param, blank}
use scootless.Http.Summary.{status_handler}
use scootless.Http.Boards.{board_handler, open_stream}
use scootless.Http.Handlers.{
  Answer, code, healthy, status_is, board_is, streaming, coded, written, list_fences, get_watch,
  watch_events, vehicles, create_fence, history, arrivals_handler,
}

pub data Resource : Type 0 where
  healthz vehicle_search fence_set watch_set state_of_fence board_now : Resource
  board_live sample_history arrival_history unknown : Resource
  one_fence one_watch events_of_watch : (id : String) → Resource

abbrev collection : String → Resource
collection name =
    if name == "vehicles"
    then vehicle_search
    else if name == "fences"
    then fence_set
    else if name == "watches"
    then watch_set
    else if name == "status"
    then state_of_fence
    else if name == "board"
    then board_now
    else if name == "history"
    then sample_history
    else if name == "arrivals"
    then arrival_history
    else unknown

abbrev item : String → String → Resource
item name id =
    if id == ""
    then unknown
    else if name == "fences"
    then one_fence id
    else if name == "watches"
    then one_watch id
    else if name == "board" && id == "stream"
    then board_live
    else unknown

abbrev part : String → String → String → Resource
part name id sub =
    if id == ""
    then unknown
    else if name == "watches" && sub == "events"
    then events_of_watch id
    else unknown

abbrev below_api : List String → Resource
below_api (name ∷ []) = collection name
below_api (name ∷ id ∷ []) = item name id
below_api (name ∷ id ∷ sub ∷ []) = part name id sub
below_api _ = unknown

-- The resource of the segments of a path; the first is empty.
abbrev resource : List String → Resource
resource (root ∷ name ∷ []) = if root == "" && name == "healthz" then healthz else unknown
resource (root ∷ api ∷ version ∷ rest) =
    if root == "" && api == "api" && version == "v1" then below_api rest else unknown
resource _ = unknown

unfoldable pub resource_at : String → Resource
unfolding split
resource_at path = resource (split b'/' path)

-- What the world gives while a request is served.
pub record Moment : Type 0 where
  pub fetch : Fetcher
  pub now : ℕ
  pub fence_random : String
  pub random : String

abbrev pub is_get : Request → Bool
is_get r = r.method == "GET" || r.method == "HEAD"

abbrev pub only : Bool → Answer × Db → Db → Answer × Db
only true outcome db = outcome
only false outcome db = (code 405, db)

abbrev as_written : Outcome → Answer × Db
as_written (reply, db) = (written reply, db)

module _ (m : Math) (whole : ℤ → String) (s : Server) (w : Moment) where
  unfoldable pub fences_route : Request → Db → Answer × Db
  unfolding list_fences create_fence
  fences_route r db =
      if is_get r
      then (list_fences db, db)
      else only (r.method == "POST") (create_fence m s w.random r.fence_body db) db

  unfoldable pub arm : Request → Db → Outcome
  unfolding create_watch_handler blank
  arm r db = create_watch_handler m w.fetch blank w.now w.fence_random w.random r.watch_body db

  unfoldable pub watches_route : Request → Db → Answer × Db
  unfolding list_watches arm cancel_all_watches param
  watches_route r db =
      if is_get r
      then (written (list_watches (param "device" r) w.now db), db)
      else if r.method == "POST"
      then as_written (arm r db)
      else only (r.method == "DELETE") (as_written (cancel_all_watches (param "device" r) db)) db

  unfoldable pub watch_route : String → Request → Db → Answer × Db
  unfolding get_watch cancel_watch
  watch_route id r db =
      if is_get r
      then (get_watch id db, db)
      else only (r.method == "DELETE") (as_written (cancel_watch id db)) db

  unfoldable pub dispatched : Resource → Request → Db → Answer × Db
  unfolding vehicles delete_fence_handler watch_events status_handler board_handler open_stream
      history arrivals_handler fences_route watches_route watch_route
  dispatched healthz r db = only (is_get r) (healthy, db) db
  dispatched vehicle_search r db = only (is_get r) (vehicles m s w.fetch r, db) db
  dispatched fence_set r db = fences_route r db
  dispatched (one_fence id) r db =
      only (r.method == "DELETE") (as_written (delete_fence_handler id db)) db
  dispatched watch_set r db = watches_route r db
  dispatched (one_watch id) r db = watch_route id r db
  dispatched (events_of_watch id) r db = only (is_get r) (watch_events id db, db) db
  dispatched state_of_fence r db =
      only (is_get r) (coded status_is (status_handler m whole s r w.now db), db) db
  dispatched board_now r db =
      only (is_get r) (coded board_is (board_handler m s w.fetch w.now r db), db) db
  dispatched board_live r db =
      only (is_get r) (coded (λ (br, interval). streaming br interval) (open_stream m s r db), db)
        db
  dispatched sample_history r db = only (is_get r) (history m s w.now r db, db) db
  dispatched arrival_history r db = only (is_get r) (arrivals_handler m s w.now r db, db) db
  dispatched unknown r db = (code 404, db)

  -- The `ServeMux` of `Handler`.
  unfoldable pub mux : Request → Db → Answer × Db
  unfolding resource_at dispatched
  mux r db = dispatched (resource_at r.path) r db
