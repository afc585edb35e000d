-- ===== src/Http/Effects.antt =====
-- A request as a sequence of the store's calls: internal/api/api.go.
use scootless.Base.{
  ◌≡◌, refl, Bool, true, false, String, [], ◌∷◌, Option, none, some, Result, ok, err, ◌==◌,
  string_eq, if◌then◌else◌, Bool-cases, inl, inr, arith,
}
use scootless.Base.Int.{ℤ}
use scootless.Float.{Math}
use scootless.Store.Schema.{
  Db, StoreError, cancelled, not_found, no_rows, fence_in_use, constraint_failed,
}
use scootless.Store.Fences.{delete_fence}
use scootless.Store.Watches.{set_state}
use scootless.Store.History.{saves, deletes, sets, cancels, step, run, after, same_db}
use scootless.Api.{
  fence_reply, delete_fence_handler, cancel_reply, cancel_watch, cancel_all_watches, out_of_range,
}
use scootless.Api.Calls.{Called, Called-handler}
use scootless.Http.{CreateFenceReq, Request, Server, param, blank}
use scootless.Http.Handlers.{Answer, new_fence, create_fence}
use scootless.Http.Routes.{
  Resource, healthz, vehicle_search, fence_set, watch_set, state_of_fence, board_now, board_live,
  sample_history, arrival_history, unknown, one_fence, one_watch, events_of_watch, Moment, only,
  is_get, arm, fences_route, watches_route, watch_route, dispatched, resource_at, mux,
}
use scootless.Http.Gate.{Handler, authenticated, cors, handler}

Called-self : (db : Db) → Called db db
unfolding run
Called-self db = ([], refl)

fence_reply-after :
    (db : Db) (r : Result StoreError (Bool × Db))
    → (fence_reply db r).1 ≡ after (λ (removed, new). new) db r
fence_reply-after db (ok (true, new)) = refl
fence_reply-after db (ok (false, new)) = refl
fence_reply-after db (err fence_in_use) = refl
fence_reply-after db (err not_found) = refl
fence_reply-after db (err no_rows) = refl
fence_reply-after db (err constraint_failed) = refl

Called-delete_fence : (id : String) (db : Db) → Called db (delete_fence_handler id db).1
unfolding delete_fence_handler run step
Called-delete_fence id db = elim (Bool-cases (id == "")) [
  | inl e ↦ rw (e, delete_fence_handler) (Called-self db)
  | inr e ↦
      rw (e, delete_fence_handler) (deletes id ∷ [], fence_reply-after db (delete_fence id db))
]

cancel_reply-after :
    (db : Db) (r : Result StoreError Db) → (cancel_reply db r).1 ≡ after same_db db r
cancel_reply-after db (ok new) = refl
cancel_reply-after db (err fence_in_use) = refl
cancel_reply-after db (err not_found) = refl
cancel_reply-after db (err no_rows) = refl
cancel_reply-after db (err constraint_failed) = refl

Called-cancel_watch : (id : String) (db : Db) → Called db (cancel_watch id db).1
unfolding cancel_watch run step
Called-cancel_watch id db =
    (sets id cancelled ∷ [], cancel_reply-after db (set_state id cancelled db))

Called-cancel_all : (device : String) (db : Db) → Called db (cancel_all_watches device db).1
unfolding cancel_all_watches run step
Called-cancel_all device db = (cancels device ∷ [], refl)

Called-only :
    (allowed : Bool) (outcome : Answer × Db) (db : Db)
    → Called db outcome.1
    → Called db (only allowed outcome db).1
Called-only true outcome db h = h
Called-only false outcome db h = Called-self db

Called-if :
    (t : Bool) (a b : Answer × Db) (db : Db)
    → Called db a.1
    → Called db b.1
    → Called db (if t then a else b).1
Called-if true a b db h k = h
Called-if false a b db h k = k

module _ (m : Math) (s : Server) where
  Called-create_fence :
      (random : String) (body : Option CreateFenceReq) (db : Db)
      → Called db (create_fence m s random body db).1
  unfolding create_fence run step
  Called-create_fence random none db = Called-self db
  Called-create_fence random (some req) db =
      Called-if (out_of_range m req.lat req.lon) _ _ db (Called-self db)
        (saves (new_fence m s random req) ∷ [], refl)

  module _ (whole : ℤ → String) (w : Moment) where
    Called-dispatched :
        (at : Resource) (r : Request) (db : Db) → Called db (dispatched m whole s w at r db).1
    unfolding dispatched fences_route watches_route watch_route arm
    Called-dispatched healthz r db = Called-only (is_get r) _ db (Called-self db)
    Called-dispatched vehicle_search r db = Called-only (is_get r) _ db (Called-self db)
    Called-dispatched fence_set r db =
        Called-if (is_get r) _ _ db (Called-self db)
          (Called-only (r.method == "POST") _ db (Called-create_fence w.random r.fence_body db))
    Called-dispatched (one_fence id) r db =
        Called-only (r.method == "DELETE") _ db (Called-delete_fence id db)
    Called-dispatched watch_set r db = Called-if (is_get r) _ _ db (Called-self db) (
        Called-if (r.method == "POST") _ _ db
          (Called-handler m w.fetch blank w.now w.fence_random w.random r.watch_body db)
          (Called-only (r.method == "DELETE") _ db (Called-cancel_all (param "device" r) db)))
    Called-dispatched (one_watch id) r db =
        Called-if (is_get r) _ _ db (Called-self db)
          (Called-only (r.method == "DELETE") _ db (Called-cancel_watch id db))
    Called-dispatched (events_of_watch id) r db = Called-only (is_get r) _ db (Called-self db)
    Called-dispatched state_of_fence r db = Called-only (is_get r) _ db (Called-self db)
    Called-dispatched board_now r db = Called-only (is_get r) _ db (Called-self db)
    Called-dispatched board_live r db = Called-only (is_get r) _ db (Called-self db)
    Called-dispatched sample_history r db = Called-only (is_get r) _ db (Called-self db)
    Called-dispatched arrival_history r db = Called-only (is_get r) _ db (Called-self db)
    Called-dispatched unknown r db = Called-self db

    Called-mux : (r : Request) (db : Db) → Called db (mux m whole s w r db).1
    unfolding mux
    Called-mux r db = Called-dispatched (resource_at r.path) r db

  -- What a route may do to the tables, the bearer check and CORS may do, and no more than that.
  pub authenticated-keeps :
      (P : Db → Type 0) (next : Handler) (r : Request) (db : Db)
      → P db
      → P (next r db).1
      → P (authenticated s next r db).1
  unfolding authenticated
  authenticated-keeps P next r db old new = ground arith

  pub cors-keeps :
      (P : Db → Type 0) (next : Handler) (r : Request) (db : Db)
      → P db
      → P (next r db).1
      → P (cors s next r db).1.1
  unfolding cors
  cors-keeps P next r db old new = ground arith

  -- Whatever is requested, the tables after the answer are what some sequence of the store's calls
  -- makes of those before.
  pub handler-Called :
      (whole : ℤ → String) (w : Moment) (r : Request) (db : Db)
      → Called db (handler m whole s w r db).1.1
  unfolding handler
  handler-Called whole w r db =
      cors-keeps (Called db) (authenticated s (mux m whole s w)) r db (Called-self db) (
        authenticated-keeps (Called db) (mux m whole s w) r db (Called-self db)
          (Called-mux whole w r db))
