-- ===== src/Http/Reads.antt =====
-- internal/api/api.go and cors.go: a request that only reads changes nothing.
use scootless.Base.{
  ◌≡◌, refl, Bool, true, false, ◌||◌, String, ◌==◌, string_eq, if◌then◌else◌, arith,
}
use scootless.Base.Int.{ℤ}
use scootless.Float.{Math}
use scootless.Store.Schema.{Db}
use scootless.Http.{Request, Server}
use scootless.Http.Handlers.{Answer}
use scootless.Http.Routes.{
  Resource, healthz, vehicle_search, fence_set, watch_set, state_of_fence, board_now, board_live,
  sample_history, arrival_history, unknown, one_fence, one_watch, events_of_watch, Moment, only,
  is_get, fences_route, watches_route, watch_route, dispatched, resource_at, mux,
}
use scootless.Http.Gate.{authenticated, handler}
use scootless.Http.Effects.{authenticated-keeps, cors-keeps}

-- A method that changes something.
abbrev pub writes : Request → Bool
writes r = r.method == "POST" || r.method == "DELETE"

only-reads :
    (allowed : Bool) (outcome : Answer × Db) (db : Db)
    → outcome.1 ≡ db
    → (only allowed outcome db).1 ≡ db
only-reads true outcome db h = h
only-reads false outcome db h = refl

if-reads :
    (t : Bool) (a b : Answer × Db) (db : Db) → a.1 ≡ db → b.1 ≡ db → (if t then a else b).1 ≡ db
if-reads true a b db h k = h
if-reads false a b db h k = k

module _ (m : Math) (whole : ℤ → String) (s : Server) (w : Moment) (r : Request)
    (reads : writes r ≡ false) where
  no_post : (r.method == "POST") ≡ false
  no_post = ground arith

  no_delete : (r.method == "DELETE") ≡ false
  no_delete = ground arith

  dispatched-reads : (at : Resource) (db : Db) → (dispatched m whole s w at r db).1 ≡ db
  unfolding dispatched fences_route watches_route watch_route
  dispatched-reads healthz db = only-reads (is_get r) _ db refl
  dispatched-reads vehicle_search db = only-reads (is_get r) _ db refl
  dispatched-reads fence_set db = if-reads (is_get r) _ _ db refl (rw no_post refl)
  dispatched-reads (one_fence id) db = rw no_delete refl
  dispatched-reads watch_set db = if-reads (is_get r) _ _ db refl (rw (no_post, no_delete) refl)
  dispatched-reads (one_watch id) db = if-reads (is_get r) _ _ db refl (rw no_delete refl)
  dispatched-reads (events_of_watch id) db = only-reads (is_get r) _ db refl
  dispatched-reads state_of_fence db = only-reads (is_get r) _ db refl
  dispatched-reads board_now db = only-reads (is_get r) _ db refl
  dispatched-reads board_live db = only-reads (is_get r) _ db refl
  dispatched-reads sample_history db = only-reads (is_get r) _ db refl
  dispatched-reads arrival_history db = only-reads (is_get r) _ db refl
  dispatched-reads unknown db = refl

-- A request whose method is neither POST nor DELETE changes nothing, whatever its path, its
-- credentials and its parameters.
pub handler-reads :
    (m : Math) (whole : ℤ → String) (s : Server) (w : Moment) (r : Request) (db : Db)
    → writes r ≡ false
    → (handler m whole s w r db).1.1 ≡ db
unfolding handler mux
handler-reads m whole s w r db reads =
    cors-keeps m s (λ d. d ≡ db) (authenticated s (mux m whole s w)) r db refl
      (authenticated-keeps m s (λ d. d ≡ db) (mux m whole s w) r db refl
        (dispatched-reads m whole s w r reads (resource_at r.path) db))
