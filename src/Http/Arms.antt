-- ===== src/Http/Arms.antt =====
-- internal/api/api.go: the request that arms a watch, from the wire to its handler.
use scootless.Base.{◌≡◌, ◌∙◌, Bool, true, false, ◌||◌, String, ◌==◌, string_eq, arith}
use scootless.Base.Int.{ℤ}
use scootless.Float.{Math}
use scootless.Store.Schema.{Db}
use scootless.Http.{Request, Server}
use scootless.Http.Handlers.{written}
use scootless.Http.Routes.{Moment, arm, watches_route, dispatched, resource_at, mux}
use scootless.Http.Gate.{Handler, authenticated, bearer, handler}
use scootless.Http.Access.{cors-answer, from_browser}

-- The request, sent to the watches.
abbrev pub post_watch : Request → Request
post_watch q = record q { method = "POST"; path = "/api/v1/watches" }

-- The token is right, or there is none to have.
abbrev pub may_enter : Server → Request → Bool
may_enter s q = s.token == "" || bearer q == s.token

authenticated-enters :
    (s : Server) (next : Handler) (q : Request) (db : Db)
    → may_enter s q ≡ true
    → authenticated s next q db ≡ next q db
unfolding authenticated
authenticated-enters s next q db h = ground arith

not_from_browser : (q : Request) → from_browser (post_watch q) ≡ false
not_from_browser q = ground arith

-- A request with the right token that is posted to the watches is answered by createWatch.
pub handler-arm :
    (m : Math) (whole : ℤ → String) (s : Server) (w : Moment) (q : Request) (db : Db)
    → may_enter s (post_watch q) ≡ true
    → (handler m whole s w (post_watch q) db).1
      ≡ (let (reply, new) = arm m whole s w (post_watch q) db in (written reply, new))
unfolding handler mux dispatched watches_route resource_at
handler-arm m whole s w q db enters =
    cors-answer s (authenticated s (mux m whole s w)) (post_watch q) db
    ∙ rw (not_from_browser q) (authenticated-enters s (mux m whole s w) (post_watch q) db enters)
