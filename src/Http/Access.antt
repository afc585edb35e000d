-- ===== src/Http/Access.antt =====
-- Who is let through, and what a browser is told: internal/api/cors.go and api.go.
use scootless.Base.{
  ◌≡◌, ◌↔◌, Bool, true, false, not, ◌&&◌, String, some, ◌==◌, string_eq, if◌then◌else◌, arith,
}
use scootless.Base.Int.{ℤ}
use scootless.Base.Text.{has_prefix}
use scootless.Float.{Math}
use scootless.Store.Schema.{Db}
use scootless.Http.{Request, Server}
use scootless.Http.Handlers.{Answer, code}
use scootless.Http.Routes.{Moment, mux}
use scootless.Http.Gate.{
  Handler, bearer, authenticated, is_preflight, origin_allowed, cors, handler,
}

-- The answer to a preflight of a browser.
abbrev pub preflight_code : Bool → Answer
preflight_code allowed = if allowed then code 204 else code 403

abbrev pub from_browser : Request → Bool
from_browser r = not (r.origin == "") && is_preflight r

authenticated-refused :
    (s : Server) (next : Handler) (r : Request) (db : Db)
    → (s.token == "") ≡ false
    → has_prefix r.path "/api/" ≡ true
    → (bearer r == s.token) ≡ false
    → authenticated s next r db ≡ (code 401, db)
unfolding authenticated
authenticated-refused s next r db token path wrong = rw (token, path, wrong)

pub cors-answer :
    (s : Server) (next : Handler) (r : Request) (db : Db)
    → (cors s next r db).1
      ≡ (if from_browser r then (preflight_code (origin_allowed s r.origin), db) else next r db)
unfolding cors
cors-answer s next r db = ground arith

-- Where a token is configured, a request under /api/ that carries another one, or none, changes
-- nothing and is answered with 401, or, where it is a preflight with an origin, with 204 or 403 by
-- that origin alone.
pub handler-refused :
    (m : Math) (whole : ℤ → String) (s : Server) (w : Moment) (r : Request) (db : Db)
    → (s.token == "") ≡ false
    → has_prefix r.path "/api/" ≡ true
    → (bearer r == s.token) ≡ false
    → (handler m whole s w r db).1
      ≡ ((if from_browser r then preflight_code (origin_allowed s r.origin) else code 401), db)
unfolding handler
handler-refused m whole s w r db token path wrong = ground (
  arith,
  cors-answer s (authenticated s (mux m whole s w)) r db,
  authenticated-refused s (mux m whole s w) r db token path wrong,
)

-- The answer names an origin exactly where the request has that origin and the configuration allows
-- it; every answer to a request with an origin varies by it, also where no origin is configured;
-- and a preflight with an origin is answered with 204 or 403 and changes nothing, whatever the
-- token, the path and the credentials.
pub handler-origin :
    (m : Math) (whole : ℤ → String) (s : Server) (w : Moment) (r : Request) (db : Db)
    → let (headers, outcome) = handler m whole s w r db in
      ((o : String)
        → (headers.allow_origin ≡ some o)
          ↔ ((r.origin ≡ o) × ((r.origin == "") ≡ false) × (origin_allowed s r.origin ≡ true)))
      × (headers.vary ≡ not (r.origin == ""))
      × (from_browser r ≡ true → outcome ≡ (preflight_code (origin_allowed s r.origin), db))
unfolding handler cors
handler-origin m whole s w r db =
    (λ o. (λ h. ground arith, λ h. ground arith), ground arith, λ h. ground arith)
