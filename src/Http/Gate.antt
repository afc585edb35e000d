-- ===== src/Http/Gate.antt =====
-- internal/api/cors.go, and the bearer check of internal/api/api.go: what stands before the routes.
use scootless.Base.{
  Bool, true, false, not, ◌&&◌, ◌||◌, String, Option, none, some, ◌==◌, string_eq, any,
  if◌then◌else◌,
}
use scootless.Base.Int.{ℤ}
use scootless.Base.Text.{trim_space, has_prefix, trim_prefix}
use scootless.Float.{Math}
use scootless.Store.Schema.{Db}
use scootless.Http.{Request, Server, param}
use scootless.Http.Handlers.{Answer, code}
use scootless.Http.Routes.{Moment, mux}

-- `http.Handler`, on the tables.
abbrev pub Handler : Type 0
Handler = Request → Db → Answer × Db

-- The token that a request carries: the header, or else the query.
unfoldable pub bearer : Request → String
unfolding trim_prefix param
bearer r =
    let got = trim_prefix r.authorization "Bearer " in if got == "" then param "token" r else got

-- `authenticated`. `subtle.ConstantTimeCompare` is equality.
unfoldable pub authenticated : Server → Handler → Handler
unfolding has_prefix bearer
authenticated s next r db =
    if s.token == "" || not (has_prefix r.path "/api/")
    then next r db
    else if bearer r == s.token
    then next r db
    else (code 401, db)

-- The headers that `cors` sets.
pub record Headers : Type 0 where
  pub vary : Bool
  pub allow_origin : Option String
  pub allow_methods : Option String
  pub allow_headers : Option String
  pub max_age : Option String

abbrev no_headers : Headers
no_headers = record {
  vary = false;
  allow_origin = none;
  allow_methods = none;
  allow_headers = none;
  max_age = none;
}

-- `isPreflight`
abbrev pub is_preflight : Request → Bool
is_preflight r = r.method == "OPTIONS" && not (r.preflight_method == "")

-- `originAllowed`
pub origin_allowed : Server → String → Bool
unfolding trim_space
origin_allowed s origin = any (λ a. s.parsers.equal_fold (trim_space a) origin) s.allowed_origins

abbrev granted : String → Headers
granted origin = record {
  vary = true;
  allow_origin = some origin;
  allow_methods = some "GET, POST, DELETE, OPTIONS";
  allow_headers = some "Authorization, Content-Type";
  max_age = some "600";
}

-- `cors`
unfoldable pub cors : Server → Handler → Request → Db → Headers × (Answer × Db)
unfolding origin_allowed
cors s next r db =
    if r.origin == ""
    then (no_headers, next r db)
    else if not (origin_allowed s r.origin)
    then (record no_headers { vary = true }, if is_preflight r then (code 403, db) else next r db)
    else if is_preflight r
    then (granted r.origin, (code 204, db))
    else (record no_headers { vary = true; allow_origin = some r.origin }, next r db)

-- `Handler`
unfoldable pub handler :
    Math → (ℤ → String) → Server → Moment → Request → Db → Headers × (Answer × Db)
unfolding cors authenticated mux
handler m whole s w r db = cors s (authenticated s (mux m whole s w)) r db
