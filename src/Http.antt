-- ===== src/Http.antt =====
-- internal/api/api.go: the request as a handler sees it, its parameters, and the reading of them.
-- An error of a reader is the status that the handler answers with.
pub mod Views
pub mod Summary
pub mod Handlers
pub mod Boards
pub mod Routes
pub mod Gate
pub mod Access
pub mod Spoken
pub mod Window
pub mod Effects
pub mod Reads
pub mod Arms
use scootless.Base.{
  ℕ, ◌-◌, ◌*◌, Bool, true, false, not, ◌&&◌, ◌||◌, String, List, [], Option, none, some, Result, ok,
  err, ◌>>=◌, require, ◌==◌, string_eq, if◌then◌else◌, ltb,
}
use scootless.Base.Int.{ℤ, pos, ltb_ℤ}
use scootless.Base.Dict.{get}
use scootless.Base.Text.{trim_space, split, atoi, or_else}
use scootless.Float.{Float64, Math}
use scootless.Geo.{Point}
use scootless.Config.{Parsers, parts_of}
use scootless.Api.{CreateWatchReq, out_of_range}
use scootless.Board.{Prefs}

-- `createFenceReq`
pub record CreateFenceReq : Type 0 where
  pub id : String
  pub name : String
  pub lat : Float64
  pub lon : Float64
  pub radius_m : ℤ

-- A request: its headers that are read, its query with the first value of each key, and its body as
-- the two handlers that read one decode it. A header or parameter that is missing is empty. The
-- path is clean: `ServeMux` redirects others.
pub record Request : Type 0 where
  pub method : String
  pub path : String
  pub origin : String
  pub preflight_method : String
  pub authorization : String
  pub query : List (String × String)
  pub watch_body : Option CreateWatchReq
  pub fence_body : Option CreateFenceReq

-- `q.Get(key)`
pub param : String → Request → String
unfolding get
param key r = or_else "" (get key r.query)

-- What the handlers read besides the request: `Server`, with the standard library's `time.Parse` in
-- nanoseconds since 1970.
pub record Server : Type 0 where
  pub token : String
  pub allowed_origins : List String
  pub default_at : Option Point
  pub prefs : Option Prefs
  pub parsers : Parsers
  pub parse_time : String → Option ℕ

abbrev pub bad_request : ℕ
bad_request = 400

-- `strings.TrimSpace(s) == ""`
unfoldable pub blank : String → Bool
unfolding trim_space
blank s = trim_space s == ""

abbrev pub parsed {ℓ} : {A : Type ℓ} → Option A → Result ℕ A
parsed none = err bad_request
parsed (some a) = ok a

abbrev not_negative : ℤ → Result ℕ ℤ
not_negative n = require (not (ltb_ℤ n (pos 0))) bad_request (ok n)

-- `intParam`
unfoldable pub int_param : Request → String → ℤ → Result ℕ ℤ
unfolding param atoi
int_param r key default =
    let v = param key r in if v == "" then ok default else parsed (atoi v) >>= not_negative

-- `splitOperators`
unfoldable pub split_operators : Parsers → String → List String
unfolding parts_of split trim_space
split_operators p s =
    if s == "" || p.equal_fold s "all"
    then []
    else parts_of (λ part. p.to_lower (trim_space part)) (split b',' s)

module _ (m : Math) (s : Server) where
  abbrev in_range : Float64 → Float64 → Result ℕ Point
  unfolding out_of_range
  in_range lat lon =
      require (not (out_of_range m lat lon)) bad_request (ok (record { lat = lat; lon = lon }))

  -- `coords`
  pub coords : String → String → Result ℕ Point
  unfolding out_of_range
  coords lat lon = require (not (lat == "" || lon == "")) bad_request (
      parsed (s.parsers.parse_float lat) >>= λ la.
      parsed (s.parsers.parse_float lon) >>= λ lo. in_range la lo)

  -- `coordsOrDefault`
  abbrev default_or : Option Point → Bool → Result ℕ Point → Result ℕ Point
  default_or none omitted given = given
  default_or (some p) omitted given = if omitted then ok p else given

  pub coords_or_default : String → String → Result ℕ Point
  unfolding coords
  coords_or_default lat lon = default_or s.default_at (lat == "" && lon == "") (coords lat lon)

  abbrev day : ℕ
  day = 86400 * 1000000000

  -- A bound of the window, where the request gives it.
  abbrev pub time_param : String → ℕ → Result ℕ ℕ
  time_param v default = if v == "" then ok default else parsed (s.parse_time v)

  -- `window`
  pub window : ℕ → Request → Result ℕ (String × ℕ × ℕ)
  unfolding param
  window now r = require (not (param "fence" r == "")) bad_request (
      time_param (param "from" r) (now - day) >>= λ from. time_param (param "to" r) now >>= λ to.
      require (ltb from to) bad_request (ok (param "fence" r, from, to)))
