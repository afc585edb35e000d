-- ===== src/Config.antt =====
-- internal/config/config.go: the settings of the daemon, read from a file and the environment. The
-- half-filled settings that the source returns beside an error are dropped.
pub mod Settings
use scootless.Base.{
  ℕ, Bool, true, false, not, ◌&&◌, ◌||◌, String, ◌<>◌, List, [], ◌∷◌, Option, none, some, Result,
  ok, err, ◌>>=◌, require, ◌==◌, string_eq, nat_eq, bool_eq, if◌then◌else◌,
}
use scootless.Base.Int.{ℤ, pos, negsuc, ltb_ℤ, leb_ℤ}
use scootless.Base.Dict.{put, get}
use scootless.Base.Text.{
  trim, trim_right, trim_space, after_prefix, has_prefix, trim_prefix, cut, split, atoi, or_else,
}
use scootless.Float.{Float64, Math}
use scootless.Geo.{Point, zero_point}
use Prim.Native.Char.{Char, code}

-- What the settings need of the standard library: `strings.ToLower`, `strings.EqualFold`,
-- `strconv.ParseFloat` and `time.ParseDuration`, none for an error.
pub record Parsers : Type 0 where
  pub to_lower : String → String
  pub equal_fold : String → String → Bool
  pub parse_float : String → Option Float64
  pub parse_duration : String → Option ℤ

pub record Config : Type 0 where
  pub home : Point
  pub has_home : Bool
  pub radius_m : ℤ
  pub threshold : ℤ
  pub operator_keys : List String
  pub client_name : String
  pub db_path : String
  pub interval : ℤ
  pub http_addr : String
  pub api_token : String
  pub allowed_origins : List String
  pub ntfy_server : String
  pub ntfy_topic : String
  pub ntfy_token : String
  pub ntfy_priority : ℤ
  pub mqtt_broker : String
  pub mqtt_topic : String
  pub mqtt_client_id : String
  pub mqtt_username : String
  pub mqtt_password : String

-- The errors of `apply` and of reading the file.
pub data ConfigError : Type 0 where
  bad_number : String → ConfigError
  out_of_range half_coordinate interval_too_short : ConfigError
  radius_not_positive half_ntfy bad_priority unreadable : ConfigError

abbrev pub Values : Type 0
Values = List (String × String)

-- `poll.DefaultInterval` and `poll.MinInterval`, in nanoseconds.
abbrev default_interval : ℤ
default_interval = pos 10000000000

abbrev pub min_interval : ℤ
min_interval = pos 5000000000

-- `Default`; `defaultDBPath` gave the path.
abbrev pub default_config : String → Config
default_config db_path = record {
  home = zero_point;
  has_home = false;
  radius_m = pos 150;
  threshold = pos 3;
  operator_keys = [];
  client_name = "scootless";
  db_path = db_path;
  interval = default_interval;
  http_addr = "127.0.0.1:8099";
  api_token = "";
  allowed_origins = [];
  ntfy_server = "";
  ntfy_topic = "";
  ntfy_token = "";
  ntfy_priority = pos 0;
  mqtt_broker = "";
  mqtt_topic = "scootless";
  mqtt_client_id = "scootless";
  mqtt_username = "";
  mqtt_password = "";
}

-- `v[key]`
abbrev pub Lookup : Type 0
Lookup = String → Option String

abbrev when_set : String → Option String
when_set s = if s == "" then none else some s

-- `nonEmpty`
pub non_empty : Lookup → String → Option String
unfolding trim_space
non_empty v key = when_set (trim_space (or_else "" (v key)))

-- `strVal`: the old setting where the key is not set.
abbrev str_val : Lookup → String → String → String
str_val v key old = or_else old (non_empty v key)

-- `intVal`
abbrev int_of : String → ℤ → Option String → Result ConfigError ℤ
int_of key old none = ok old
int_of key old (some s) = elim (atoi s) [ none ↦ err (bad_number key) | some n ↦ ok n ]

abbrev pub int_val : Lookup → String → ℤ → Result ConfigError ℤ
int_val v key old = int_of key old (non_empty v key)

-- The loops of `parseOperators` and `parseOrigins` over the parts.
unfoldable pub parts_of : (String → String) → List String → List String
parts_of clean [] = []
parts_of clean (part ∷ parts) =
    let rest = parts_of clean parts in if clean part == "" then rest else clean part ∷ rest

abbrev is_slash : Char → Bool
is_slash c = code c == b'/'

-- `parseOrigins`
unfoldable pub parse_origins : String → List String
unfolding parts_of split trim_right trim_space
parse_origins s = parts_of (λ part. trim_right is_slash (trim_space part)) (split b',' s)

module _ (p : Parsers) where
  -- `parseOperators`
  unfoldable pub parse_operators : String → List String
  unfolding parts_of split trim_space
  parse_operators s =
      if p.equal_fold (trim_space s) "all"
      then []
      else parts_of (λ part. p.to_lower (trim_space part)) (split b',' s)

  abbrev list_val : (String → List String) → List String → Option String → List String
  list_val parse old none = old
  list_val parse old (some s) = parse s

  abbrev pub long_enough : Option ℤ → Result ConfigError ℤ
  long_enough none = err (bad_number "SCOOTLESS_INTERVAL")
  long_enough (some d) = require (not (ltb_ℤ d min_interval)) interval_too_short (ok d)

  abbrev pub interval_of : ℤ → Option String → Result ConfigError ℤ
  interval_of old none = ok old
  interval_of old (some s) = long_enough (p.parse_duration s)

  module _ (m : Math) where
    abbrev pub outside : Float64 → Float64 → Bool
    outside lat lon =
        let negative : ℕ → Float64 = λ n. m.sub (m.decimal 0 0) (m.decimal n 0) in
        m.less lat (negative 90)
        || m.less (m.decimal 90 0) lat
        || m.less lon (negative 180)
        || m.less (m.decimal 180 0) lon

    abbrev located : Float64 → Float64 → Config → Result ConfigError Config
    located lat lon c =
        require (not (outside lat lon)) out_of_range
          (ok (record c { home = record { lat = lat; lon = lon }; has_home = true }))

    abbrev pub home_at : Option Float64 → Option Float64 → Config → Result ConfigError Config
    home_at none lon c = err (bad_number "SCOOTLESS_LAT")
    home_at (some lat) none c = err (bad_number "SCOOTLESS_LON")
    home_at (some lat) (some lon) c = located lat lon c

    -- The first step of `apply`, on the two settings as they stand.
    abbrev pub home_of : Option String → Option String → Config → Result ConfigError Config
    home_of (some lat) (some lon) c =
        home_at (p.parse_float (trim_space lat)) (p.parse_float (trim_space lon)) c
    home_of none none c = ok c
    home_of (some lat) none c = err half_coordinate
    home_of none (some lon) c = err half_coordinate

    -- The three whole numbers, in the order of `apply`; nothing between them can fail.
    abbrev pub numbers : Lookup → Config → Result ConfigError Config
    numbers v c = int_val v "SCOOTLESS_RADIUS" c.radius_m >>= λ radius_m.
        int_val v "SCOOTLESS_THRESHOLD" c.threshold >>= λ threshold.
        int_val v "SCOOTLESS_NTFY_PRIORITY" c.ntfy_priority >>= λ priority.
        ok (record c { radius_m = radius_m; threshold = threshold; ntfy_priority = priority })

    -- The texts and lists, none of which fails.
    abbrev pub texts : Lookup → Config → Config
    texts v c = record c {
      operator_keys = list_val parse_operators c.operator_keys (non_empty v "SCOOTLESS_OPERATOR");
      client_name = str_val v "SCOOTLESS_CLIENT_NAME" c.client_name;
      db_path = str_val v "SCOOTLESS_DB" c.db_path;
      http_addr = str_val v "SCOOTLESS_HTTP_ADDR" c.http_addr;
      api_token = str_val v "SCOOTLESS_API_TOKEN" c.api_token;
      allowed_origins =
          list_val parse_origins c.allowed_origins (non_empty v "SCOOTLESS_ALLOWED_ORIGINS");
      ntfy_server = str_val v "SCOOTLESS_NTFY_SERVER" c.ntfy_server;
      ntfy_topic = str_val v "SCOOTLESS_NTFY_TOPIC" c.ntfy_topic;
      ntfy_token = str_val v "SCOOTLESS_NTFY_TOKEN" c.ntfy_token;
      mqtt_broker = str_val v "SCOOTLESS_MQTT_BROKER" c.mqtt_broker;
      mqtt_topic = str_val v "SCOOTLESS_MQTT_TOPIC" c.mqtt_topic;
      mqtt_client_id = str_val v "SCOOTLESS_MQTT_CLIENT_ID" c.mqtt_client_id;
      mqtt_username = str_val v "SCOOTLESS_MQTT_USERNAME" c.mqtt_username;
      mqtt_password = str_val v "SCOOTLESS_MQTT_PASSWORD" c.mqtt_password;
    }

    -- The checks at the end of `apply`.
    pub checked : Config → Result ConfigError Config
    checked c = require (not (leb_ℤ c.radius_m (pos 0))) radius_not_positive (
        require ((c.ntfy_server == "") == (c.ntfy_topic == "")) half_ntfy (
          require (not (ltb_ℤ c.ntfy_priority (pos 0) || ltb_ℤ (pos 5) c.ntfy_priority))
            bad_priority (ok c)))

    -- `apply`
    unfoldable pub apply : Lookup → Config → Result ConfigError Config
    unfolding checked non_empty parse_operators parse_origins atoi trim_space
    apply v c = home_of (v "SCOOTLESS_LAT") (v "SCOOTLESS_LON") c >>= λ c. numbers v c >>= λ c.
        interval_of c.interval (non_empty v "SCOOTLESS_INTERVAL") >>= λ interval.
        checked (texts v (record c { interval = interval }))

-- A line of the file, trimmed: none for a comment or one without `=`.
abbrev is_quote : Char → Bool
is_quote c = code c == b'"' || code c == 39

line_setting : String → Option (String × String)
unfolding trim_space trim has_prefix trim_prefix cut
line_setting raw =
    let line = trim_space raw in
    if line == "" || has_prefix line "#"
    then none
    else setting (cut b'=' (trim_prefix line "export "))
  where
    setting : Option (String × String) → Option (String × String)
    setting none = none
    setting (some (k, v)) = some (trim_space k, trim is_quote (trim_space v))

-- `out[k] = v`, where there is one.
abbrev pub put_setting : Option (String × String) → Values → Values
put_setting none out = out
put_setting (some (k, v)) out = put k v out

-- The lines of the file that could be opened: `readEnvFile`'s loop.
read_lines : List String → Values → Values
unfolding line_setting put
read_lines [] out = out
read_lines (line ∷ lines) out = read_lines lines (put_setting (line_setting line) out)

-- A file: it is missing, cannot be read, or has lines.
pub data EnvFile : Type 0 where
  missing broken : EnvFile
  content : List String → EnvFile

-- `readEnvFile`
unfoldable pub read_env_file : EnvFile → Result ConfigError Values
unfolding read_lines
read_env_file missing = ok []
read_env_file broken = err unreadable
read_env_file (content ls) = ok (read_lines ls [])

-- `KEY=value` of `os.Environ`, where the key is one of ours.
unfoldable pub environ_setting : String → Option (String × String)
unfolding cut has_prefix
environ_setting kv = ours (cut b'=' kv)
  where
    ours : Option (String × String) → Option (String × String)
    ours none = none
    ours (some (k, v)) = if has_prefix k "SCOOTLESS_" then some (k, v) else none

-- The loop of `Load` over `os.Environ`.
unfoldable pub overlay : List String → Values → Values
unfolding environ_setting put
overlay [] values = values
overlay (kv ∷ environ) values = overlay environ (put_setting (environ_setting kv) values)

-- `Load`
unfoldable pub load : Parsers → Math → String → EnvFile → List String → Result ConfigError Config
unfolding read_env_file overlay apply get
load p m db_path file environ = read_env_file file >>= λ values.
    apply p m (λ key. get key (overlay environ values)) (default_config db_path)
