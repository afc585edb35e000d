-- ===== src/Tests/DaemonRuns.antt =====
-- internal/config, internal/notify and cmd/scootlessd: the results at a concrete configuration.
use scootless.Base.{
  map, ◌≡◌, ◌↔◌, refl, Bool, true, String, List, [], ◌∷◌, ◌++◌, none, some, ok, ◌==◌, string_eq,
  arith, if◌then◌else◌,
}
use scootless.Base.Int.{pos}
use scootless.Tests.Data.{
  flat, whole, spot, home, empty_db, arrival_watch, noon, near_scooter, poller, start, answers,
}
use scootless.Tests.StoreRuns.{watched-HasKeys, watched-HasLinks}
use scootless.Store.Schema.{appearance}
use scootless.Store.Fences.{fence}
use scootless.Store.History.Keys.{HasKeys}
use scootless.Store.History.Links.{HasLinks}
use scootless.Poll.Run.{Notification}
use scootless.Config.{Parsers, Config, EnvFile, content, missing, default_config, load}
use scootless.Config.Settings.{IsValid, load-IsValid, environ_value, load-environment}
use scootless.Notify.{
  Format, SinkError, broker_error, Connection, no_answer, Post, Response, replied, log_sink,
  publish_multi, Sink, Options,
}
use scootless.Notify.Fanout.{publish_multi-delivers}
use scootless.Http.{Request, Server}
use scootless.Http.Routes.{Moment}
use scootless.Daemon.{
  Flags, ticked, requested, prepare, home_fence, server_of, build_sink, delivered, serve,
}
use scootless.Daemon.Posts.{posts_of, tick-posts}
use scootless.Poll.Tick.{tick}
use scootless.Daemon.Posted.{post_for}
use scootless.Daemon.Life.{prepare-home, serve-HasLinks}

-- A few numbers and durations.
abbrev pub parsers : Parsers
parsers = record {
  to_lower = λ s. s;
  equal_fold = λ s t. s == t;
  parse_float = λ s. if s == "1" then some (whole 1) else none;
  parse_duration = λ s. if s == "20" then some (pos 20000000000) else none;
}

abbrev pub env_file : EnvFile
env_file = content (
    "# where" ∷ "SCOOTLESS_LAT=1" ∷ "export SCOOTLESS_RADIUS = \"200\""
    ∷ "SCOOTLESS_NTFY_SERVER=https://ntfy.sh/" ∷ "SCOOTLESS_NTFY_TOPIC=t" ∷ [])

abbrev pub environ : List String
environ = "HOME=/root" ∷ "SCOOTLESS_LON=1" ∷ "SCOOTLESS_RADIUS=300" ∷ "SCOOTLESS_INTERVAL=20" ∷ []

abbrev pub settings : Config
settings = record (default_config "db") {
  home = spot 1 1;
  has_home = true;
  radius_m = pos 300;
  interval = pos 20000000000;
  ntfy_server = "https://ntfy.sh/";
  ntfy_topic = "t";
}

pub load_test : load parsers flat "db" env_file environ ≡ ok settings
unfolding load
load_test = refl

load-IsValid_example : IsValid flat parsers settings
load-IsValid_example = load-IsValid flat parsers "db" env_file environ settings load_test

-- A file whose radius the environment sets again.
load-environment_example :
    load parsers flat "db" (content ("SCOOTLESS_RADIUS=10" ∷ [])) ("SCOOTLESS_RADIUS=300" ∷ [])
    ≡ load parsers flat "db" missing ("SCOOTLESS_RADIUS=300" ∷ [])
unfolding load environ_value
load-environment_example =
    load-environment parsers flat "db" (content ("SCOOTLESS_RADIUS=10" ∷ [])) missing
      ("SCOOTLESS_RADIUS=300" ∷ []) (("SCOOTLESS_RADIUS", "10") ∷ []) [] refl refl
      (λ key e. ground arith)

abbrev pub format : Format
format = record {
  marshal = λ p. some p.watch_id;
  marshal_sample = λ id counts at. some id;
  whole = λ n. "7";
  fixed = λ places f. "7";
}

abbrev pub join : List SinkError → SinkError
join es = broker_error "several"

abbrev pub silent : Options → Connection
silent o = no_answer

abbrev pub down : Post → Response
down post = replied 503

abbrev pub taken : String → Bool
taken url = true

abbrev news : Notification
news = record {
  watch = arrival_watch;
  watch_id = "w1";
  kind = appearance;
  fired_at = noon;
  fence = home;
  count = 1;
  vehicles = near_scooter ∷ [];
}

-- The same settings with a broker.
abbrev pub bus_settings : Config
bus_settings = record settings { mqtt_broker = "tcp://bus:1883" }

pub bus_settings-IsValid : IsValid flat parsers bus_settings
bus_settings-IsValid = record {
  radius = refl;
  priority = (ground arith, ground arith);
  ntfy = refl;
  interval = ground arith;
  home = λ has. refl;
}

tick-posts_example :
    let after = (tick flat poller noon start).1 in
    (posts_of
        (delivered (build_sink flat format join silent taken down bus_settings) after.deliveries)
      ≡ map (post_for flat format bus_settings) after.deliveries)
    × (map (λ (n : Notification). n.watch_id) after.deliveries ≡ [] ++ after.rep.fired)
tick-posts_example =
    tick-posts flat format join silent taken down parsers bus_settings poller noon start
      bus_settings-IsValid refl refl refl

abbrev failing : Sink
failing n = ([], some (broker_error "down"))

publish_multi-delivers_example :
    let all = publish_multi join (some failing ∷ none ∷ some log_sink ∷ []) news in
    let before = publish_multi join (some failing ∷ none ∷ []) news in
    let after = publish_multi join [] news in
    (all.0 ≡ before.0 ++ ((log_sink news).0 ++ after.0))
    × ((all.1 ≡ none) ↔ ((before.1 ≡ none) × ((log_sink news).1 ≡ none) × (after.1 ≡ none)))
publish_multi-delivers_example =
    publish_multi-delivers join (some failing ∷ none ∷ []) [] log_sink news

abbrev flags : Flags
flags = record { db_path = "here" }

prepare-home_example :
    let db = record empty_db { fences = home_fence settings ∷ [] } in
    IsValid flat parsers (record settings { db_path = "here" })
    × (true ≡ true)
    × (fence "home" db ≡ ok (home_fence settings))
unfolding prepare load
prepare-home_example =
    prepare-home parsers flat (λ path. some empty_db) (λ f db. true) flags "db" env_file environ
      (record settings { db_path = "here" })
      (record empty_db { fences = record home { name = "home"; radius_m = pos 300 } ∷ [] }) refl

abbrev pub moment : Moment
moment = record { fetch = answers; now = noon; fence_random = "f1"; random = "w2" }

abbrev pub removal : Request
removal = record {
  method = "DELETE";
  path = "/api/v1/fences/home";
  origin = "";
  preflight_method = "";
  authorization = "Bearer secret";
  query = [];
  watch_body = none;
  fence_body = none;
}

abbrev pub server : Server
server =
    server_of parsers (λ s. none)
      (record settings { api_token = "secret"; allowed_origins = "http://pad" ∷ [] })

serve-HasLinks_example :
    let events = requested moment removal ∷ ticked noon answers ∷ [] in
    let after = serve flat (λ n. "7") poller server events start in
    HasKeys after.db × HasLinks after.db
serve-HasLinks_example =
    serve-HasLinks flat (λ n. "7") poller server
      (requested moment removal ∷ ticked noon answers ∷ []) start watched-HasKeys watched-HasLinks
