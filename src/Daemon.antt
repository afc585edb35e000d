-- ===== src/Daemon.antt =====
-- cmd/scootlessd/main.go: the start of the daemon, its sinks, and the life of its database under
-- the poller and the API. Logging, signals and the closing of sinks are left out.
pub mod Delivery
pub mod Posted
pub mod Posts
pub mod Life
pub mod Command
pub mod Closing
pub mod Phone
pub mod Telling
pub mod Promise
use scootless.Base.{
  ℕ, Bool, true, false, not, String, ◌<>◌, List, [], ◌∷◌, ◌++◌, foldl, Option, none, some, Result,
  ok, err, ◌>>=◌, require, ◌==◌, string_eq, if◌then◌else◌,
}
use scootless.Base.Int.{ℤ}
use scootless.Float.{Math}
use scootless.Store.Schema.{Db, Fence}
use scootless.Store.Fences.{save_fence}
use scootless.Poll.Run.{Fetcher, Poller, Notification, Run, Report, TickError}
use scootless.Poll.Tick.{tick}
use scootless.Poll.Loop.{round}
use scootless.Config.{Config, ConfigError, EnvFile, Parsers, load}
use scootless.Notify.{
  Format, Message, Sink, SinkError, Mqtt, Ntfy, Options, Connection, Post, Response, dial,
  publish_fired, publish_ntfy, log_sink, publish_multi,
}
use scootless.Http.{Request, Server}
use scootless.Http.Routes.{Moment}
use scootless.Http.Gate.{handler}

-- The flag that the start depends on.
pub record Flags : Type 0 where
  pub db_path : String

-- How `run` ends before it polls.
pub data Exit : Type 0 where
  bad_config : ConfigError → Exit
  no_location no_database not_saved : Exit

-- The fence built from the configuration.
abbrev pub home_fence : Config → Fence
home_fence c = record { id = "home"; name = "home"; at = c.home; radius_m = c.radius_m }

abbrev pub with_path : Flags → Config → Config
with_path flags c = if flags.db_path == "" then c else record c { db_path = flags.db_path }

abbrev pub loaded : Result ConfigError Config → Result Exit Config
loaded (ok c) = ok c
loaded (err e) = err (bad_config e)

abbrev pub opened : Option Db → Result Exit Db
opened none = err no_database
opened (some db) = ok db

-- `SaveFence` of the home fence. `saves` tells whether SQLite carries the statement out: it does not
-- where the context is cancelled or the database cannot be written.
abbrev fence_saved : (Fence → Db → Bool) → Config → Db → Result Exit (Config × Db)
unfolding save_fence
fence_saved saves c db =
    require (saves (home_fence c) db) not_saved (ok (c, save_fence (home_fence c) db))

module _ (p : Parsers) (m : Math) (open_db : String → Option Db) (saves : Fence → Db → Bool) where
  -- `run` up to the saved fence. `open_db` is `os.MkdirAll` and `store.Open` of a path: the tables
  -- of the file, or none.
  unfoldable pub prepare : Flags → String → EnvFile → List String → Result Exit (Config × Db)
  unfolding load save_fence
  prepare flags default_path file environ =
      loaded (load p m default_path file environ) >>= λ loaded_config.
      let c = with_path flags loaded_config in
      require c.has_home no_location (opened (open_db c.db_path) >>= λ db. fence_saved saves c db)

-- The options of the broker.
abbrev pub options_of : Config → Options
options_of c = record {
  broker = c.mqtt_broker;
  client_id = c.mqtt_client_id;
  username = c.mqtt_username;
  password = c.mqtt_password;
  prefix = c.mqtt_topic;
}

module _ (m : Math) (f : Format) (join : List SinkError → SinkError)
    (connect : Options → Connection) (well_formed : String → Bool) (http : Post → Response) where
  abbrev mqtt_sinks : Result SinkError Mqtt → List (Option Sink)
  mqtt_sinks (err e) = []
  mqtt_sinks (ok q) = some (publish_fired m f q) ∷ []

  -- The broker, unless none is configured or it cannot be reached.
  abbrev pub broker_sinks : Config → List (Option Sink)
  broker_sinks c = if c.mqtt_broker == "" then [] else mqtt_sinks (dial connect (options_of c))

  abbrev pub ntfy_of : Config → Ntfy
  ntfy_of c = record {
    server = c.ntfy_server;
    topic = c.ntfy_topic;
    token = c.ntfy_token;
    priority = c.ntfy_priority;
    well_formed = well_formed;
    http = http;
  }

  abbrev ntfy_sinks : Config → List (Option Sink)
  ntfy_sinks c = if c.ntfy_server == "" then [] else some (publish_ntfy m f (ntfy_of c)) ∷ []

  -- The log, alone or after the others.
  abbrev pub with_log : List (Option Sink) → Sink
  with_log [] = log_sink
  with_log (s ∷ sinks) = publish_multi join ((s ∷ sinks) ++ some log_sink ∷ [])

  -- `buildSink`
  unfoldable pub build_sink : Config → Sink
  build_sink c = with_log (broker_sinks c ++ ntfy_sinks c)

-- The deliveries that `dispatch` started, each to its end; which of them comes first is left open.
pub delivered : Sink → List Notification → List Message
delivered sink [] = []
delivered sink (n ∷ ns) = (sink n).0 ++ delivered sink ns

-- The report of `-once`, or the error of its tick.
unfoldable pub run_once : Math → Poller → ℕ → Run → Result TickError Report
unfolding tick
run_once m p now s = ended (tick m p now s)
  where
    ended : Result TickError (Unit {0}) × Run → Result TickError Report
    ended (ok t, s) = ok s.rep
    ended (err e, s) = err e

-- The API's settings.
abbrev pub server_of : Parsers → (String → Option ℕ) → Config → Server
server_of p parse_time c = record {
  token = c.api_token;
  allowed_origins = c.allowed_origins;
  default_at = if c.has_home then some c.home else none;
  prefs = none;
  parsers = p;
  parse_time = parse_time;
}

-- What happens to the daemon: the ticker fires, or a request comes. The store has one connection,
-- so that the statements of the two come one after another; that a request falls between two
-- statements of a tick is left out.
pub data Event : Type 0 where
  ticked : ℕ → Fetcher → Event
  requested : Moment → Request → Event

module _ (m : Math) (whole : ℤ → String) (p : Poller) (s : Server) where
  unfoldable pub happen : Event → Run → Run
  unfolding round handler
  happen (ticked now fetch) state = round m p now fetch state
  happen (requested w r) state = record state { db = (handler m whole s w r state.db).1.1 }

  -- `run` after the start: the poller in the foreground and the API beside it.
  unfoldable pub serve : List Event → Run → Run
  unfolding happen
  serve [] state = state
  serve (e ∷ events) state = serve events (happen e state)

-- `operatorLabel`
pub operator_label : List String → String
operator_label [] = "all"
operator_label (k ∷ keys) = foldl (λ s k. s <> "," <> k) k keys
