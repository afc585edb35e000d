-- ===== src/Daemon/Command.antt =====
-- cmd/scootlessd/main.go: `run` from its start to its end as the acts that it does, with its
-- deferred calls, and `main`.
use scootless.Base.{
  ℕ, Bool, String, List, [], ◌∷◌, ◌++◌, Result, ok, err, ltb, length, if◌then◌else◌, ◌==◌,
  string_eq,
}
use scootless.Base.Int.{ℤ}
use scootless.Store.Schema.{Db}
use scootless.Poll.Run.{Report, TickError}
use scootless.Poll.Evaluate.{is_empty}
use scootless.Config.{Config}
use scootless.Notify.{Options, Connection, Mqtt, SinkError, dial}
use scootless.Daemon.{Exit, not_saved, options_of, operator_label}

-- The value of a logged attribute.
pub data Attr : Type 0 where
  count : ℕ → Attr
  amount : ℤ → Attr
  flag : Bool → Attr
  label : String → Attr
  labels : List String → Attr

-- `logTick`, the attributes of its line.
unfoldable pub log_tick : Report → List (String × Attr)
log_tick rep =
    ("queries", count rep.queries)
    ∷ ("fences", count rep.fences)
    ∷ ("arrivals", count rep.arrivals)
    ∷ ("expired", count rep.expired)
    ∷ ("fired", count (length rep.fired))
    ∷ ("truncated", flag rep.truncated)
    ∷ ((if ltb 0 rep.nearest_queries
          then ("nearest_queries", count rep.nearest_queries) ∷ []
          else [])
        ++ (if is_empty rep.dark then [] else ("dark", labels rep.dark) ∷ []))

-- The line that a start logs: the position of the fence is not in it.
pub log_start : Config → List (String × Attr)
unfolding operator_label
log_start c =
    ("db", label c.db_path)
    ∷ ("fence", label "home")
    ∷ ("radius_m", amount c.radius_m)
    ∷ ("interval", amount c.interval)
    ∷ ("operators", label (operator_label c.operator_keys))
    ∷ []

-- The acts of `run`: lines of the log, the tick of `-once`, the poller, the API and what is closed at
-- the end. `waits` is `Poller.Wait`. Lines for debugging and those of `buildSink` and of the API are
-- left out.
pub data Act : Type 0 where
  logs : String → List (String × Attr) → Act
  ticks polls serves_api shuts_down_api waits closes_broker stops_signals closes_store : Act

-- What a call has done, and what it deferred, the last first.
pub record Frame : Type 0 where
  pub acts : List Act
  pub deferred : List Act

abbrev pub act : Act → Frame → Frame
act a fr = record fr { acts = fr.acts ++ (a ∷ []) }

abbrev defer : List Act → Frame → Frame
defer later fr = record fr { deferred = later ++ fr.deferred }

-- A return does what was deferred.
abbrev pub returned : Frame → List Act
returned fr = fr.acts ++ fr.deferred

-- The flags that tell the runs apart.
pub record Switches : Type 0 where
  pub once : Bool
  pub no_http : Bool

-- What `run` returns: nothing, the exit before it polls, or the error of `-once` or of the poller.
pub data Returned : Type 0 where
  fine : Returned
  exited : Exit → Returned
  tick_failed : TickError → Returned
  poll_failed : Returned

-- How the context of the poller ended: by a signal, or otherwise.
pub data Stop : Type 0 where
  cancelled other : Stop

-- The connections that `buildSink` gives back to be closed.
abbrev closers_of : Result SinkError Mqtt → List Act
closers_of (err e) = []
closers_of (ok q) = closes_broker ∷ []

pub closers : (Options → Connection) → Config → List Act
closers connect c = if c.mqtt_broker == "" then [] else closers_of (dial connect (options_of c))

abbrev pub reported : Result TickError Report → Frame → List Act × Returned
reported (ok rep) fr = (returned (act (logs "tick" (log_tick rep)) (act waits fr)), fine)
reported (err e) fr = (returned fr, tick_failed e)

abbrev pub served : Switches → Frame → Frame
served w fr = if w.no_http then fr else defer (shuts_down_api ∷ []) (act serves_api fr)

abbrev pub stopped : Stop → Frame → List Act × Returned
stopped cancelled fr = (returned (act (logs "stopped" []) fr), fine)
stopped other fr = (returned fr, poll_failed)

-- What is deferred as soon as the database is open.
abbrev store_opened : Frame
store_opened =
    defer (stops_signals ∷ []) (defer (closes_store ∷ []) (record { acts = []; deferred = [] }))

module _ (connect : Options → Connection) (w : Switches) (tick_result : Result TickError Report)
    (stop : Stop) where
  -- `run` once the fence is saved. `tick_result` is that of the tick of `-once`.
  unfoldable pub run_open : Config → List Act × Returned
  unfolding log_tick log_start closers
  run_open c =
      let opened : Frame = defer (closers connect c) store_opened in
      let ready : Frame = defer (waits ∷ []) (act (logs "starting" (log_start c)) opened) in
      if w.once
      then reported tick_result (act ticks ready)
      else stopped stop
          (act polls (act (logs "polling; send SIGINT or SIGTERM to stop" []) (served w ready)))

  -- `run`, from what its start came to. Where the fence was not saved, the database is open.
  unfoldable pub run : Result Exit (Config × Db) → List Act × Returned
  unfolding run_open
  run (err not_saved) = (returned store_opened, exited not_saved)
  run (err e) = ([], exited e)
  run (ok (c, db)) = run_open c

-- `main`: the exit status. `canceled` tells whether an error is `context.Canceled`.
unfoldable pub exit_status : (TickError → Bool) → Returned → ℕ
exit_status canceled fine = 0
exit_status canceled (exited e) = 1
exit_status canceled (tick_failed e) = if canceled e then 0 else 1
exit_status canceled poll_failed = 1
