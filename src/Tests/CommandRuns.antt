-- ===== src/Tests/CommandRuns.antt =====
-- cmd/scootless-track and cmd/scootlessd: the results at concrete commands.
use scootless.Base.{
  ℕ, ◌≡◌, ◌≤◌, refl, true, false, List, [], ◌∷◌, ◌++◌, map, none, some, ok, arith, any,
}
use scootless.Base.Int.{pos}
use scootless.Tests.Data.{flat, spot, noon, empty_db}
use scootless.Tests.DaemonRuns.{parsers, settings, env_file, environ, load_test, bus_settings}
use scootless.Entur.Client.{answer}
use scootless.Track.{moved}
use scootless.Track.Loop.{Outcome, time_limit}
use scootless.Track.Command.{Moment, Flags, finished, run, short, emit, Printer, text, exit_status}
use scootless.Track.Ends.{run-ends}
use scootless.Poll.Run.{Report, empty_report}
use scootless.Notify.{Options, Connection, connected, acked}
use scootless.Daemon.Command.{
  Act, waits, stops_signals, closes_store, Switches, cancelled, closers, log_tick,
}
use scootless.Daemon.Command
use scootless.Daemon.Closing.{run-closes, notifies, is_serving, is_shut}

abbrev quiet : ℕ → Moment
quiet t = record { at = t; exchange = λ r. answer [] []; done = t }

abbrev flags : Flags
flags = record { every = pos 10; until = pos 15 }

run-ends_example :
    (o : Outcome) × (run flat parsers flags
        ("v" ∷ [])
        "db"
        env_file
        environ
        0
        (quiet 0 ∷ quiet 10 ∷ quiet 20 ∷ quiet 30 ∷ [])
      ≡ finished o)
    × (o.ending ≡ time_limit)
    × (o.looks ≤ 3)
run-ends_example =
    run-ends flat parsers flags ("v" ∷ []) "db" env_file environ settings 0 9 2
      (quiet 0 ∷ quiet 10 ∷ quiet 20 ∷ quiet 30 ∷ []) (λ e. absurd (ground arith)) load_test refl
      (omega arith, (omega arith, (omega arith, (omega arith, tt)))) (omega arith) (omega arith)

short_test :
    (short "YRY:Vehicle:ea123456-a" ≡ "YRY:Vehicle:ea123456…")
    × (short "YRY:Vehicle:ea123456" ≡ "YRY:Vehicle:ea123456")
    × (short "scooter-of-mine" ≡ "scooter-of-mine")
unfolding short
short_test = (refl, refl, refl)

abbrev printer : Printer
printer = record {
  marshal = λ fields. some "{}";
  show = λ v. elim v [ text s ↦ s | _ ↦ "7" ];
  rfc3339 = λ t. "2025-06-01T12:00:00Z";
  clock = λ t. "12:00:00";
  order = λ fields. fields;
}

emit_test :
    emit flat printer false 0 "YRY:Vehicle:ea123456-a" (moved (spot 1 1) (pos 7))
    ≡ some "12:00:00  moved          YRY:Vehicle:ea123456…  lat=7 lon=7 by_m=7"
unfolding emit
emit_test = refl

no_vehicle_test : exit_status (run flat parsers flags [] "db" env_file environ 0 []) ≡ 1
unfolding run exit_status
no_vehicle_test = refl

abbrev quiet_day : Report
quiet_day = record (empty_report noon) { queries = 1; fences = 1; dark = "ryde" ∷ [] }

log_tick_test :
    map (λ (key, value). key) (log_tick quiet_day)
    ≡ "queries" ∷ "fences" ∷ "arrivals" ∷ "expired" ∷ "fired" ∷ "truncated" ∷ "dark" ∷ []
unfolding log_tick
log_tick_test = refl

-- A daemon with a broker that is there, told to run once.
abbrev once : Switches
once = record { once = true; no_http = false }

abbrev reachable : Options → Connection
reachable o = connected (λ message. acked none)

run-closes_example :
    (front : List Act) × ((Command.run reachable once
        (ok quiet_day)
        cancelled
        (ok (bus_settings, empty_db))).0
      ≡ front ++ (waits ∷ (closers reachable bus_settings ++ (stops_signals ∷ closes_store ∷ []))))
    × (any notifies front ≡ true)
    × (any is_serving front ≡ false)
    × (is_shut false front ≡ true)
run-closes_example =
    run-closes reachable once (ok quiet_day) cancelled (ok (bus_settings, empty_db))
