-- ===== src/Tests/PromiseRuns.antt =====
-- internal/api with internal/poll: a watch that is armed, and the rounds after it.
use scootless.Base.{String, string_eq, false, List, [], ◌∷◌, ok, err, some}
use scootless.Tests.Data.{spot, scooter, answers, start}
use scootless.Tests.ApiRuns.{request, armed_db}
use scootless.Entur.Operators.{exchange_failed}
use scootless.Entur.Vehicles.{Fetched}
use scootless.Poll.Run.{Fetcher, Run}
use scootless.Http.{Request}
use scootless.Base.Int.{ℤ}
use scootless.Tests.DaemonRuns.{moment, removal}
use scootless.Daemon.{Event, ticked, requested}

-- A scooter that was not there at noon.
abbrev arrived : Fetched
arrived = record {
  vehicles = scooter "YRY:Vehicle:ea777777-c" (spot 1 1) 5 ∷ [];
  returned = 1;
  truncated = false;
}

abbrev reply : Fetcher
reply q = ok arrived

abbrev unreachable : Fetcher
unreachable q = err (exchange_failed "no route")

-- The upstream cannot be reached, and a client asks for the watches.
abbrev waiting : List Event
waiting = ticked 20000000000 unreachable ∷ requested moment (record removal { method = "GET" }) ∷ []

-- After that it answers with what was there before, and the fence is to be removed.
abbrev afterwards : List Event
afterwards = ticked 40000000000 answers ∷ requested moment removal ∷ []

abbrev before : Run
before = record start { db = armed_db }

abbrev numeral : ℤ → String
numeral n = "7"

abbrev posting : Request
posting = record removal { watch_body = some request }
