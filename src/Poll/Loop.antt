-- ===== src/Poll/Loop.antt =====
-- internal/poll/poll.go: `Run`, up to the end of its context.
use scootless.Base.{ℕ, List, [], ◌∷◌, if◌then◌else◌}
use scootless.Base.Int.{ℤ, pos, leb_ℤ}
use scootless.Float.{Math}
use scootless.Poll.Run.{Fetcher, Poller, Run}
use scootless.Poll.Tick.{tick}

-- The interval of the ticker, in nanoseconds.
abbrev ticker_interval : ℤ → ℤ
ticker_interval interval = if leb_ℤ interval (pos 0) then pos 10000000000 else interval

-- One round: a tick, whose error is logged.
unfoldable pub round : Math → Poller → ℕ → Fetcher → Run → Run
unfolding tick
round m p now fetch s = (tick m (record p { fetch = fetch }) now s).1

-- `Run`: a tick at once, and one each time the ticker fires, each at its time and with what the
-- upstream answers then.
unfoldable pub poll_run : Math → Poller → List (ℕ × Fetcher) → Run → Run
unfolding round
poll_run m p [] s = s
poll_run m p ((now, fetch) ∷ rounds) s = poll_run m p rounds (round m p now fetch s)
