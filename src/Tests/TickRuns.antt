-- ===== src/Tests/TickRuns.antt =====
-- internal/poll: how ticks end, at concrete ticks.
use mathlib.Core.List.Memᴰ
use scootless.Base.{String, All, All-of, Option, ok, string_eq, ◌≡◌, ◌≢◌, arith, none, [], ◌∷◌}
use scootless.Base.Int.{pos}
use scootless.Tests.Data.{flat, home, arrival_watch, noon, poller, start}
use scootless.Store.Schema.{unknown_kind}
use scootless.Store.Fences.{fences}
use scootless.Store.Watches.{armed_watches}
use scootless.Poll.Select.{Group, group_fences}
use scootless.Float.{Float64}
use scootless.Entur.Vehicles.{Query, Fetched}
use scootless.Poll.Aims.{IsWritable}
use scootless.Poll.Run.{Fetcher, Notification}
use scootless.Poll.Tick.{tick}
use scootless.Poll.Outcome.{tick-Explained, Explained}

tick-Explained_example :
    Explained flat poller noon
      (armed_watches noon start.db)
      (group_fences flat (fences start.db))
      (tick flat poller noon start).0
tick-Explained_example = tick-Explained flat poller noon start

-- A charge that is known to a percent.
abbrev pub IsFinite : Option Float64 → Type 0
IsFinite o = Unit

pub encodes : (n : Notification) → All (IsWritable IsFinite) n.vehicles → poller.encode n ≢ none
encodes n writable e = absurd (ground arith)

pub All-IsFinite :
    (fetch : Fetcher) (q : Query) (res : Fetched)
    → fetch q ≡ ok res
    → All (IsWritable IsFinite) res.vehicles
All-IsFinite fetch q res e = All-of (IsWritable IsFinite) (λ v. tt) res.vehicles

pub known : (k : String) → arrival_watch.kind ≢ unknown_kind k
known k e = absurd (ground arith)

abbrev pub home_group : Group
home_group = record { at = home.at; radius_m = pos 901; fences = home ∷ [] }
