-- ===== src/Tests.antt =====
-- Each result of the library at a concrete input, on the data of Tests/Data.antt.
mod Data
mod StoreRuns
mod PollRuns
mod OtherRuns
mod ApiRuns
mod DaemonRuns
mod HttpRuns
mod TickRuns
mod CommandRuns
mod PromiseRuns
mod ColumnRuns
