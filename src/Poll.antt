-- ===== src/Poll.antt =====
-- internal/poll/poll.go: the refresh loop, which turns fences and watches into firings and history.
pub mod Select
pub mod Run
pub mod Record
pub mod Evaluate
pub mod Tick
pub mod Loop
pub mod Keeps
pub mod Walk
pub mod Selection
pub mod Firing
pub mod Reached
pub mod Effects
pub mod Passes
pub mod Groups
pub mod Throttle
pub mod Quiet
pub mod Told
pub mod Leads
pub mod Recording
pub mod Aims
pub mod Noted
pub mod Answered
pub mod Serving
pub mod Outcome
pub mod Reports
pub mod Rounds
