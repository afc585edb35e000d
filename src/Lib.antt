-- ===== src/Lib.antt =====
-- scootless: a verification library beside the Go code.
--
-- The program watches fences (circles on a map) for shared scooters. A poller asks an upstream client
-- for the vehicles around the fences, writes what it saw to an SQLite store, and fires the watches
-- whose condition holds; a board ranks vehicles, and a small command follows single ones.
--
-- The files, and the code that each is about:
--   Base and its children: lists, results, tables, stable sorting, integers, and package strings over
--     lists of characters; nothing of the program.
--   Float: Go's float64 as 64 bits, with the arithmetic and package math as a record of operations
--     that every definition takes as a parameter. Results that order floats assume IsLinear,
--     which IEEE-754 comparison satisfies, and that the values compared are no NaN.
--   Geo: internal/geo/geo.go. Geo/Cover: the covering circle.
--   Entur and its children: internal/entur/entur.go and client.go. The exchange of one request for
--     one reply is a function. Keys, Filters and Requests are proofs.
--   Store and its children: internal/store. Schema, Fences, Watches, Samples, Nearest and Presence
--     hold one function for each method of Store, on a record of tables (Db), with the primary and
--     foreign keys that SQLite checks written out; a statement that fails changes nothing. History
--     is sequences of those calls, in any order that the poller and the handlers make. Its children
--     and Deletion, Held, KeyedRows, Saved, Rows, Lifetime, Dark and Stints are proofs. Columns is the row of
--     a watch as SQLite holds it, with the proof that the rows of the other modules stand for it.
--   Poll and its children: internal/poll/poll.go. Select holds the pure functions, Run the state of
--     a tick and its error monad, Record recordFence and recordNearest, Evaluate the decision and the
--     firing, Tick the whole pass, Loop the rounds of Run. Selection, Firing, Keeps, Walk, Reached,
--     Effects, Passes, Groups, Throttle, Quiet and Told are proofs, and so are the modules on how a
--     tick ends: Leads (the rules), Recording, Aims, Noted, Answered, Serving, Outcome, Reports
--     and, for the rounds of Run, Rounds.
--   Api: the handlers of internal/api/api.go that arm, list and cancel watches and delete a fence, on
--     requests that are already decoded. Resolved, Arming, Calls and Removal are proofs.
--   Http and its children: the rest of internal/api. Http reads parameters, Views holds the types on the
--     wire, Summary the status, Boards the board and its stream, Handlers the other handlers, Routes
--     the ServeMux, and Gate the bearer check and internal/api/cors.go around it. Access, Window,
--     Spoken, Effects, Reads and Arms are proofs.
--   Notify: internal/notify/notify.go and ntfy.go; a sink gives the messages that it sends and its
--     error. Payloads holds what is sent; Fanout and Wire are proofs.
--   Config: internal/config/config.go. Config/Settings: what Load promises.
--   Daemon: cmd/scootlessd/main.go, its start, its sinks, and the ticks and requests that it serves.
--     Daemon/Command: run with its deferred calls, and main. Delivery, Posted, Posts, Life, Closing,
--     Telling, Promise and Phone are proofs.
--   Track, Track/Loop and Track/Command: cmd/scootless-track/main.go. Alternation, Ends and Records are
--     proofs. Board: internal/board/board.go.
--   Tests: every result at a concrete input.
--
-- How the code is read: times are nanoseconds since 1970 in natural numbers, and the store keeps
-- whole seconds. An int is an integer without a bound, save in a duration made from a request,
-- which wraps at 64 bits. A Go map is an association list, in the order of insertion where Go's
-- order is not fixed. A nil pointer is none. Sorting is stable, also where sort.Slice leaves the
-- order of equals open. The queries of a tick run at once in the code and are a function from
-- queries to replies here; the code works on their results in order. There is no fuel: each loop
-- runs over a list, a loop on a ticker over the list of the times at which it fired. json.Marshal, the
-- formatting of numbers, strconv.ParseFloat, time.Parse, time.ParseDuration, strings.ToLower and
-- EqualFold, errors.Join and the random identifiers are parameters. JSON has no NaN and no infinity,
-- so that the results on ticks that tell take a predicate of the charges that can be written, the one
-- number of a payload that is not computed from an int.
-- The daemon's ticks and requests follow one another; the statements of a request between those of a
-- tick are covered by the results on sequences of calls in Store/History.
--
-- Not modelled: I/O errors of the database, save those of opening it and of saving the home fence, most
-- lines of the log, the goroutine of a delivery (the deliveries started are a list), HTTP and MQTT
-- transport, the encoding of JSON and the texts of errors, the parsing of flags and the delivery of
-- signals, since these are calls of other code.
pub mod Base
pub mod Float
pub mod Geo
pub mod Entur
pub mod Store
pub mod Poll
pub mod Api
pub mod Track
pub mod Board
pub mod Config
pub mod Notify
pub mod Http
pub mod Daemon
pub mod Tests
