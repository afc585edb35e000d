-- ===== src/Http/Boards.antt =====
-- internal/api/api.go: the board and its stream.
use scootless.Base.{
  ℕ, false, not, String, List, [], map, Option, none, some, Result, ok, err, ◌>>=◌, require, is_ok,
  ◌==◌, string_eq, if◌then◌else◌,
}
use scootless.Base.Int.{ℤ, pos, ltb_ℤ}
use scootless.Float.{Math}
use scootless.Geo.{Point}
use scootless.Entur.Operators.{EnturError, operator_ids}
use scootless.Entur.Vehicles.{Query, Fetched}
use scootless.Store.Schema.{Db, Fence, StoreError}
use scootless.Store.Fences.{fence}
use scootless.Poll.Run.{Fetcher}
use scootless.Board.{Prefs, Board, assemble, default_prefs}
use scootless.Api.{stream_interval}
use scootless.Http.{
  Request, Server, param, int_param, split_operators, coords_or_default, bad_request,
}

-- `boardRequest`
pub record BoardRequest : Type 0 where
  pub at : Point
  pub radius_m : ℤ
  pub operators : List String
  pub limit : ℤ

-- The body of a board: the time, and what was assembled.
pub record BoardJson : Type 0 where
  pub at : ℕ
  pub board : Board

-- What the stream sends: a board, or an error that does not end it.
pub data StreamEvent : Type 0 where
  board_event : BoardJson → StreamEvent
  error_event : EnturError → StreamEvent

module _ (m : Math) (s : Server) where
  abbrev fence_radius : ℤ → ℤ
  fence_radius radius_m = if ltb_ℤ (pos 0) radius_m then radius_m else pos 400

  -- The place asked about, and the radius that it has by default.
  abbrev place_of_fence : Result StoreError Fence → Result ℕ (Point × ℤ)
  place_of_fence (ok f) = ok (f.at, fence_radius f.radius_m)
  place_of_fence (err e) = err bad_request

  abbrev board_place : Request → Db → Result ℕ (Point × ℤ)
  unfolding param fence coords_or_default
  board_place r db =
      if not (param "fence" r == "")
      then place_of_fence (fence (param "fence" r) db)
      else coords_or_default m s (param "lat" r) (param "lon" r) >>= λ at. ok (at, pos 400)

  -- `parseBoardRequest`
  parse_board_request : Request → Db → Result ℕ BoardRequest
  unfolding param fence coords_or_default int_param split_operators operator_ids
  parse_board_request r db = board_place r db >>= λ (at, default_radius).
      int_param r "radius" default_radius >>= λ radius_m. int_param r "limit" (pos 5) >>= λ limit.
      let ops = split_operators s.parsers (param "operators" r) in
      require (is_ok (operator_ids ops)) bad_request
        (ok (record { at = at; radius_m = radius_m; operators = ops; limit = limit }))

  abbrev board_query : BoardRequest → Query
  board_query br = record {
    at = br.at;
    radius_m = br.radius_m;
    operator_keys = br.operators;
    min_range_m = pos 0;
    form_factors = [];
    include_unrentable = false;
    limit = pos 0;
  }

  abbrev prefs_or : Option Prefs → Prefs
  unfolding default_prefs
  prefs_or none = default_prefs m
  prefs_or (some p) = p

  abbrev board_of : BoardRequest → ℕ → Fetched → BoardJson
  unfolding assemble default_prefs
  board_of br now res = record {
    at = now;
    board = assemble m res.vehicles (prefs_or s.prefs) br.limit;
  }

  -- `computeBoard`
  compute_board : Fetcher → ℕ → BoardRequest → Result EnturError BoardJson
  unfolding assemble default_prefs
  compute_board fetch now br = fetch (board_query br) >>= λ res. ok (board_of br now res)

  abbrev upstream_failed : Result EnturError BoardJson → Result ℕ BoardJson
  upstream_failed (ok b) = ok b
  upstream_failed (err e) = err 502

  -- `board`
  unfoldable pub board_handler : Fetcher → ℕ → Request → Db → Result ℕ BoardJson
  unfolding parse_board_request compute_board
  board_handler fetch now r db =
      parse_board_request r db >>= λ br. upstream_failed (compute_board fetch now br)

  abbrev stream_event : Result EnturError BoardJson → StreamEvent
  stream_event (ok b) = board_event b
  stream_event (err e) = error_event e

  -- The events of `boardStream`: one at once, and one each time the ticker fires.
  abbrev stream_events : BoardRequest → List (ℕ × Fetcher) → List StreamEvent
  unfolding compute_board
  stream_events br times = map (λ (now, fetch). stream_event (compute_board fetch now br)) times

  -- What `boardStream` refreshes, and how often, in nanoseconds; the connection can be flushed.
  unfoldable pub open_stream : Request → Db → Result ℕ (BoardRequest × ℤ)
  unfolding parse_board_request int_param stream_interval
  open_stream r db = parse_board_request r db >>= λ br.
      int_param r "interval" (pos 10) >>= λ seconds. ok (br, stream_interval seconds)
