-- ===== src/Track/Command.antt =====
-- cmd/scootless-track/main.go: the command itself: what `emit` prints, `run`, and the exit status.
use scootless.Base.{
  ℕ, zero, suc, ◌+◌, ◌-◌, Bool, true, false, String, ◌<>◌, List, [], ◌∷◌, map, Option, none, some,
  Result, ok, err, ◌==◌, string_eq, nat_eq, ltb, if◌then◌else◌,
}
use scootless.Base.Int.{ℤ, pos, negsuc, leb_ℤ}
use scootless.Base.Dict.{put}
use scootless.Base.Text.{or_else}
use scootless.Float.{Float64, Math}
use scootless.Geo.{zero_point}
use scootless.Entur.Vehicles.{Query}
use scootless.Entur.Client.{Exchange, Client, new, by_id}
use scootless.Config.{Config, ConfigError, EnvFile, Parsers, load}
use scootless.Track.{Event, parked, reappeared, moved, vanished}
use scootless.Track.Loop.{Look, Outcome, track_loop}
use Prim.Native.Char.{code}

-- What `extra` holds.
pub data Value : Type 0 where
  number : Float64 → Value
  whole : ℤ → Value
  text : String → Value

abbrev pub Fields : Type 0
Fields = List (String × Value)

-- The fields of each event; none where `Compass` panics.
unfoldable pub extra_of : Math → Event → Option Fields
extra_of m (parked at range_m) = some (
    ("lat", number at.lat)
    ∷ ("lon", number at.lon)
    ∷ ("range_km", number (m.div (m.of_int range_m) (m.decimal 1000 0)))
    ∷ [])
extra_of m (reappeared at moved_m none gone_for_s) = none
extra_of m (reappeared at moved_m (some bearing) gone_for_s) = some (
    ("lat", number at.lat)
    ∷ ("lon", number at.lon)
    ∷ ("moved_m", whole moved_m)
    ∷ ("bearing", text bearing)
    ∷ ("gone_for_s", whole (pos gone_for_s))
    ∷ [])
extra_of m (moved at by_m) =
    some (("lat", number at.lat) ∷ ("lon", number at.lon) ∷ ("by_m", whole by_m) ∷ [])
extra_of m vanished = some (("note", text "in use, or withdrawn") ∷ [])

abbrev pub name_of : Event → String
name_of (parked at range_m) = "parked"
name_of (reappeared at moved_m bearing gone_for_s) = "reappeared"
name_of (moved at by_m) = "moved"
name_of vanished = "vanished"

-- `for k, v := range extra { rec[k] = v }`
put_all : Fields → Fields → Fields
unfolding put
put_all [] out = out
put_all ((k, v) ∷ extra) out = put_all extra (put k v out)

-- The JSON object of an event.
unfoldable pub record_of : String → String → String → Fields → Fields
unfolding put_all
record_of at id event extra =
    put_all extra (("at", text at) ∷ ("vehicle_id", text id) ∷ ("event", text event) ∷ [])

-- What follows the last colon of a text, and whether there is one: `strings.LastIndex` with `":"`.
after_colon : String → Option String
after_colon String.[] = none
after_colon (String.◌∷◌ c s) = elim (after_colon s) [
  | some rest ↦ some rest
  | none ↦ if code c == b':' then some s else none
]

abbrev text_length : String → ℕ
text_length String.[] = 0
text_length (String.◌∷◌ c s) = suc (text_length s)

text_take : ℕ → String → String
text_take zero s = String.[]
text_take (suc n) String.[] = String.[]
text_take (suc n) (String.◌∷◌ c s) = String.◌∷◌ c (text_take n s)

-- `short`, on an identifier whose characters are single bytes: up to eight characters after the
-- last colon, where there are more.
unfoldable pub short : String → String
unfolding after_colon text_take
short id = elim (after_colon id) [
  | none ↦ id
  | some rest ↦
      if ltb 8 (text_length rest)
      then text_take (text_length id - text_length rest + 8) id <> "…"
      else id
]

-- What `emit` needs of the standard library: `json.Marshal` of a record, `%v` of a value, the two
-- formats of a time, and the order in which a map is ranged over.
pub record Printer : Type 0 where
  pub marshal : Fields → Option String
  pub show : Value → String
  pub rfc3339 : ℕ → String
  pub clock : ℕ → String
  pub order : Fields → Fields

-- `%-14s`
abbrev spaces : ℕ → String
spaces zero = ""
spaces (suc n) = " " <> spaces n

abbrev padded : String → String
padded s = s <> spaces (14 - text_length s)

-- `strings.Join` at a space.
abbrev joined : List String → String
joined [] = ""
joined (s ∷ []) = s
joined (s ∷ t ∷ ss) = s <> " " <> joined (t ∷ ss)

-- A line on the standard output, at a time.
abbrev line_of : Printer → Bool → ℕ → String → String → Fields → String
line_of out true now id event extra =
    or_else "" (out.marshal (record_of (out.rfc3339 now) id event extra))
line_of out false now id event extra =
    out.clock now
    <> "  "
    <> padded event
    <> " "
    <> short id
    <> "  "
    <> joined (map (λ (k, v). k <> "=" <> out.show v) (out.order extra))

abbrev printed : Printer → Bool → ℕ → String → String → Option Fields → Option String
printed out json now id event none = none
printed out json now id event (some extra) = some (line_of out json now id event extra)

-- `emit`; no line where the fields cannot be had.
unfoldable pub emit : Math → Printer → Bool → ℕ → String → Event → Option String
unfolding extra_of record_of short
emit m out json now id e = printed out json now id (name_of e) (extra_of m e)

-- The flags `-every` and `-for`, in nanoseconds.
pub record Flags : Type 0 where
  pub every : ℤ
  pub until : ℤ

-- How the command ends: no vehicle was named, the configuration is refused, `time.NewTicker` panics
-- at an interval that is not positive, or the loop ended.
pub data Exit : Type 0 where
  usage : Exit
  bad_config : ConfigError → Exit
  bad_ticker : Exit
  finished : Outcome → Exit

-- `time.Now().Add(*until)`; a time before 1970 counts as 1970.
abbrev pub deadline_of : ℕ → ℤ → ℕ
deadline_of start (pos n) = start + n
deadline_of start (negsuc n) = start - suc n

-- `entur.Query{}`
abbrev no_query : Query
no_query = record {
  at = zero_point;
  radius_m = pos 0;
  operator_keys = [];
  min_range_m = pos 0;
  form_factors = [];
  include_unrentable = false;
  limit = pos 0;
}

-- A round of the loop: when the look is made, what the upstream answers then, and when the events
-- are out.
pub record Moment : Type 0 where
  pub at : ℕ
  pub exchange : Exchange
  pub done : ℕ

module _ (m : Math) (ids : List String) where
  unfoldable pub look_at : Client → Moment → Look
  unfolding by_id
  look_at c w = record { at = w.at; result = by_id m w.exchange c ids no_query; done = w.done }

  -- `run` with a configuration.
  unfoldable pub follow_all : Flags → ℕ → List Moment → Config → Exit
  unfolding new track_loop look_at
  follow_all flags start moments c =
      if leb_ℤ flags.every (pos 0)
      then bad_ticker
      else finished (
          track_loop m zero_point ids (deadline_of start flags.until)
            (map (look_at (new c.client_name)) moments) [])

abbrev pub configured : (Config → Exit) → Result ConfigError Config → Exit
configured next (ok c) = next c
configured next (err e) = bad_config e

-- `run`, on the rounds that there is time for before a signal.
unfoldable pub run :
    Math → Parsers → Flags → List String → String → EnvFile → List String → ℕ → List Moment → Exit
unfolding load follow_all
run m p flags [] default_path file environ start moments = usage
run m p flags (id ∷ ids) default_path file environ start moments =
    configured (follow_all m (id ∷ ids) flags start moments) (load p m default_path file environ)

-- `main`: the exit status; a panic ends a Go program with 2.
unfoldable pub exit_status : Exit → ℕ
exit_status usage = 1
exit_status (bad_config e) = 1
exit_status bad_ticker = 2
exit_status (finished o) = 0
