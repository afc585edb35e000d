-- ===== src/Store/Columns.antt =====
-- internal/store/watch.go and store.go: how a watch is written into the columns of its row, and read
-- from them.
use scootless.Base.{
  ℕ, ◌≡◌, refl, ap, Bool, true, false, not, String, List, [], Option, none, some, Result, ok, err,
  ◌>>=◌, ◌==◌, string_eq, nat_eq, if◌then◌else◌,
}
use mathlib.Core.Option
use scootless.Base.Int.{ℤ, pos}
use scootless.Store.Schema.{
  Watch, Kind, appearance, scarcity, unknown_kind, State, unset, armed, fired, expired, cancelled,
  unix, at_second,
}
use scootless.Store.Watches.{or_armed, row_of, scan_watch}

-- `json.Marshal` and `json.Unmarshal` of a list of texts; none for an error.
pub record Json : Type 0 where
  pub marshal : List String → Option String
  pub unmarshal : String → Option (List String)

-- The columns of a `watch` as SQLite holds them; `fired_at` and `threshold` can be null.
pub record Columns : Type 0 where
  pub id : String
  pub device : String
  pub kind : String
  pub fence_id : String
  pub operators : String
  pub min_range_m : ℤ
  pub threshold : Option ℤ
  pub baseline : String
  pub repeat : ℕ
  pub state : String
  pub created_at : ℕ
  pub expires_at : ℕ
  pub fired_at : Option ℕ

-- What is wrong with a row or a watch: a list that does not encode or decode.
pub data ColumnError : Type 0 where
  unencodable undecodable : ColumnError

-- `string(w.Kind)` and `Kind(kind)`
abbrev text_of_kind : Kind → String
text_of_kind appearance = "appearance"
text_of_kind scarcity = "scarcity"
text_of_kind (unknown_kind k) = k

abbrev kind_of_text : String → Kind
kind_of_text s =
    if s == "appearance" then appearance else if s == "scarcity" then scarcity else unknown_kind s

-- `string(w.State)`, and `State(state)` on the states that the source names.
abbrev text_of_state : State → String
text_of_state unset = ""
text_of_state armed = "armed"
text_of_state fired = "fired"
text_of_state expired = "expired"
text_of_state cancelled = "cancelled"

abbrev state_of_text : String → State
state_of_text s =
    if s == "armed"
    then armed
    else if s == "fired"
    then fired
    else if s == "expired"
    then expired
    else if s == "cancelled"
    then cancelled
    else unset

-- `boolToInt`
abbrev bool_to_int : Bool → ℕ
bool_to_int true = 1
bool_to_int false = 0

abbrev required : {A : Type 0} → ColumnError → Option A → Result ColumnError A
required e none = err e
required e (some a) = ok a

abbrev or_zero : Option ℤ → ℤ
or_zero none = pos 0
or_zero (some n) = n

module _ (json : Json) where
  -- `jsonStrings`
  abbrev json_strings : List String → Result ColumnError String
  json_strings v = required unencodable (json.marshal v)

  -- `parseStrings`
  abbrev parse_strings : String → Result ColumnError (List String)
  parse_strings s = if s == "" then ok [] else required undecodable (json.unmarshal s)

  -- The columns that `CreateWatch` writes.
  pub write_watch : Watch → Result ColumnError Columns
  write_watch w = do
    ops ← json_strings w.operator_keys
    base ← json_strings w.baseline
    ok (record {
      id = w.id;
      device = w.device;
      kind = text_of_kind w.kind;
      fence_id = w.fence_id;
      operators = ops;
      min_range_m = w.min_range_m;
      threshold = some w.threshold;
      baseline = base;
      repeat = bool_to_int w.repeat;
      state = text_of_state (or_armed w.state);
      created_at = unix w.created_at;
      expires_at = unix w.expires_at;
      fired_at = none;
    })

  -- `scanWatch`
  unfoldable pub read_watch : Columns → Result ColumnError Watch
  read_watch c = do
    ops ← parse_strings c.operators
    base ← parse_strings c.baseline
    ok (record {
      id = c.id;
      device = c.device;
      kind = kind_of_text c.kind;
      fence_id = c.fence_id;
      operator_keys = ops;
      min_range_m = c.min_range_m;
      threshold = or_zero c.threshold;
      baseline = base;
      repeat = not (c.repeat == 0);
      state = state_of_text c.state;
      created_at = at_second c.created_at;
      expires_at = at_second c.expires_at;
      fired_at = Option.map at_second c.fired_at;
    })

  -- The library reads what it wrote for a list, which is not the empty text.
  abbrev pub Reads : List String → Type 0
  Reads v =
      (s : String) × (json.marshal v ≡ some s) × (json.unmarshal s ≡ some v) × ((s == "") ≡ false)

  parse-json_strings :
      (v : List String)
      → Reads v
      → (s : String) × (json_strings v ≡ ok s) × (parse_strings s ≡ ok v)
  parse-json_strings v (s, wrote, reads, full) =
      (s, ap (required unencodable) wrote, rw full (ap (required undecodable) reads))

state-text : (s : State) → state_of_text (text_of_state (or_armed s)) ≡ or_armed s
state-text unset = refl
state-text armed = refl
state-text fired = refl
state-text expired = refl
state-text cancelled = refl

repeat-int : (b : Bool) → not (bool_to_int b == 0) ≡ b
repeat-int true = refl
repeat-int false = refl

-- A watch whose kind reads back as it is written, and whose two lists do, is written to its row and
-- read from it as the watch that was stored: armed where it had no state, with its times in whole
-- seconds and not fired.
pub read-write_watch :
    (json : Json) (w : Watch)
    → Reads json w.operator_keys
    → Reads json w.baseline
    → kind_of_text (text_of_kind w.kind) ≡ w.kind
    → (c : Columns) × (write_watch json w ≡ ok c) × (read_watch json c ≡ ok (scan_watch (row_of w)))
unfolding write_watch read_watch
read-write_watch json w ops base kind =
    let (s, wrote, reads) = parse-json_strings json w.operator_keys ops in
    let (t, wrote_base, reads_base) = parse-json_strings json w.baseline base in
    let c : Columns = record {
      id = w.id;
      device = w.device;
      kind = text_of_kind w.kind;
      fence_id = w.fence_id;
      operators = s;
      min_range_m = w.min_range_m;
      threshold = some w.threshold;
      baseline = t;
      repeat = bool_to_int w.repeat;
      state = text_of_state (or_armed w.state);
      created_at = unix w.created_at;
      expires_at = unix w.expires_at;
      fired_at = none;
    } in
    (
      c,
      rw (wrote, wrote_base) refl,
      rw (reads, reads_base, kind, state-text w.state, repeat-int w.repeat) refl,
    )
