-- ===== src/Store/Schema.antt =====
-- internal/store/schema.go: the tables, and the types of store.go, watch.go, nearest.go and
-- presence.go. A `time.Time` is its nanoseconds since 1970 and is stored in whole seconds; a table
-- is the list of its rows in insertion order.
use scootless.Base.{
  ℕ, ◌*◌, ◌/◌, Bool, true, false, not, ◌||◌, String, List, Option, ◌==◌, string_eq, any,
}
use scootless.Base.Int.{ℤ}
use scootless.Geo.{Point}

abbrev pub second : ℕ
second = 1000000000

-- `t.Unix()` and `time.Unix(s, 0)`
abbrev pub unix : ℕ → ℕ
unix t = t / 1000000000

abbrev pub at_second : ℕ → ℕ
at_second s = s * 1000000000

-- `Kind`, a string with two known values.
pub data Kind : Type 0 where
  appearance : Kind
  scarcity : Kind
  unknown_kind : String → Kind

-- `State`; `unset` is the empty string.
pub data State : Type 0 where
  unset armed fired expired cancelled : State

abbrev pub is_armed : State → Bool
is_armed armed = true
is_armed _ = false

pub record Fence : Type 0 where
  pub id : String
  pub name : String
  pub at : Point
  pub radius_m : ℤ

-- `Watch`
pub record Watch : Type 0 where
  pub id : String
  pub device : String
  pub kind : Kind
  pub fence_id : String
  pub operator_keys : List String
  pub min_range_m : ℤ
  pub threshold : ℤ
  pub baseline : List String
  pub repeat : Bool
  pub state : State
  pub created_at : ℕ
  pub expires_at : ℕ
  pub fired_at : Option ℕ

-- A row of `watch`: the same fields, its three times in seconds.
pub record WatchRow : Type 0 where
  pub id : String
  pub device : String
  pub kind : Kind
  pub fence_id : String
  pub operators : List String
  pub min_range_m : ℤ
  pub threshold : ℤ
  pub baseline : List String
  pub repeat : Bool
  pub state : State
  pub created_at : ℕ
  pub expires_at : ℕ
  pub fired_at : Option ℕ

pub record EventRow : Type 0 where
  pub id : ℕ
  pub watch_id : String
  pub at : ℕ
  pub payload : String

pub record SampleRow : Type 0 where
  pub fence_id : String
  pub at : ℕ
  pub operator : String
  pub count : ℕ

pub record PresenceRow : Type 0 where
  pub fence_id : String
  pub vehicle_id : String
  pub operator : String
  pub first_seen : ℕ
  pub last_seen : ℕ

pub record NearestRow : Type 0 where
  pub fence_id : String
  pub at : ℕ
  pub operator : String
  pub distance_m : Option ℤ
  pub vehicle_id : Option String

-- The database on its one connection: whether that enforces foreign keys, and the tables.
pub record Db : Type 0 where
  pub foreign_keys : Bool
  pub fences : List Fence
  pub watches : List WatchRow
  pub events : List EventRow
  pub next_event : ℕ
  pub samples : List SampleRow
  pub presence : List PresenceRow
  pub nearest : List NearestRow

-- `ErrNotFound`, `sql.ErrNoRows`, `ErrFenceInUse`, and SQLite's refusal of a row by a key
-- constraint.
pub data StoreError : Type 0 where
  not_found no_rows fence_in_use constraint_failed : StoreError

-- `Open` on a new file: `schema` begins by turning the foreign keys on.
unfoldable pub open_new : Db
open_new = record {
  foreign_keys = true;
  fences = List.[];
  watches = List.[];
  events = List.[];
  next_event = 1;
  samples = List.[];
  presence = List.[];
  nearest = List.[];
}

abbrev pub has_fence : Db → String → Bool
has_fence db id = any (λ (f : Fence). f.id == id) db.fences

abbrev pub has_watch : Db → String → Bool
has_watch db id = any (λ (w : WatchRow). w.id == id) db.watches

-- Whether a new row may refer to a fence, or to a watch.
abbrev pub may_refer_fence : Db → String → Bool
may_refer_fence db id = not db.foreign_keys || has_fence db id

abbrev pub may_refer_watch : Db → String → Bool
may_refer_watch db id = not db.foreign_keys || has_watch db id
