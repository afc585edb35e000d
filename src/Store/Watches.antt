-- ===== src/Store/Watches.antt =====
-- internal/store/watch.go: the life of a watch.
use scootless.Base.{
  ℕ, suc, Bool, not, ◌&&◌, String, List, ◌++◌, [], ◌∷◌, map, none, some, Result, ok, err, require,
  ◌==◌, string_eq, leb, ltb, keep, any, count_if, if◌then◌else◌,
}
use mathlib.Core.Option
use scootless.Base.Table.{find?, update_where}
use scootless.Base.Order.{sort}
use scootless.Store.Schema.{
  Db, Watch, WatchRow, EventRow, StoreError, not_found, constraint_failed, State, unset, armed,
  fired, expired, cancelled, is_armed, has_watch, may_refer_fence, may_refer_watch, unix, at_second,
}

abbrev pub or_armed : State → State
or_armed unset = armed
or_armed s = s

-- The row that `CreateWatch` inserts; `fired_at` has no column in the statement.
abbrev pub row_of : Watch → WatchRow
row_of w = record {
  id = w.id;
  device = w.device;
  kind = w.kind;
  fence_id = w.fence_id;
  operators = w.operator_keys;
  min_range_m = w.min_range_m;
  threshold = w.threshold;
  baseline = w.baseline;
  repeat = w.repeat;
  state = or_armed w.state;
  created_at = unix w.created_at;
  expires_at = unix w.expires_at;
  fired_at = none;
}

-- `CreateWatch`
unfoldable pub create_watch : Watch → Db → Result StoreError Db
create_watch w db =
    require (not (has_watch db w.id) && may_refer_fence db w.fence_id) constraint_failed
      (ok (record db { watches = db.watches ++ (row_of w ∷ []) }))

-- `scanWatch`
abbrev pub scan_watch : WatchRow → Watch
scan_watch r = record {
  id = r.id;
  device = r.device;
  kind = r.kind;
  fence_id = r.fence_id;
  operator_keys = r.operators;
  min_range_m = r.min_range_m;
  threshold = r.threshold;
  baseline = r.baseline;
  repeat = r.repeat;
  state = r.state;
  created_at = at_second r.created_at;
  expires_at = at_second r.expires_at;
  fired_at = Option.map at_second r.fired_at;
}

abbrev pub has_id : String → WatchRow → Bool
has_id id r = r.id == id

-- `Watch`
unfoldable pub watch : String → Db → Result StoreError Watch
watch id db = elim (find? (has_id id) db.watches) [
  | none ↦ err not_found
  | some r ↦ ok (scan_watch r)
]

-- `state = 'armed' AND expires_at > now`
abbrev pub is_live : ℕ → WatchRow → Bool
is_live now r = is_armed r.state && ltb (unix now) r.expires_at

-- `ArmedWatches`
unfoldable pub armed_watches : ℕ → Db → List Watch
unfolding sort
armed_watches now db =
    map scan_watch (sort (λ r s. ltb r.created_at s.created_at) (keep (is_live now) db.watches))

-- The rows that `MarkFired` updates, and what it does to them.
abbrev pub can_fire : String → WatchRow → Bool
can_fire id r = r.id == id && is_armed r.state

abbrev pub fire_row : ℕ → WatchRow → WatchRow
fire_row at r = record r { fired_at = some (unix at); state = if r.repeat then r.state else fired }

-- `MarkFired`
unfoldable pub mark_fired : String → ℕ → Db → Result StoreError Db
mark_fired id at db =
    require (any (can_fire id) db.watches) not_found
      (ok (record db { watches = update_where (can_fire id) (fire_row at) db.watches }))

abbrev pub with_state : State → WatchRow → WatchRow
with_state s r = record r { state = s }

-- `SetState`
unfoldable pub set_state : String → State → Db → Result StoreError Db
set_state id s db =
    require (has_watch db id) not_found
      (ok (record db { watches = update_where (has_id id) (with_state s) db.watches }))

-- `state = 'armed' AND expires_at <= now`
abbrev pub is_overdue : ℕ → WatchRow → Bool
is_overdue now r = is_armed r.state && leb r.expires_at (unix now)

-- `ExpireWatches`
unfoldable pub expire_watches : ℕ → Db → ℕ × Db
expire_watches now db = (
  count_if (is_overdue now) db.watches,
  record db { watches = update_where (is_overdue now) (with_state expired) db.watches },
)

-- The empty device stands for all devices.
abbrev pub is_cancellable : String → WatchRow → Bool
is_cancellable device r =
    if device == "" then is_armed r.state else is_armed r.state && r.device == device

-- `CancelArmed`
unfoldable pub cancel_armed : String → Db → ℕ × Db
cancel_armed device db = (
  count_if (is_cancellable device) db.watches,
  record db { watches = update_where (is_cancellable device) (with_state cancelled) db.watches },
)

-- `RecordEvent`
unfoldable pub record_event : String → ℕ → String → Db → Result StoreError Db
record_event watch_id at payload db =
    require (may_refer_watch db watch_id) constraint_failed
      (ok (record db { events = db.events ++ (event ∷ []); next_event = suc db.next_event }))
  where
    event : EventRow
    event = record { id = db.next_event; watch_id = watch_id; at = unix at; payload = payload }

-- `Events`, oldest first; `at` goes back to nanoseconds.
unfoldable pub events : String → Db → List EventRow
unfolding sort
events watch_id db =
    map (λ (e : EventRow). record e { at = at_second e.at })
      (sort (λ d e. ltb d.at e.at) (keep (λ e. e.watch_id == watch_id) db.events))
