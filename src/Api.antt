-- ===== src/Api.antt =====
-- internal/api/api.go: the handlers that arm, list and cancel watches and delete fences. A handler
-- takes the decoded request and the tables, and gives the reply and the tables after it.
pub mod Resolved
pub mod Arming
pub mod Calls
pub mod Removal
use Prim.Native.String.{len}
use scootless.Base.{
  ℕ, ◌+◌, ◌*◌, Bool, true, false, not, ◌&&◌, ◌||◌, String, List, [], ◌∷◌, map, Option, none, some,
  Result, ok, err, ◌>>=◌, ◌==◌, string_eq, keep, if◌then◌else◌,
}
use scootless.Base.Int.{ℤ, pos, negsuc, wrap64, scale, leb_ℤ, ltb_ℤ, pos_part}
use scootless.Float.{Float64, Math}
use scootless.Geo.{Point}
use scootless.Entur.Operators.{EnturError, operator_ids}
use scootless.Entur.Vehicles.{Vehicle, Query, Fetched}
use scootless.Store.Schema.{
  Db, Fence, Watch, Kind, appearance, scarcity, unknown_kind, armed, cancelled, StoreError,
  not_found, fence_in_use, no_rows, constraint_failed,
}
use scootless.Store.Fences.{save_fence, fence, delete_fence}
use scootless.Store.Watches.{create_watch, watch, set_state, cancel_armed, armed_watches}
use scootless.Poll.Run.{Fetcher}

-- `createWatchReq`
pub record CreateWatchReq : Type 0 where
  pub device : String
  pub kind : String
  pub fence_id : String
  pub lat : Option Float64
  pub lon : Option Float64
  pub radius_m : ℤ
  pub operators : List String
  pub min_range_m : ℤ
  pub threshold : ℤ
  pub ttl_seconds : ℤ
  pub repeat : Bool

-- A reply: a status alone, a watch, a list of watches, or a number of watches.
pub data Reply : Type 0 where
  status : ℕ → Reply
  created : Watch → Reply
  found : Watch → Reply
  listed : List Watch → Reply
  stopped : ℕ → Reply

-- `strings.TrimSpace(s) == ""` is a parameter of what uses it.
abbrev pub or_default : (String → Bool) → String → String → String
or_default blank s default = if blank s then default else s

-- `DefaultTTL` and `MaxTTL`, in nanoseconds.
abbrev default_ttl : ℕ
default_ttl = 1800 * 1000000000

abbrev pub max_ttl : ℕ
max_ttl = 21600 * 1000000000

-- `time.Duration(seconds) * time.Second`, in 64 bits.
pub duration_of : ℤ → ℤ
unfolding wrap64
duration_of seconds = wrap64 (scale seconds 1000000000)

-- The time to live of a new watch.
unfoldable pub ttl_of : ℤ → ℕ
unfolding duration_of
ttl_of seconds =
    let d = duration_of seconds in
    let ttl = if leb_ℤ d (pos 0) then pos default_ttl else d in
    if ltb_ℤ (pos max_ttl) ttl then max_ttl else pos_part ttl

abbrev pub min_interval : ℤ
min_interval = pos 5000000000

-- `streamInterval`
unfoldable pub stream_interval : ℤ → ℤ
unfolding duration_of
stream_interval seconds =
    let d = duration_of seconds in if ltb_ℤ d min_interval then min_interval else d

-- `store.Kind` of a text.
abbrev kind_of : String → Kind
kind_of k =
    if k == "appearance" then appearance else if k == "scarcity" then scarcity else unknown_kind k

-- The outcome of a handler: a reply, and the tables.
abbrev pub Outcome : Type 0
Outcome = Reply × Db

module _ (m : Math) where
  -- `checkCoords`: whether the coordinates are refused.
  unfoldable pub out_of_range : Float64 → Float64 → Bool
  out_of_range lat lon =
      let negative : ℕ → Float64 = λ n. m.sub (m.decimal 0 0) (m.decimal n 0) in
      m.less lat (negative 90)
      || m.less (m.decimal 90 0) lat
      || m.less lon (negative 180)
      || m.less (m.decimal 180 0) lon

  -- The fence of a position: `randomID` gave its identifier.
  abbrev pub fence_here : String → Float64 → Float64 → ℤ → Fence
  fence_here id lat lon radius_m = record {
    id = id;
    name = "here";
    at = record { lat = lat; lon = lon };
    radius_m = if leb_ℤ radius_m (pos 0) then pos 150 else radius_m;
  }

  abbrev pub at_position : String → Option Float64 → Option Float64 → ℤ → Db → Option (Fence × Db)
  at_position id (some lat) (some lon) radius_m db =
      if out_of_range lat lon
      then none
      else some (fence_here id lat lon radius_m, save_fence (fence_here id lat lon radius_m) db)
  at_position id _ _ radius_m db = none

  abbrev pub known_fence : Result StoreError Fence → Db → Option (Fence × Db)
  known_fence (ok f) db = some (f, db)
  known_fence (err e) db = none

  -- `resolveFence`: each of its errors becomes a 400.
  pub resolve_fence : String → CreateWatchReq → Db → Option (Fence × Db)
  unfolding fence out_of_range save_fence
  resolve_fence id req db =
      if not (req.fence_id == "")
      then known_fence (fence req.fence_id db) db
      else at_position id req.lat req.lon req.radius_m db

  abbrev pub baseline_query : Fence → CreateWatchReq → Query
  baseline_query f req = record {
    at = f.at;
    radius_m = f.radius_m;
    operator_keys = req.operators;
    min_range_m = req.min_range_m;
    form_factors = [];
    include_unrentable = false;
    limit = pos 0;
  }

  module _ (fetch : Fetcher) (blank : String → Bool) (now : ℕ) (fence_random random : String) where
    abbrev pub requested_kind : CreateWatchReq → Kind
    requested_kind req = kind_of (or_default blank req.kind "appearance")

    abbrev pub watch_of : CreateWatchReq → Fence → List Vehicle → Watch
    watch_of req f vs = record {
      id = random;
      device = or_default blank req.device "unknown";
      kind = requested_kind req;
      fence_id = f.id;
      operator_keys = req.operators;
      min_range_m = req.min_range_m;
      threshold = req.threshold;
      baseline = map (λ (v : Vehicle). v.id) vs;
      repeat = req.repeat;
      state = armed;
      created_at = now;
      expires_at = now + ttl_of req.ttl_seconds;
      fired_at = none;
    }

    abbrev pub stored_watch : Watch → Db → Result StoreError Db → Outcome
    stored_watch w db (ok new) = (created w, new)
    stored_watch w db (err e) = (status 500, db)

    -- After the baseline was asked for.
    abbrev pub with_baseline : CreateWatchReq → Fence → Db → Result EnturError Fetched → Outcome
    with_baseline req f db (err e) = (status 502, db)
    with_baseline req f db (ok res) =
        stored_watch (watch_of req f res.vehicles) db
          (create_watch (watch_of req f res.vehicles) db)

    abbrev pub with_fence : CreateWatchReq → Db → Option (Fence × Db) → Outcome
    with_fence req db none = (status 400, db)
    with_fence req db (some (f, new)) = with_baseline req f new (fetch (baseline_query f req))

    abbrev pub with_operators : CreateWatchReq → Db → Result EnturError (List String) → Outcome
    with_operators req db (err e) = (status 400, db)
    with_operators req db (ok ids) = with_fence req db (resolve_fence fence_random req db)

    abbrev pub with_kind : CreateWatchReq → Db → Kind → Outcome
    with_kind req db (unknown_kind k) = (status 400, db)
    with_kind req db appearance = with_operators req db (operator_ids req.operators)
    with_kind req db scarcity = with_operators req db (operator_ids req.operators)

    -- `createWatch`; `none` is a body that does not decode.
    unfoldable pub create_watch_handler : Option CreateWatchReq → Db → Outcome
    unfolding operator_ids resolve_fence create_watch ttl_of
    create_watch_handler none db = (status 400, db)
    create_watch_handler (some req) db = with_kind req db (requested_kind req)

-- What `deleteFence` makes of the store's outcome.
abbrev pub fence_reply : Db → Result StoreError (Bool × Db) → Outcome
fence_reply db (ok (true, new)) = (status 204, new)
fence_reply db (ok (false, new)) = (status 404, new)
fence_reply db (err fence_in_use) = (status 409, db)
fence_reply db (err not_found) = (status 500, db)
fence_reply db (err no_rows) = (status 500, db)
fence_reply db (err constraint_failed) = (status 500, db)

-- `deleteFence`
unfoldable pub delete_fence_handler : String → Db → Outcome
unfolding delete_fence
delete_fence_handler id db =
    if id == "" then (status 400, db) else fence_reply db (delete_fence id db)

-- `listWatches`
unfoldable pub list_watches : String → ℕ → Db → Reply
unfolding armed_watches
list_watches device now db =
    listed (keep (λ (w : Watch). device == "" || w.device == device) (armed_watches now db))

abbrev pub cancel_reply : Db → Result StoreError Db → Outcome
cancel_reply db (ok new) = (status 204, new)
cancel_reply db (err not_found) = (status 404, db)
cancel_reply db (err e) = (status 500, db)

-- `cancelWatch`
unfoldable pub cancel_watch : String → Db → Outcome
unfolding set_state
cancel_watch id db = cancel_reply db (set_state id cancelled db)

-- `cancelAllWatches`
unfoldable pub cancel_all_watches : String → Db → Outcome
unfolding cancel_armed
cancel_all_watches device db = let (n, new) = cancel_armed device db in (stopped n, new)
