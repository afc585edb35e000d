-- ===== src/Store/Nearest.antt =====
-- internal/store/nearest.go: how far the nearest vehicle of each operator is.
use scootless.Base.{
  ℕ, ◌-◌, ◌*◌, Bool, true, false, not, ◌&&◌, ◌||◌, String, List, [], ◌∷◌, map, Option, none, some,
  Result, ok, require, ◌==◌, string_eq, nat_eq, leb, ltb, keep, any, if◌then◌else◌,
}
use scootless.Base.Int.{ℤ, pos, negsuc}
use scootless.Base.Table.{upsert}
use scootless.Base.Order.{sort}
use scootless.Store.Schema.{
  Db, NearestRow, StoreError, constraint_failed, may_refer_fence, unix, at_second,
}
use scootless.Store.Samples.{maximum}
use scootless.Base.Dict.{put}
use Prim.Native.String.{compare}
use text.Mathlib.Text.{is_lt}

pub record Nearest : Type 0 where
  pub operator : String
  pub at : ℕ
  pub distance_m : Option ℤ
  pub vehicle_id : String

-- The primary key of `nearest`.
abbrev pub nearest_key : NearestRow → NearestRow → Bool
nearest_key r s = r.fence_id == s.fence_id && r.at == s.at && r.operator == s.operator

abbrev or_null : String → Option String
or_null s = if s == "" then none else some s

abbrev or_empty : Option String → String
or_empty none = ""
or_empty (some s) = s

abbrev pub nearest_row : String → ℕ → Nearest → NearestRow
nearest_row fence_id at n = record {
  fence_id = fence_id;
  at = unix at;
  operator = n.operator;
  distance_m = n.distance_m;
  vehicle_id = or_null n.vehicle_id;
}

-- `RecordNearest`
unfoldable pub record_nearest : String → ℕ → Nearest → Db → Result StoreError Db
record_nearest fence_id at n db =
    let row = nearest_row fence_id at n in
    require (any (nearest_key row) db.nearest || may_refer_fence db fence_id) constraint_failed (
      ok (record db {
        nearest =
            upsert (nearest_key row)
              (λ r. record r { distance_m = row.distance_m; vehicle_id = row.vehicle_id }) row
              db.nearest;
      }))

abbrev pub scan_nearest : NearestRow → Nearest
scan_nearest r = record {
  operator = r.operator;
  at = at_second r.at;
  distance_m = r.distance_m;
  vehicle_id = or_empty r.vehicle_id;
}

-- `MAX(at) … GROUP BY operator`, at one operator.
unfoldable pub latest_at : String → String → Db → Option ℕ
unfolding maximum
latest_at fence_id operator db = maximum (
    map (λ (r : NearestRow). r.at)
      (keep (λ r. r.fence_id == fence_id && r.operator == operator) db.nearest))

abbrev pub is_at : ℕ → Option ℕ → Bool
is_at t none = false
is_at t (some s) = t == s

-- A row that the join of `LatestNearest` returns.
abbrev pub is_latest : String → Db → NearestRow → Bool
is_latest fence_id db r = r.fence_id == fence_id && is_at r.at (latest_at fence_id r.operator db)

unfoldable pub collect_nearest : List NearestRow → List (String × Nearest) → List (String × Nearest)
unfolding put
collect_nearest [] out = out
collect_nearest (r ∷ rows) out = collect_nearest rows (put r.operator (scan_nearest r) out)

-- `LatestNearest`
unfoldable pub latest_nearest : String → Db → List (String × Nearest)
unfolding latest_at collect_nearest
latest_nearest fence_id db = collect_nearest (keep (is_latest fence_id db) db.nearest) []

-- `NearestHistory`
unfoldable pub nearest_history : String → String → ℕ → ℕ → Db → List Nearest
unfolding sort
nearest_history fence_id operator from to db = map scan_nearest (
    sort (λ r s. ltb r.at s.at)
      (keep
        (λ r.
          r.fence_id == fence_id
          && r.operator == operator
          && leb (unix from) r.at
          && ltb r.at (unix to))
        db.nearest))

abbrev pub default_lookback : ℕ
default_lookback = 21600 * 1000000000

-- `lookback <= 0` stands for six hours.
abbrev pub or_default : ℕ → ℤ → ℕ
or_default default (pos n) = if n == 0 then default else n
or_default default (negsuc n) = default

abbrev pub has_distance : Option ℤ → Bool
has_distance none = false
has_distance (some d) = true

-- `SELECT COUNT(*)` of the readings with a distance since a time, compared to zero. Before 1970 the
-- difference of the source is negative and admits every row, as zero does.
abbrev pub was_publishing : String → ℕ → Db → String → Bool
was_publishing fence_id since db operator =
    any
      (λ (r : NearestRow).
        r.fence_id == fence_id
        && r.operator == operator
        && has_distance r.distance_m
        && leb (unix since) r.at)
      db.nearest

-- `DarkOperators`
unfoldable pub dark_operators : String → ℕ → ℤ → Db → List String
unfolding latest_nearest sort
dark_operators fence_id now lookback db =
    let latest = latest_nearest fence_id db in
    let since = now - or_default default_lookback lookback in
    let silent : List (String × Nearest) =
      keep (λ (op, n). not (has_distance n.distance_m)) latest in
    if any (λ (op, n). has_distance n.distance_m) latest
    then sort (λ a b. is_lt (compare a b))
        (keep (was_publishing fence_id since db) (map (λ (op, n). op) silent))
    else []
