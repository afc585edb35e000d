-- ===== src/Store/Samples.antt =====
-- internal/store/store.go and nearest.go: the counts recorded at each tick.
use scootless.Base.{
  ℕ, zero, suc, max, Bool, ◌&&◌, ◌||◌, String, List, [], ◌∷◌, map, Option, none, some, Result, ok,
  require, ◌==◌, string_eq, nat_eq, leb, ltb, keep, any,
}
use scootless.Base.Table.{upsert}
use scootless.Base.Dict.{put}
use scootless.Base.Order.{sort}
use scootless.Store.Schema.{
  Db, SampleRow, StoreError, constraint_failed, may_refer_fence, unix, at_second,
}
use Prim.Native.String.{compare}
use text.Mathlib.Text.{is_lt}

-- The primary key of `sample`.
abbrev pub sample_key : SampleRow → SampleRow → Bool
sample_key r s = r.fence_id == s.fence_id && r.at == s.at && r.operator == s.operator

-- `RecordSample`
unfoldable pub record_sample : String → ℕ → String → ℕ → Db → Result StoreError Db
record_sample fence_id at operator count db =
    let row : SampleRow = record {
      fence_id = fence_id;
      at = unix at;
      operator = operator;
      count = count;
    } in
    require (any (sample_key row) db.samples || may_refer_fence db fence_id) constraint_failed (
      ok (record db {
        samples = upsert (sample_key row) (λ r. record r { count = count }) row db.samples;
      }))

pub record SamplePoint : Type 0 where
  pub at : ℕ
  pub operator : String
  pub count : ℕ

-- `ORDER BY at, operator`, texts by their bytes.
abbrev sample_before : SampleRow → SampleRow → Bool
sample_before r s = ltb r.at s.at || r.at == s.at && is_lt (compare r.operator s.operator)

-- `Samples`: the counts of a fence in [from, to).
unfoldable pub samples : String → ℕ → ℕ → Db → List SamplePoint
unfolding sort
samples fence_id from to db =
    map (λ (r : SampleRow). record { at = at_second r.at; operator = r.operator; count = r.count })
      (sort sample_before (
        keep (λ r. r.fence_id == fence_id && leb (unix from) r.at && ltb r.at (unix to))
          db.samples))

-- `MAX` over a column: no row has none.
unfoldable pub maximum : List ℕ → Option ℕ
maximum [] = none
maximum (n ∷ ns) = elim (maximum ns) [ none ↦ some n | some k ↦ some (max n k) ]

collect_counts : List SampleRow → List (String × ℕ) → List (String × ℕ)
unfolding put
collect_counts [] out = out
collect_counts (r ∷ rows) out = collect_counts rows (put r.operator r.count out)

-- `LatestCounts`. The zero time, for a fence with no samples, is `none`.
unfoldable pub latest_counts : String → Db → List (String × ℕ) × Option ℕ
unfolding maximum collect_counts
latest_counts fence_id db =
    elim (maximum (map (λ (r : SampleRow). r.at) (keep (λ r. r.fence_id == fence_id) db.samples))) [
      | none ↦ ([], none)
      | some zero ↦ ([], none)
      | some (suc n) ↦ (
        collect_counts (keep (λ r. r.fence_id == fence_id && r.at == suc n) db.samples) [],
        some (at_second (suc n)),
      )
    ]
