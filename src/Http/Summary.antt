-- ===== src/Http/Summary.antt =====
-- internal/api/api.go: the handler of `status`, and the sentence of `summarise`.
use scootless.Base.{
  ℕ, zero, suc, Bool, true, false, not, String, ◌<>◌, List, [], ◌∷◌, map, Option, none, some,
  Result, ok, err, is_ok, require, ◌==◌, string_eq, bool_eq, if◌then◌else◌, keep, contains,
}
use scootless.Base.Int.{ℤ, pos}
use scootless.Base.Dict.{get}
use scootless.Base.Order.{sort}
use scootless.Float.{Float64, Math}
use scootless.Entur.Operators.{Operator, operators, operator_ids}
use scootless.Store.Schema.{Db, Fence, StoreError}
use scootless.Store.Fences.{fence}
use scootless.Store.Samples.{latest_counts}
use scootless.Store.Nearest.{Nearest, latest_nearest, dark_operators}
use scootless.Http.{Request, Server, param, split_operators}
use scootless.Http.Views.{FenceJson, fence_of}

-- `entry`
pub record Entry : Type 0 where
  pub text : String
  pub here : Bool
  pub order : Float64

-- An operator that was asked about: all of them where none was named.
abbrev pub wanted : List String → String → Bool
wanted [] key = true
wanted (w ∷ want) key = contains (w ∷ want) key

abbrev pub count_of : Option ℕ → ℕ
count_of none = 0
count_of (some n) = n

-- The reply of `status`.
pub record StatusJson : Type 0 where
  pub fence : FenceJson
  pub at : Option ℕ
  pub counts : List (String × ℕ)
  pub nearest : List (String × Nearest)
  pub feed_dark : List String
  pub summary : String

-- The counts and distances of the operators that were asked about, in the order of the operators.
out_counts : List String → List (String × ℕ) → List Operator → List (String × ℕ)
unfolding get
out_counts want counts [] = []
out_counts want counts (o ∷ os) =
    let rest = out_counts want counts os in
    if wanted want o.key then (o.key, count_of (get o.key counts)) ∷ rest else rest

abbrev with_nearest : String → Option Nearest → List (String × Nearest) → List (String × Nearest)
with_nearest key none out = out
with_nearest key (some n) out = (key, n) ∷ out

out_nearest : List String → List (String × Nearest) → List Operator → List (String × Nearest)
unfolding get
out_nearest want nearest [] = []
out_nearest want nearest (o ∷ os) =
    let rest = out_nearest want nearest os in
    if wanted want o.key then with_nearest o.key (get o.key nearest) rest else rest

-- `%d` is a parameter, as in the notifications.
module _ (m : Math) (whole : ℤ → String) where
  abbrev pub far_entry : Operator → List String → Option ℤ → Entry
  far_entry o dark none = record {
    text =
        if contains dark o.key
        then o.name <> " feed is down - unknown"
        else "no " <> o.name <> " nearby";
    here = false;
    order = m.infinity;
  }
  far_entry o dark (some d) = record {
    text = whole d <> " m to nearest " <> o.name;
    here = false;
    order = m.of_int d;
  }

  abbrev absent_entry : Operator → List String → Option Nearest → Option Entry
  absent_entry o dark none = none
  absent_entry o dark (some near) = some (far_entry o dark near.distance_m)

  -- The entry of one operator.
  abbrev pub entry_of : Operator → List String → ℕ → Option Nearest → Option Entry
  entry_of o dark zero near = absent_entry o dark near
  entry_of o dark (suc n) near = some (record {
    text = whole (pos (suc n)) <> " " <> o.name <> " available";
    here = true;
    order = m.sub (m.decimal 0 0) (m.of_int (pos (suc n)));
  })

  abbrev pub with_entry : Option Entry → List Entry → List Entry
  with_entry none es = es
  with_entry (some e) es = e ∷ es

  -- The loop of `summarise` over the operators.
  unfoldable pub entries :
      List String
      → List (String × ℕ)
      → List (String × Nearest)
      → List String
      → List Operator
      → List Entry
  unfolding get
  entries want counts nearest dark [] = []
  entries want counts nearest dark (o ∷ os) =
      let rest = entries want counts nearest dark os in
      if wanted want o.key
      then with_entry (entry_of o dark (count_of (get o.key counts)) (get o.key nearest)) rest
      else rest

  -- The order of the sentence: what is here first.
  abbrev pub sooner : Entry → Entry → Bool
  sooner a b = if a.here == b.here then m.less a.order b.order else a.here

  -- `strings.Join(parts, ", ")`
  pub join_comma : List String → String
  join_comma [] = ""
  join_comma (x ∷ []) = x
  join_comma (x ∷ y ∷ xs) = x <> ", " <> join_comma (y ∷ xs)

  unfoldable pub sentence : List Entry → String
  unfolding join_comma sort
  sentence [] = "nothing known yet"
  sentence (e ∷ es) = join_comma (map (λ (e : Entry). e.text) (sort sooner (e ∷ es)))

  -- `summarise`
  unfoldable pub summarise :
      List String → List (String × ℕ) → List (String × Nearest) → List String → String
  unfolding entries sentence
  summarise want counts nearest dark = sentence (entries want counts nearest dark operators)

  abbrev status_at :
      String → List String → ℕ → Db → Fence → List (String × ℕ) × Option ℕ → StatusJson
  unfolding latest_nearest dark_operators out_counts out_nearest summarise fence_of
  status_at fence_id want now db f (counts, at) =
      let nearest = latest_nearest fence_id db in
      let shown = keep (wanted want) (dark_operators fence_id now (pos 0) db) in
      record {
        fence = fence_of f;
        at = at;
        counts = out_counts want counts operators;
        nearest = out_nearest want nearest operators;
        feed_dark = shown;
        summary = summarise want counts nearest shown;
      }

  -- `status` after the fence was looked up; an error is a status.
  abbrev status_of_fence : Server → Request → ℕ → Db → Result StoreError Fence → Result ℕ StatusJson
  unfolding split_operators param operator_ids latest_counts
  status_of_fence s r now db (err e) = err 404
  status_of_fence s r now db (ok f) =
      let want = split_operators s.parsers (param "operators" r) in
      require (is_ok (operator_ids want)) 400
        (ok (status_at (param "fence" r) want now db f (latest_counts (param "fence" r) db)))

  -- `status`
  unfoldable pub status_handler : Server → Request → ℕ → Db → Result ℕ StatusJson
  unfolding param fence split_operators operator_ids latest_counts latest_nearest dark_operators
      out_counts out_nearest summarise fence_of
  status_handler s r now db =
      require (not (param "fence" r == "")) 400
        (status_of_fence s r now db (fence (param "fence" r) db))
