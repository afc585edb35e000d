-- ===== src/Store/Dark.antt =====
-- internal/store/nearest.go: which operators `DarkOperators` returns.
use scootless.Base.{
  ℕ, ◌*◌, nat_eq, ltb, leb, if◌then◌else◌, ◌≡◌, refl, Bool, not, ◌&&◌, String, List, [], ◌∷◌, map,
  ◌==◌, string_eq, eq_iff, eq_refl, any, any-keep, any-map, contains-any, keep, contains, arith,
  Bool-cases, inl, inr, ◌∙◌, ap, ◌-◌,
}
use scootless.Base.Table.{Distinct}
use scootless.Base.Order.{sort, any-sort}
use scootless.Base.Int.{ℤ, pos, negsuc}
use scootless.Store.Schema.{Db, NearestRow, unix}
use scootless.Store.Rows.{is_last, any-latest}
use scootless.Store.Nearest.{
  Nearest, nearest_key, has_distance, was_publishing, dark_operators, latest_nearest, or_default,
  default_lookback,
}

abbrev Readings : Type 0
Readings = List (String × Nearest)

factor :
    (pub_of : String → Bool) (op : String) (out : Readings)
    → any (λ (k, n). not (has_distance n.distance_m) && (pub_of k && k == op)) out
      ≡ (any (λ (k, n). not (has_distance n.distance_m) && k == op) out && pub_of op)
factor pub_of op [] = refl
factor pub_of op ((k, n) ∷ out) = elim (Bool-cases (k == op)) [
  | inl hit ↦
      let same : k ≡ op = ground (arith, eq_iff k op) in
      rw (same, eq_refl op) ground (arith, factor pub_of op out)
  | inr miss ↦ rw miss ground (arith, factor pub_of op out)
]

contains-sorted :
    (pub_of : String → Bool) (before : String → String → Bool) (op : String) (out : Readings)
    → contains
        (sort before
          (keep pub_of (map (λ (k, n). k) (keep (λ (k, n). not (has_distance n.distance_m)) out))))
        op
      ≡ (any (λ (k, n). not (has_distance n.distance_m) && k == op) out && pub_of op)
contains-sorted pub_of before op out =
    contains-any _ op
    ∙ any-sort before (λ x. x == op) _
    ∙ any-keep (λ x. x == op) pub_of _
    ∙ any-map (λ ((k, n) : String × Nearest). k) (λ x. pub_of x && x == op) _
    ∙ any-keep (λ ((k, n) : String × Nearest). pub_of k && k == op)
        (λ (k, n). not (has_distance n.distance_m)) out
    ∙ factor pub_of op out

-- The latest readings decide, in the words of the code.
dark_operators-latest :
    (fence_id op : String) (now : ℕ) (lookback : ℤ) (db : Db)
    → let latest = latest_nearest fence_id db in
      contains (dark_operators fence_id now lookback db) op ≡ (
        any (λ (k, n). has_distance n.distance_m) latest
        && (any (λ (k, n). not (has_distance n.distance_m) && k == op) latest
            && was_publishing fence_id (now - or_default default_lookback lookback) db op))
unfolding dark_operators
dark_operators-latest fence_id op now lookback db =
    let latest = latest_nearest fence_id db in
    elim (Bool-cases (any (λ (k, n). has_distance n.distance_m) latest)) [
      | inl lit ↦
          rw (lit, dark_operators)
            (contains-sorted
              (was_publishing fence_id (now - or_default default_lookback lookback) db) _ op latest)
      | inr blank ↦ rw (blank, dark_operators) refl
    ]

-- Where no two rows of the readings have one primary key, an operator is dark at a fence exactly
-- where the fence has a reading with a distance that no later one of its operator follows, it has
-- one of this operator without a distance that none follows, and it has one of this operator with a
-- distance from within the lookback, which is six hours where it is not positive.
pub dark_operators-contains :
    (fence_id op : String) (now : ℕ) (lookback : ℤ) (db : Db)
    → Distinct nearest_key db.nearest
    → let rows = db.nearest in
      let window : ℕ = elim lookback [
        | pos n ↦ if n == 0 then 21600 * 1000000000 else n
        | negsuc n ↦ 21600 * 1000000000
      ] in
      let followed : NearestRow → Bool = λ r.
        any (λ s. (s.fence_id == r.fence_id && s.operator == r.operator) && ltb r.at s.at) rows in
      contains (dark_operators fence_id now lookback db) op ≡ (
        any (λ r. (r.fence_id == fence_id && not (followed r)) && has_distance r.distance_m) rows
        && (any
              (λ r.
                (r.fence_id == fence_id && not (followed r))
                && (not (has_distance r.distance_m) && r.operator == op))
              rows
            && any
                (λ r.
                  r.fence_id == fence_id
                  && r.operator == op
                  && has_distance r.distance_m
                  && leb (unix (now - window)) r.at)
                rows))
dark_operators-contains fence_id op now lookback db d =
    dark_operators-latest fence_id op now lookback db
    ∙ ap
        (λ b.
          b
          && (any (λ (k, n). not (has_distance n.distance_m) && k == op)
                (latest_nearest fence_id db)
              && was_publishing fence_id (now - or_default default_lookback lookback) db op))
        (any-latest fence_id db (λ (k, n). has_distance n.distance_m) d)
    ∙ ap
        (λ b.
          any (λ r. (r.fence_id == fence_id && is_last db.nearest r) && has_distance r.distance_m)
            db.nearest
          && (b && was_publishing fence_id (now - or_default default_lookback lookback) db op))
        (any-latest fence_id db (λ (k, n). not (has_distance n.distance_m) && k == op) d)
