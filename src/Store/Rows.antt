-- ===== src/Store/Rows.antt =====
-- internal/store/nearest.go: the latest readings, told from the rows of the table alone.
use mathlib.Core.List.{Memᴰ, append_assoc, append-nil}
use mathlib.Core.List.Memᴰ
use scootless.Base.{
  ℕ, max, ◌≡◌, refl, sym, ap, ◌∙◌, Bool, true, false, not, ◌&&◌, String, List, [], ◌∷◌, ◌++◌, map,
  Option, none, some, ◌==◌, string_eq, nat_eq, eq_iff, eq_refl, ltb, leb, any, any-keep, any-map,
  any-append, keep, All, All-of, All-self, All-keep_of, ◌||◌, arith, Bool-cases, inl, inr,
}
use scootless.Base.Table.{Distinct, Distinct-keep}
use scootless.Base.Dict.{put}
use scootless.Store.Schema.{Db, NearestRow}
use scootless.Store.Samples.{maximum}
use scootless.Store.Nearest.{
  Nearest, nearest_key, latest_nearest, collect_nearest, is_latest, latest_at, scan_nearest, is_at,
}

-- The largest of some numbers is no smaller than any of them.
abbrev is_above : ℕ → Option ℕ → Bool
is_above t none = false
is_above t (some k) = ltb t k

any-above : (t : ℕ) (ns : List ℕ) → any (λ n. ltb t n) ns ≡ is_above t (maximum ns)
unfolding maximum
any-above t [] = refl
any-above t (n ∷ ns) = above (maximum ns) (any-above t ns)
  where
    above :
        (o : Option ℕ)
        → any (λ n. ltb t n) ns ≡ is_above t o
        → any (λ n. ltb t n) (n ∷ ns)
          ≡ is_above t (elim o [ none ↦ some n | some k ↦ some (max n k) ])
    above none e = ground arith
    above (some k) e = ground arith

abbrev IsReached : ℕ → Option ℕ → Type 0
IsReached t none = ⊥
IsReached t (some k) = leb t k ≡ true

maximum-IsReached : (t : ℕ) (ns : List ℕ) → any (λ n. t == n) ns ≡ true → IsReached t (maximum ns)
unfolding maximum
maximum-IsReached t [] h = absurd (ground arith)
maximum-IsReached t (n ∷ ns) h = reached (maximum ns) (maximum-IsReached t ns)
  where
    reached :
        (o : Option ℕ)
        → (any (λ n. t == n) ns ≡ true → IsReached t o)
        → IsReached t (elim o [ none ↦ some n | some k ↦ some (max n k) ])
    reached none k = elim (Bool-cases (t == n)) [
      | inl e ↦ ground arith
      | inr e ↦ absurd (k (ground arith))
    ]
    reached (some j) k = elim (Bool-cases (t == n)) [
      | inl e ↦ ground arith
      | inr e ↦ let low = k (ground arith) in ground arith
    ]

any-at {ℓ} :
    {A : Type ℓ} (p : A → Bool) (x : A) (xs : List A) → Memᴰ x xs → p x ≡ true → any p xs ≡ true
any-at p x [] there h = absurd (Memᴰ.not-nil there)
any-at p x (y ∷ xs) (Memᴰ.head e) h = let same = ap p e in ground arith
any-at p x (y ∷ xs) (Memᴰ.tail there) h = ground (arith, any-at p x xs there h)

is_at-above : (t : ℕ) (o : Option ℕ) → IsReached t o → is_at t o ≡ not (is_above t o)
is_at-above t none h = absurd h
is_at-above t (some k) h = ground arith

-- No reading of the same operator at the same fence is later.
abbrev pub is_last : List NearestRow → NearestRow → Bool
is_last rows r =
    not (any (λ s. (s.fence_id == r.fence_id && s.operator == r.operator) && ltb r.at s.at) rows)

is_latest-last :
    (fence_id : String) (db : Db) (r : NearestRow)
    → Memᴰ r db.nearest
    → is_latest fence_id db r ≡ (r.fence_id == fence_id && is_last db.nearest r)
unfolding latest_at
is_latest-last fence_id db r there = elim (Bool-cases (r.fence_id == fence_id)) [
  | inr e ↦ rw (e, is_latest) refl
  | inl e ↦
      let same : fence_id ≡ r.fence_id = sym ((eq_iff r.fence_id fence_id).0 e) in
      let mine : NearestRow → Bool = λ s. s.fence_id == fence_id && s.operator == r.operator in
      let ats = map (λ (s : NearestRow). s.at) (keep mine db.nearest) in
      let there_too : any (λ n. r.at == n) ats ≡ true =
        any-map (λ (s : NearestRow). s.at) (λ n. r.at == n) (keep mine db.nearest)
        ∙ any-keep (λ (s : NearestRow). r.at == s.at) mine db.nearest
        ∙ any-at (λ s. mine s && r.at == s.at) r db.nearest there
            (ground (arith, eq_refl r.operator)) in
      let later : any (λ n. ltb r.at n) ats ≡ any (λ s. mine s && ltb r.at s.at) db.nearest =
        any-map (λ (s : NearestRow). s.at) (λ n. ltb r.at n) (keep mine db.nearest)
        ∙ any-keep (λ (s : NearestRow). ltb r.at s.at) mine db.nearest in
      ap (λ b. r.fence_id == fence_id && b)
        (is_at-above r.at (maximum ats) (maximum-IsReached r.at ats there_too)
          ∙ ap not (sym (any-above r.at ats) ∙ later)
          ∙ ap
              (λ id. not (
                any (λ s. (s.fence_id == id && s.operator == r.operator) && ltb r.at s.at)
                  db.nearest))
              same)
]

-- Two latest readings of one operator are one row.
at_both : (a b : ℕ) (o : Option ℕ) → is_at a o ≡ true → is_at b o ≡ true → (a == b) ≡ true
at_both a b none h k = absurd (ground arith)
at_both a b (some t) h k = ground arith

latest-other :
    (fence_id : String) (db : Db) (r s : NearestRow)
    → is_latest fence_id db r ≡ true
    → is_latest fence_id db s ≡ true
    → nearest_key r s ≡ false
    → (r.operator == s.operator) ≡ false
latest-other fence_id db r s h k other = elim (Bool-cases (r.operator == s.operator)) [
  | inr e ↦ e
  | inl e ↦
      let same : r.operator ≡ s.operator = (eq_iff r.operator s.operator).0 e in
      let fence_r : (r.fence_id == fence_id) ≡ true = ground arith in
      let fence_s : (s.fence_id == fence_id) ≡ true = ground arith in
      let fences : r.fence_id ≡ s.fence_id =
        (eq_iff r.fence_id fence_id).0 fence_r ∙ sym ((eq_iff s.fence_id fence_id).0 fence_s) in
      let times : (r.at == s.at) ≡ true =
        at_both r.at s.at (latest_at fence_id s.operator db)
          (ap (λ op. is_at r.at (latest_at fence_id op db)) (sym same) ∙ ground arith)
          (ground arith) in
      let one : (r.fence_id == s.fence_id) ≡ true = (eq_iff r.fence_id s.fence_id).1 fences in
      absurd (ground arith)
]

abbrev same_operator : NearestRow → NearestRow → Bool
same_operator r s = r.operator == s.operator

latest-Distinct :
    (fence_id : String) (db : Db) (rows : List NearestRow)
    → All (λ r. is_latest fence_id db r ≡ true) rows
    → Distinct nearest_key rows
    → Distinct same_operator rows
latest-Distinct fence_id db [] a d = tt
latest-Distinct fence_id db (r ∷ rows) (h, a) (fresh, d) =
    (others rows a fresh, latest-Distinct fence_id db rows a d)
  where
    others :
        (xs : List NearestRow)
        → All (λ r. is_latest fence_id db r ≡ true) xs
        → any (nearest_key r) xs ≡ false
        → any (same_operator r) xs ≡ false
    others [] a e = refl
    others (s ∷ xs) (k, a) e =
        let head : nearest_key r s ≡ false = ground arith in
        let tail : any (nearest_key r) xs ≡ false = ground arith in
        ground (arith, latest-other fence_id db r s h k head, others xs a tail)

abbrev reading_of : NearestRow → String × Nearest
reading_of r = (r.operator, scan_nearest r)

put-fresh :
    (k : String) (v : Nearest) (out : List (String × Nearest))
    → any (λ (l, w). l == k) out ≡ false
    → put k v out ≡ out ++ (k, v) ∷ []
unfolding put
put-fresh k v [] h = refl
put-fresh k v ((l, w) ∷ out) h = ground (arith, put-fresh k v out)

-- Rows of distinct operators become one entry each.
collect_nearest-rows :
    (rows : List NearestRow) (out : List (String × Nearest))
    → Distinct same_operator rows
    → All (λ r. any (λ (l, w). l == r.operator) out ≡ false) rows
    → collect_nearest rows out ≡ out ++ map reading_of rows
unfolding collect_nearest
collect_nearest-rows [] out d a = sym (append-nil out)
collect_nearest-rows (r ∷ rows) out (other, d) (fresh, a) =
    ap (collect_nearest rows) (put-fresh r.operator (scan_nearest r) out fresh)
    ∙ collect_nearest-rows rows (out ++ reading_of r ∷ []) d (still rows a other)
    ∙ append_assoc out (reading_of r ∷ []) (map reading_of rows)
  where
    still :
        (xs : List NearestRow)
        → All (λ s. any (λ (l, w). l == s.operator) out ≡ false) xs
        → any (same_operator r) xs ≡ false
        → All (λ s. any (λ (l, w). l == s.operator) (out ++ reading_of r ∷ []) ≡ false) xs
    still [] a e = tt
    still (s ∷ xs) (h, a) e = (
      any-append (λ (l, w). l == s.operator) out (reading_of r ∷ []) ∙ ground arith,
      still xs a (ground arith),
    )

-- Where no two rows have one primary key, `LatestNearest` returns the readings that no other is
-- later than.
latest_nearest-rows :
    (fence_id : String) (db : Db)
    → Distinct nearest_key db.nearest
    → latest_nearest fence_id db ≡ map reading_of (keep (is_latest fence_id db) db.nearest)
unfolding latest_nearest
latest_nearest-rows fence_id db d =
    let rows = keep (is_latest fence_id db) db.nearest in
    collect_nearest-rows rows []
      (latest-Distinct fence_id db rows
        (All-keep_of (λ r. is_latest fence_id db r ≡ true) (is_latest fence_id db) (λ r h. h)
          db.nearest)
        (Distinct-keep nearest_key (is_latest fence_id db) db.nearest d))
      (All-of _ (λ r. refl) rows)

-- A test of the latest readings is one of the rows.
pub any-latest :
    (fence_id : String) (db : Db) (p : String × Nearest → Bool)
    → Distinct nearest_key db.nearest
    → any p (latest_nearest fence_id db)
      ≡ any (λ r. (r.fence_id == fence_id && is_last db.nearest r) && p (reading_of r)) db.nearest
any-latest fence_id db p d =
    ap (any p) (latest_nearest-rows fence_id db d)
    ∙ any-map reading_of p (keep (is_latest fence_id db) db.nearest)
    ∙ any-keep (λ r. p (reading_of r)) (is_latest fence_id db) db.nearest
    ∙ agree db.nearest (All-self db.nearest)
  where
    agree :
        (rows : List NearestRow)
        → All (λ r. Memᴰ r db.nearest) rows
        → any (λ r. is_latest fence_id db r && p (reading_of r)) rows
          ≡ any (λ r. (r.fence_id == fence_id && is_last db.nearest r) && p (reading_of r)) rows
    agree [] a = refl
    agree (r ∷ rows) (there, a) =
        ap
          (λ b.
            b && p (reading_of r) || any (λ r. is_latest fence_id db r && p (reading_of r)) rows)
          (is_latest-last fence_id db r there)
        ∙ ap (λ b. (r.fence_id == fence_id && is_last db.nearest r) && p (reading_of r) || b)
            (agree rows a)
