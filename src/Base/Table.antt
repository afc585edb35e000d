-- ===== src/Base/Table.antt =====
-- The SQL statements that the store issues, over a table as the list of its rows.
use mathlib.Core.Path.{◌≡◌, refl, ◌∙◌}
use mathlib.Core.Bool.{Bool, true, false, not, ◌&&◌, ◌||◌}
use mathlib.Core.List.{List, [], ◌∷◌, ◌++◌, map, Memᴰ}
use mathlib.Core.List.Memᴰ
use mathlib.Core.Option.{Option, none, some}
use native.Mathlib.Omega.{arith}
use mathlib.Core.Logic.{inl, inr}
use scootless.Base.Tests.{if◌then◌else◌, Bool-cases}
use scootless.Base.Lists.{keep, any, any-map, any-append, any_congr, All}

module _ {ℓ} {A : Type ℓ} where
  -- `SELECT … WHERE`, one row.
  abbrev pub find? : (A → Bool) → List A → Option A
  find? hit [] = none
  find? hit (r ∷ rs) = if hit r then some r else find? hit rs

  -- `UPDATE … WHERE`
  abbrev pub update_where : (A → Bool) → (A → A) → List A → List A
  update_where hit change rows = map (λ r. if hit r then change r else r) rows

  -- `DELETE … WHERE`
  abbrev pub delete_where : (A → Bool) → List A → List A
  delete_where hit rows = keep (λ r. not (hit r)) rows

  -- `INSERT … ON CONFLICT DO UPDATE`: `hit` is the conflict on the primary key.
  abbrev pub upsert : (A → Bool) → (A → A) → A → List A → List A
  upsert hit change fresh [] = fresh ∷ []
  upsert hit change fresh (r ∷ rs) = if hit r then change r ∷ rs else r ∷ upsert hit change fresh rs

  -- A primary key: `same` holds of no two rows.
  abbrev pub Distinct : (A → A → Bool) → List A → Type 0
  Distinct same [] = Unit
  Distinct same (r ∷ rs) = (any (same r) rs ≡ false) × Distinct same rs

  any-find? : (hit : A → Bool) (rows : List A) (r : A) → find? hit rows ≡ some r → hit r ≡ true
  any-find? hit [] r e = ground arith
  any-find? hit (x ∷ rows) r e = ground (arith, any-find? hit rows r)

  find?-none : (hit : A → Bool) (rows : List A) → find? hit rows ≡ none → any hit rows ≡ false
  find?-none hit [] e = refl
  find?-none hit (x ∷ rows) e = ground (arith, find?-none hit rows)

  find?-of_any-false :
      (hit : A → Bool) (rows : List A) → any hit rows ≡ false → find? hit rows ≡ none
  find?-of_any-false hit [] e = refl
  find?-of_any-false hit (x ∷ rows) e = ground (arith, find?-of_any-false hit rows)

  find?-update_where :
      (hit : A → Bool) (change : A → A) (rows : List A)
      → ((r : A) → hit r ≡ true → hit (change r) ≡ true)
      → (r : A) → find? hit rows ≡ some r
      → find? hit (update_where hit change rows) ≡ some (change r)
  find?-update_where hit change [] keeps r e = ground arith
  find?-update_where hit change (x ∷ rows) keeps r e =
      ground (arith, keeps x, find?-update_where hit change rows keeps r)

  -- A test that the change does not touch is passed by the same rows.
  pub any-upsert :
      (p hit : A → Bool) (change : A → A) (fresh : A) (rows : List A)
      → ((r : A) → p (change r) ≡ p r)
      → any p (upsert hit change fresh rows) ≡ (any p rows || not (any hit rows) && p fresh)
  any-upsert p hit change fresh [] keeps = ground arith
  any-upsert p hit change fresh (x ∷ rows) keeps =
      ground (arith, keeps x, any-upsert p hit change fresh rows keeps)

  pub Distinct-keep :
      (same : A → A → Bool) (p : A → Bool) (rows : List A)
      → Distinct same rows
      → Distinct same (keep p rows)
  Distinct-keep same p [] d = tt
  Distinct-keep same p (x ∷ rows) d =
      ground (arith, still x rows d.0, Distinct-keep same p rows d.1)
    where
      still : (x : A) (ys : List A) → any (same x) ys ≡ false → any (same x) (keep p ys) ≡ false
      still x = elim [ [] ↦ λ h. refl | y ∷ (ys → ih) ↦ λ h. ground (arith, ih) ]

  -- A change that leaves the key alone leaves the keys distinct.
  pub Distinct-map :
      (same : A → A → Bool) (change : A → A) (rows : List A)
      → ((r s : A) → same (change r) (change s) ≡ same r s)
      → Distinct same rows
      → Distinct same (map change rows)
  Distinct-map same change [] keeps d = tt
  Distinct-map same change (x ∷ rows) keeps d = (
    any-map change (same (change x)) rows
        ∙ any_congr (λ y. same (change x) (change y)) (same x) (keeps x) rows
        ∙ d.0,
    Distinct-map same change rows keeps d.1,
  )

  pub Distinct-upsert :
      (same : A → A → Bool) (change : A → A) (fresh : A) (rows : List A)
      → ((r s : A) → same (change r) s ≡ same r s)
      → ((r s : A) → same r (change s) ≡ same r s)
      → ((r : A) → same r fresh ≡ same fresh r)
      → Distinct same rows
      → Distinct same (upsert (same fresh) change fresh rows)
  Distinct-upsert same change fresh [] left right symm d = (refl, tt)
  Distinct-upsert same change fresh (x ∷ rows) left right symm d = ground (
    arith,
    any_congr (same (change x)) (same x) (left x) rows,
    any-upsert (same x) (same fresh) change fresh rows (right x),
    symm x,
    Distinct-upsert same change fresh rows left right symm d.1,
  )

  pub Distinct-append :
      (same : A → A → Bool) (rows : List A) (x : A)
      → any (λ r. same r x) rows ≡ false
      → Distinct same rows
      → Distinct same (rows ++ x ∷ [])
  Distinct-append same [] x h d = (refl, tt)
  Distinct-append same (r ∷ rows) x h d =
      ground (arith, any-append (same r) rows (x ∷ []), Distinct-append same rows x)

  -- What an update does not touch still holds of every row.
  pub All-update_where {κ} :
      (P : A → Type κ) (hit : A → Bool) (change : A → A)
      → ((r : A) → P r → P (change r))
      → (rows : List A) → All P rows
      → All P (update_where hit change rows)
  All-update_where P hit change keeps [] a = tt
  All-update_where P hit change keeps (r ∷ rows) a =
      (ground (arith, keeps r a.0), All-update_where P hit change keeps rows a.1)

  -- A row that an update does not hit stays.
  pub Memᴰ-update_where :
      (hit : A → Bool) (change : A → A) (r : A) (rows : List A)
      → hit r ≡ false
      → Memᴰ r rows
      → Memᴰ r (update_where hit change rows)
  Memᴰ-update_where hit change r rows miss there =
      let same : r ≡ (if hit r then change r else r) = rw miss refl in
      Memᴰ.cast same (Memᴰ.map (λ r. if hit r then change r else r) there)

  pub All-upsert {κ} :
      (P : A → Type κ) (hit : A → Bool) (change : A → A) (fresh : A)
      → ((r : A) → P r → P (change r))
      → (rows : List A) → (any hit rows ≡ false → P fresh)
      → All P rows
      → All P (upsert hit change fresh rows)
  All-upsert P hit change fresh keeps [] new a = (new refl, tt)
  All-upsert P hit change fresh keeps (r ∷ rows) new a = elim (Bool-cases (hit r)) [
    | inl h ↦ rw h (keeps r a.0, a.1)
    | inr h ↦
        rw h
          (a.0, All-upsert P hit change fresh keeps rows (λ none_hit. new (rw (h, none_hit))) a.1)
  ]
