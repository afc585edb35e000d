-- ===== src/Base/Order.antt =====
-- Stable sorting by a `less` function: `sort.SliceStable`, and one of the orders that `sort.Slice`
-- and `ORDER BY` may give to rows that tie.
use Prim.Native.Nat.{suc}
use mathlib.Core.Path.{◌≡◌, refl, ap, ◌∙◌}
use mathlib.Core.Bool.{Bool, true, false, ◌||◌}
use mathlib.Core.List.{List, [], ◌∷◌, map, Perm, Memᴰ}
use mathlib.Core.List.Memᴰ
use mathlib.Core.List.Perm
use native.Mathlib.Omega.{arith}
use mathlib.Core.Logic.{inl, inr}
use scootless.Base.Tests.{if◌then◌else◌, Bool-cases}
use scootless.Base.Lists.{any, All, All-mono, length}

module _ {ℓ} {A : Type ℓ} (less : A → A → Bool) where
  insert_sorted : A → List A → List A
  insert_sorted x [] = x ∷ []
  insert_sorted x (y ∷ ys) = if less y x then y ∷ insert_sorted x ys else x ∷ y ∷ ys

  unfoldable pub sort : List A → List A
  unfolding insert_sorted
  sort [] = []
  sort (x ∷ xs) = insert_sorted x (sort xs)

  -- No element is less than one before it.
  abbrev pub IsSorted : List A → Type 0
  IsSorted [] = Unit
  IsSorted (x ∷ xs) = All (λ y. less y x ≡ false) xs × IsSorted xs

  any-insert_sorted :
      (p : A → Bool) (x : A) (ys : List A) → any p (insert_sorted x ys) ≡ (p x || any p ys)
  unfolding insert_sorted
  any-insert_sorted p x [] = refl
  any-insert_sorted p x (y ∷ ys) = ground (arith, any-insert_sorted p x ys)

  pub any-sort : (p : A → Bool) (xs : List A) → any p (sort xs) ≡ any p xs
  unfolding sort
  any-sort p [] = refl
  any-sort p (x ∷ xs) = ground (arith, any-insert_sorted p x (sort xs), any-sort p xs)

  insert_sorted-perm : (x : A) (ys : List A) → Perm (insert_sorted x ys) (x ∷ ys)
  unfolding insert_sorted
  insert_sorted-perm x [] = Perm.rfl
  insert_sorted-perm x (y ∷ ys) =
      let later = Perm.trans (Perm.cons y (insert_sorted-perm x ys)) (Perm.swap x y ys) in
      ground (arith, later, Perm.refl (x ∷ y ∷ ys))

  pub sort-perm : (xs : List A) → Perm (sort xs) xs
  unfolding sort
  sort-perm [] = Perm.rfl
  sort-perm (x ∷ xs) = Perm.trans (insert_sorted-perm x (sort xs)) (Perm.cons x (sort-perm xs))

  length-insert_sorted : (x : A) (ys : List A) → length (insert_sorted x ys) ≡ suc (length ys)
  unfolding insert_sorted
  length-insert_sorted x [] = refl
  length-insert_sorted x (y ∷ ys) = ground (arith, length-insert_sorted x ys)

  pub length-sort : (xs : List A) → length (sort xs) ≡ length xs
  unfolding sort
  length-sort [] = refl
  length-sort (x ∷ xs) = omega (arith, length-insert_sorted x (sort xs), length-sort xs)

  All-insert_sorted {κ} :
      (P : A → Type κ) (x : A) (ys : List A) → P x → All P ys → All P (insert_sorted x ys)
  unfolding insert_sorted
  All-insert_sorted P x [] px a = (px, tt)
  All-insert_sorted P x (y ∷ ys) px a = ground (arith, All-insert_sorted P x ys px a.1)

  pub All-sort {κ} : (P : A → Type κ) (xs : List A) → All P xs → All P (sort xs)
  unfolding sort
  All-sort P [] a = tt
  All-sort P (x ∷ xs) a = All-insert_sorted P x (sort xs) a.0 (All-sort P xs a.1)

  All-of_insert_sorted {κ} :
      (P : A → Type κ) (x : A) (ys : List A) → All P (insert_sorted x ys) → P x × All P ys
  unfolding insert_sorted
  All-of_insert_sorted P x [] a = a
  All-of_insert_sorted P x (y ∷ ys) a = ground (arith, All-of_insert_sorted P x ys)

  pub All-of_sort {κ} : (P : A → Type κ) (xs : List A) → All P (sort xs) → All P xs
  unfolding sort
  All-of_sort P [] a = tt
  All-of_sort P (x ∷ xs) a =
      let (px, rest) = All-of_insert_sorted P x (sort xs) a in (px, All-of_sort P xs rest)

  Memᴰ-insert_sorted_self : (x : A) (ys : List A) → Memᴰ x (insert_sorted x ys)
  unfolding insert_sorted
  Memᴰ-insert_sorted_self x [] = Memᴰ.head refl
  Memᴰ-insert_sorted_self x (y ∷ ys) = elim (Bool-cases (less y x)) [
    | inl e ↦ rw e (Memᴰ.tail (Memᴰ-insert_sorted_self x ys))
    | inr e ↦ rw e (Memᴰ.head refl)
  ]

  Memᴰ-insert_sorted : (z x : A) (ys : List A) → Memᴰ z ys → Memᴰ z (insert_sorted x ys)
  unfolding insert_sorted
  Memᴰ-insert_sorted z x [] m = absurd (Memᴰ.not-nil m)
  Memᴰ-insert_sorted z x (y ∷ ys) (Memᴰ.head same) = elim (Bool-cases (less y x)) [
    | inl e ↦ rw e (Memᴰ.head same)
    | inr e ↦ rw e (Memᴰ.tail (Memᴰ.head same))
  ]
  Memᴰ-insert_sorted z x (y ∷ ys) (Memᴰ.tail m) = elim (Bool-cases (less y x)) [
    | inl e ↦ rw e (Memᴰ.tail (Memᴰ-insert_sorted z x ys m))
    | inr e ↦ rw e (Memᴰ.tail (Memᴰ.tail m))
  ]

  pub Memᴰ-sort : (z : A) (xs : List A) → Memᴰ z xs → Memᴰ z (sort xs)
  unfolding sort
  Memᴰ-sort z [] m = m
  Memᴰ-sort z (x ∷ xs) (Memᴰ.head e) = rw e (Memᴰ-insert_sorted_self x (sort xs))
  Memᴰ-sort z (x ∷ xs) (Memᴰ.tail m) = Memᴰ-insert_sorted z x (sort xs) (Memᴰ-sort z xs m)

  -- A strict order whose failure is transitive through what `P` holds of.
  pub record IsOrder (P : A → Type 0) : Type ℓ where
    pub asymm : (a b : A) → less a b ≡ true → less b a ≡ false
    pub step : (a b c : A) → P b → less b a ≡ false → less c b ≡ false → less c a ≡ false

  module _ (P : A → Type 0) (o : IsOrder P) where
    insert_sorted-IsSorted :
        (x : A) (ys : List A) → All P ys → IsSorted ys → IsSorted (insert_sorted x ys)
    unfolding insert_sorted
    insert_sorted-IsSorted x [] n s = (tt, tt)
    insert_sorted-IsSorted x (y ∷ ys) n s = ground (
      arith,
      o.asymm y x,
      All-insert_sorted (λ z. less z y ≡ false) x ys,
      insert_sorted-IsSorted x ys n.1 s.1,
      λ (h : less y x ≡ false).
          All-mono (λ z. less z y ≡ false) (λ z. less z x ≡ false) (λ z. o.step x y z n.0 h) ys s.0,
    )

    pub sort-IsSorted : (xs : List A) → All P xs → IsSorted (sort xs)
    unfolding sort
    sort-IsSorted [] n = tt
    sort-IsSorted (x ∷ xs) n =
        insert_sorted-IsSorted x (sort xs) (All-sort P xs n.1) (sort-IsSorted xs n.1)

-- Sorting what is made of elements is sorting the elements by what is made of them.
module _ {ℓ κ} {A : Type ℓ} {B : Type κ} (less : B → B → Bool) (f : A → B) where
  insert_sorted-map :
      (x : A) (ys : List A)
      → insert_sorted less (f x) (map f ys) ≡ map f (insert_sorted (λ a b. less (f a) (f b)) x ys)
  unfolding insert_sorted
  insert_sorted-map x [] = refl
  insert_sorted-map x (y ∷ ys) = elim (Bool-cases (less (f y) (f x))) [
    | inl e ↦ rw e (ap (λ zs. f y ∷ zs) (insert_sorted-map x ys))
    | inr e ↦ rw e refl
  ]

  pub sort-map : (xs : List A) → sort less (map f xs) ≡ map f (sort (λ a b. less (f a) (f b)) xs)
  unfolding sort
  sort-map [] = refl
  sort-map (x ∷ xs) =
      ap (insert_sorted less (f x)) (sort-map xs)
      ∙ insert_sorted-map x (sort (λ a b. less (f a) (f b)) xs)
