-- ===== src/Http/Spoken.antt =====
-- The order in which a status speaks of the operators: internal/api/api.go, told from the counts and
-- the distances.
use mathlib.Core.List.{Perm}
use scootless.Base.{
  ℕ, zero, suc, ◌≡◌, refl, ap, ◌∙◌, Bool, true, false, String, ◌<>◌, List, [], ◌∷◌, map, Option,
  none, some, string_eq, bool_eq, arith, All, All-of, ltb, leb, contains, if◌then◌else◌, Bool-cases,
  inl, inr,
}
use scootless.Base.Int.{ℤ, pos, ltb_ℤ, negsuc}
use scootless.Base.Dict.{get}
use scootless.Base.Order.{sort, sort-map, IsSorted, IsOrder, sort-IsSorted, sort-perm, All-sort}
use scootless.Float.{Math, IsLinear, IsNumber}
use scootless.Entur.Operators.{Operator, operators}
use scootless.Store.Nearest.{Nearest}
use scootless.Http.Summary.{
  Entry, wanted, count_of, entry_of, with_entry, entries, sooner, summarise, sentence, join_comma,
}

-- How an operator stands: so many vehicles are here, the nearest is so far away, or none is known.
pub data Standing : Type 0 where
  here : ℕ → Standing
  away : ℤ → Standing
  unseen : Standing

abbrev distance_of : Option ℤ → Standing
distance_of none = unseen
distance_of (some d) = away d

abbrev standing_of : ℕ → Option Nearest → Option Standing
standing_of zero none = none
standing_of zero (some near) = some (distance_of near.distance_m)
standing_of (suc n) near = some (here (suc n))

abbrev with_standing :
    Operator → Option Standing → List (Operator × Standing) → List (Operator × Standing)
with_standing o none rest = rest
with_standing o (some s) rest = (o, s) ∷ rest

-- The operators that were asked about and of which something is known.
unfoldable pub standings :
    List String
    → List (String × ℕ)
    → List (String × Nearest)
    → List Operator
    → List (Operator × Standing)
unfolding get
standings want counts nearest [] = []
standings want counts nearest (o ∷ os) =
    let rest = standings want counts nearest os in
    if wanted want o.key
    then with_standing o (standing_of (count_of (get o.key counts)) (get o.key nearest)) rest
    else rest

-- One may be spoken of before another.
abbrev pub MaySpeak : Operator × Standing → Operator × Standing → Type 0
MaySpeak (o, here n) (p, here k) = ltb n k ≡ false
MaySpeak (o, here n) (p, _) = Unit
MaySpeak (o, away d) (p, here k) = ⊥
MaySpeak (o, away d) (p, away e) = ltb_ℤ e d ≡ false
MaySpeak (o, away d) (p, unseen) = Unit
MaySpeak (o, unseen) (p, unseen) = Unit
MaySpeak (o, unseen) (p, _) = ⊥

abbrev pub IsSpoken : List (Operator × Standing) → Type 0
IsSpoken [] = Unit
IsSpoken (x ∷ xs) = All (MaySpeak x) xs × IsSpoken xs

-- What is said of an operator.
abbrev pub phrase : (ℤ → String) → List String → Operator × Standing → String
phrase whole dark (o, here n) = whole (pos n) <> " " <> o.name <> " available"
phrase whole dark (o, away d) = whole d <> " m to nearest " <> o.name
phrase whole dark (o, unseen) =
    if contains dark o.key
    then o.name <> " feed is down - unknown"
    else "no " <> o.name <> " nearby"

abbrev pub said :
    (ℤ → String)
    → Math
    → List String
    → List (Operator × Standing)
    → List (Operator × Standing)
    → String
said whole m dark [] ordered = "nothing known yet"
said whole m dark (x ∷ xs) ordered = join_comma m whole (map (phrase whole dark) ordered)

-- Integers up to 2 ^ 53, which a float holds exactly, keep their order as floats, and are numbers.
abbrev pub IsSmall : ℤ → Type 0
IsSmall (pos n) = leb n 9007199254740992 ≡ true
IsSmall (negsuc n) = ltb n 9007199254740992 ≡ true

abbrev pub IsHeld : Operator × Standing → Type 0
IsHeld (o, here n) = IsSmall (pos n)
IsHeld (o, away d) = IsSmall d
IsHeld (o, unseen) = Unit

pub record IsFaithful (m : Math) : Type 0 where
  pub whole_number : (n : ℤ) → IsNumber m (m.of_int n)
  pub minus_number : (n : ℤ) → IsNumber m (m.sub (m.decimal 0 0) (m.of_int n))
  pub infinity_number : IsNumber m m.infinity
  pub whole_less :
      (a b : ℤ) → IsSmall a → IsSmall b → ltb_ℤ a b ≡ true → m.less (m.of_int a) (m.of_int b) ≡ true
  pub minus_less :
      (a b : ℤ)
      → IsSmall a
      → IsSmall b
      → ltb_ℤ a b ≡ true
      → m.less (m.sub (m.decimal 0 0) (m.of_int b)) (m.sub (m.decimal 0 0) (m.of_int a)) ≡ true
  pub below_infinity : (a : ℤ) → IsSmall a → m.less (m.of_int a) m.infinity ≡ true

module _ (m : Math) (whole : ℤ → String) (dark : List String) where
  abbrev entry_for : Operator × Standing → Entry
  entry_for (o, here n) = record {
    text = phrase whole dark (o, here n);
    here = true;
    order = m.sub (m.decimal 0 0) (m.of_int (pos n));
  }
  entry_for (o, away d) = record {
    text = phrase whole dark (o, away d);
    here = false;
    order = m.of_int d;
  }
  entry_for (o, unseen) = record {
    text = phrase whole dark (o, unseen);
    here = false;
    order = m.infinity;
  }

  with_entry-standing :
      (o : Operator) (n : ℕ) (near : Option Nearest) (rest : List (Operator × Standing))
      → with_entry m whole (entry_of m whole o dark n near) (map entry_for rest)
        ≡ map entry_for (with_standing o (standing_of n near) rest)
  with_entry-standing o zero none rest = refl
  with_entry-standing o zero (some near) rest = far near.distance_m
    where
      far :
          (d : Option ℤ)
          → with_entry m whole
              (entry_of m whole o dark zero (some (record near { distance_m = d })))
              (map entry_for rest)
            ≡ entry_for (o, distance_of d) ∷ map entry_for rest
      far none = refl
      far (some d) = refl
  with_entry-standing o (suc n) near rest = refl

  entries-standings :
      (want : List String) (counts : List (String × ℕ)) (nearest : List (String × Nearest))
      (os : List Operator)
      → entries m whole want counts nearest dark os
        ≡ map entry_for (standings want counts nearest os)
  unfolding entries standings
  entries-standings want counts nearest [] = refl
  entries-standings want counts nearest (o ∷ os) = elim (Bool-cases (wanted want o.key)) [
    | inl e ↦
        rw (e, entries, standings)
          (ap
              (with_entry m whole
                (entry_of m whole o dark (count_of (get o.key counts)) (get o.key nearest)))
              (entries-standings want counts nearest os)
            ∙ with_entry-standing o (count_of (get o.key counts)) (get o.key nearest)
                (standings want counts nearest os))
    | inr e ↦ rw (e, entries, standings) (entries-standings want counts nearest os)
  ]

  abbrev earlier : Operator × Standing → Operator × Standing → Bool
  earlier x y = sooner m whole (entry_for x) (entry_for y)

  module _ (l : IsLinear m) (x : IsFaithful m) where
    number : (s : Operator × Standing) → IsNumber m (entry_for s).order
    number (o, here n) = x.minus_number (pos n)
    number (o, away d) = x.whole_number d
    number (o, unseen) = x.infinity_number

    earlier-IsOrder : IsOrder earlier (λ s. IsNumber m (entry_for s).order)
    earlier-IsOrder = record {
      asymm = λ a b h. ground (arith, l.asymm (entry_for a).order (entry_for b).order);
      step = λ a b c n h k.
          ground (arith, l.step (entry_for a).order (entry_for b).order (entry_for c).order n);
    }

    speaks : (a b : Operator × Standing) → IsHeld a → IsHeld b → earlier b a ≡ false → MaySpeak a b
    speaks (o, here n) (p, here k) h i e = elim (Bool-cases (ltb n k)) [
      | inl more ↦
          let less = x.minus_less (pos n) (pos k) h i (ground arith) in absurd (ground arith)
      | inr still ↦ still
    ]
    speaks (o, here n) (p, away d) h i e = tt
    speaks (o, here n) (p, unseen) h i e = tt
    speaks (o, away d) (p, here k) h i e = absurd (ground arith)
    speaks (o, away d) (p, away c) h i e = elim (Bool-cases (ltb_ℤ c d)) [
      | inl nearer ↦ let less = x.whole_less c d i h nearer in absurd (ground arith)
      | inr still ↦ still
    ]
    speaks (o, away d) (p, unseen) h i e = tt
    speaks (o, unseen) (p, here k) h i e = absurd (ground arith)
    speaks (o, unseen) (p, away c) h i e = let less = x.below_infinity c i in absurd (ground arith)
    speaks (o, unseen) (p, unseen) h i e = tt

    IsSpoken-of_IsSorted :
        (xs : List (Operator × Standing)) → All IsHeld xs → IsSorted earlier xs → IsSpoken xs
    IsSpoken-of_IsSorted [] a s = tt
    IsSpoken-of_IsSorted (y ∷ xs) (h, a) (s, t) = (each xs a s, IsSpoken-of_IsSorted xs a t)
      where
        each :
            (zs : List (Operator × Standing))
            → All IsHeld zs
            → All (λ z. earlier z y ≡ false) zs
            → All (MaySpeak y) zs
        each [] a s = tt
        each (z ∷ zs) (i, a) (e, s) = (speaks y z h i e, each zs a s)

  phrases :
      (xs : List (Operator × Standing))
      → map (λ (e : Entry). e.text) (map entry_for xs) ≡ map (phrase whole dark) xs
  phrases [] = refl
  phrases ((o, here n) ∷ xs) = ap (λ l. phrase whole dark (o, here n) ∷ l) (phrases xs)
  phrases ((o, away d) ∷ xs) = ap (λ l. phrase whole dark (o, away d) ∷ l) (phrases xs)
  phrases ((o, unseen) ∷ xs) = ap (λ l. phrase whole dark (o, unseen) ∷ l) (phrases xs)

  sentence-said :
      (xs : List (Operator × Standing))
      → sentence m whole (map entry_for xs) ≡ said whole m dark xs (sort earlier xs)
  unfolding sentence
  sentence-said [] = refl
  sentence-said (x ∷ xs) =
      ap (λ es. join_comma m whole (map (λ (e : Entry). e.text) es))
        (sort-map (sooner m whole) entry_for (x ∷ xs))
      ∙ ap (join_comma m whole) (phrases (sort earlier (x ∷ xs)))

-- The sentence of a status speaks once of each operator that was asked about and of which something
-- is known. Those with vehicles that are here come first, the ones with more before the ones with
-- fewer, then those whose nearest vehicle is known, the nearer before the further, and then the
-- others, where the counts and the distances are integers that a float holds exactly.
pub summarise-IsSpoken :
    (m : Math) (whole : ℤ → String) (want : List String) (counts : List (String × ℕ))
    (nearest : List (String × Nearest)) (dark : List String)
    → IsLinear m
    → IsFaithful m
    → All IsHeld (standings want counts nearest operators)
    → let known = standings want counts nearest operators in
      (ordered : List (Operator × Standing)) × Perm ordered known
      × IsSpoken ordered
      × (summarise m whole want counts nearest dark ≡ said whole m dark known ordered)
unfolding summarise
summarise-IsSpoken m whole want counts nearest dark l x held =
    let known = standings want counts nearest operators in
    let before = earlier m whole dark in
    (
      sort before known,
      sort-perm before known,
      IsSpoken-of_IsSorted m whole dark l x (sort before known) (All-sort before IsHeld known held)
          (sort-IsSorted before (λ s. IsNumber m (entry_for m whole dark s).order)
            (earlier-IsOrder m whole dark l x) known
            (All-of (λ s. IsNumber m (entry_for m whole dark s).order) (number m whole dark l x)
              known)),
      ap (sentence m whole) (entries-standings m whole dark want counts nearest operators)
          ∙ sentence-said m whole dark known,
    )
