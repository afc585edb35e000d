-- ===== src/Poll/Selection.antt =====
-- internal/poll/poll.go: what the selection of vehicles, and the grouping of fences, come to.
use scootless.Base.{
  ◌≡◌, refl, Bool, true, false, not, List, [], ◌∷◌, ◌++◌, map, none, some, any, keep, length, ◌⊎◌,
  arith, All, Bool-cases, inl, inr, ap, leb,
}
use scootless.Float.{Float64, Math, IsLinear, IsNumber}
use scootless.Geo.{distance_m, bounding_radius_m}
use mathlib.Core.List.{append-nil}
use scootless.Entur.Vehicles.{Vehicle}
use scootless.Store.Schema.{Fence}
use scootless.Poll.Select.{
  Group, outside, rebase, within, nearest_from, nearest_of, group_fences, fits_query,
}

module _ (m : Math) (f : Fence) where
  -- What `within` returns is the vehicles that are no further from the fence's centre than its
  -- radius, in their order, each with its distance and bearing measured anew from that centre.
  within-keep :
      (vs : List Vehicle) → within m vs f ≡ map (rebase m f) (keep (λ v. not (outside m f v)) vs)
  unfolding within
  within-keep [] = refl
  within-keep (v ∷ vs) = ground (arith, within-keep vs)

  abbrev pub far : Vehicle → Float64
  far v = distance_m m f.at v.at

  -- No vehicle of the list is nearer than the distance.
  abbrev pub NoneNearer : Float64 → List Vehicle → Type 0
  NoneNearer d vs = All (λ v. m.less (far v) d ≡ false) vs

  -- One of the vehicles, or the one that the loop began with.
  abbrev pub IsOneOf : Vehicle → List Vehicle → Type 0
  IsOneOf v vs = (p : Vehicle → Bool) → p v ≡ true → any p vs ≡ true

  module _ (o : IsLinear m) where
    nearest_from-some :
        (b : Vehicle) (vs : List Vehicle)
        → IsNumber m (far b)
        → All (λ v. IsNumber m (far v)) vs
        → (v : Vehicle) × (nearest_from m f (some b) (far b) vs ≡ some v)
          × (m.less (far b) (far v) ≡ false)
          × NoneNearer (far v) vs
          × IsOneOf v (b ∷ vs)
          × IsNumber m (far v)
    unfolding nearest_from
    nearest_from-some b [] n ns =
        (b, refl, ground (arith, o.asymm (far b) (far b)), tt, λ p h. ground arith, n)
    nearest_from-some b (u ∷ vs) n ns = elim (Bool-cases (m.less (far u) (far b))) [
      | inl closer ↦
          let (v, e, le, rest, among, num) = nearest_from-some u vs ns.0 ns.1 in
          (
            v,
            rw (closer, nearest_from) e,
            o.step (far v) (far u) (far b) ns.0 le (o.asymm (far u) (far b) closer),
            (le, rest),
            λ p h. ground (arith, among p h),
            num,
          )
      | inr not_closer ↦
          let (v, e, le, rest, among, num) = nearest_from-some b vs n ns.1 in
          (
            v,
            rw (not_closer, nearest_from) e,
            le,
            (o.step (far v) (far b) (far u) n le not_closer, rest),
            λ p h. ground (arith, among p h),
            num,
          )
    ]

    -- Where no distance is NaN, `nearestOf` returns one of the vehicles that it was given, at a
    -- finite distance, and none of them is nearer; it returns none exactly where each is at no less
    -- than infinity.
    pub nearest_of-nearest :
        (vs : List Vehicle)
        → IsNumber m m.infinity
        → All (λ v. IsNumber m (far v)) vs
        → ((nearest_of m vs f ≡ none) × NoneNearer m.infinity vs)
          ⊎ ((v : Vehicle) × (nearest_of m vs f ≡ some v)
              × (m.less (far v) m.infinity ≡ true)
              × NoneNearer (far v) vs
              × IsOneOf v vs)
    unfolding nearest_of nearest_from
    nearest_of-nearest [] i ns = inl (refl, tt)
    nearest_of-nearest (u ∷ vs) i ns = elim (Bool-cases (m.less (far u) m.infinity)) [
      | inl finite ↦
          let (v, e, le, rest, among, num) = nearest_from-some u vs ns.0 ns.1 in
          inr (
            v,
            rw (finite, nearest_of) e,
            elim (Bool-cases (m.less (far v) m.infinity)) [
              | inl below ↦ below
              | inr above ↦ ground (arith, o.step m.infinity (far v) (far u) num above le)
            ],
            (le, rest),
            among,
          )
      | inr unbounded ↦ elim (nearest_of-nearest vs i ns.1) [
        | inl (e, rest) ↦ inl (rw (unbounded, nearest_of) e, (unbounded, rest))
        | inr (v, e, finite, rest, among) ↦ inr (
          v,
          rw (unbounded, nearest_of) e,
          finite,
          (o.step (far v) m.infinity (far u) i (o.asymm (far v) m.infinity finite) unbounded, rest),
          λ p h. ground (arith, among p h),
        )
      ]
    ]

-- The fences that groups serve, in the order of the groups.
abbrev pub served : List Group → List Fence
served [] = []
served (g ∷ gs) = g.fences ++ served gs

abbrev alone : Fence → Group
alone f = record { at = f.at; radius_m = f.radius_m; fences = f ∷ [] }

served-alone : (fs : List Fence) → served (map alone fs) ≡ fs
served-alone [] = refl
served-alone (f ∷ fs) = ap (λ l. f ∷ l) (served-alone fs)

length-alone : (fs : List Fence) → length (map alone fs) ≡ length fs
length-alone [] = refl
length-alone (f ∷ fs) = ground (arith, length-alone fs)

-- The radius of one query for all the fences.
abbrev joint_radius : Math → List Fence → Float64
joint_radius m fs =
    (bounding_radius_m m (map (λ (g : Fence). g.at) fs)
      (map (λ (g : Fence). m.of_int g.radius_m) fs)).1

-- `groupFences` serves each fence exactly once, in the order given, and asks no more queries than
-- there are fences.
pub group_fences-serves :
    (m : Math) (fs : List Fence)
    → (served (group_fences m fs) ≡ fs) × (leb (length (group_fences m fs)) (length fs) ≡ true)
unfolding group_fences
group_fences-serves m [] = (refl, refl)
group_fences-serves m (f ∷ fs) = elim (Bool-cases (fits_query m (joint_radius m (f ∷ fs)))) [
  | inl small ↦ rw (small, group_fences) (append-nil (f ∷ fs), ground arith)
  | inr wide ↦ rw (wide, group_fences) (served-alone (f ∷ fs), ground (arith, length-alone fs))
]
