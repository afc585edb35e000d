-- ===== src/Poll/Select.antt =====
-- internal/poll/poll.go: the pure functions that choose vehicles, groups of fences and operators.
use scootless.Base.{
  ◌||◌, ℕ, ◌+◌, Bool, true, not, String, List, [], ◌∷◌, map, Option, none, some, ◌==◌, string_eq,
  contains, if◌then◌else◌,
}
use scootless.Base.Int.{ℤ, pos, negsuc, ltb_ℤ}
use scootless.Float.{Float64, Math}
use scootless.Geo.{Point, distance_m, bearing_deg, bounding_radius_m}
use scootless.Entur.Vehicles.{Vehicle}
use scootless.Store.Schema.{Fence, Watch}

-- A watch with no operators wants them all.
abbrev pub wants : Watch → Vehicle → Bool
wants w v = elim w.operator_keys [ [] ↦ true | k ∷ keys ↦ contains (k ∷ keys) v.operator_key ]

-- `matches`
unfoldable pub matches : List Vehicle → Watch → List Vehicle
matches [] w = []
matches (v ∷ vs) w =
    if not (wants w v)
    then matches vs w
    else if ltb_ℤ v.range_m w.min_range_m
    then matches vs w
    else v ∷ matches vs w

-- `darkFor`: the empty text says that the watch depends on no dark operator.
abbrev pub first_dark : String → List String → Option String
first_dark k [] = none
first_dark k (d ∷ dark) = if k == d then some d else first_dark k dark

unfoldable pub first_dark_of : List String → List String → String
first_dark_of [] dark = ""
first_dark_of (k ∷ keys) dark = elim (first_dark k dark) [
  | some d ↦ d
  | none ↦ first_dark_of keys dark
]

unfoldable pub dark_for : Watch → List String → String
unfolding first_dark_of
dark_for w [] = ""
dark_for w (d ∷ dark) = elim w.operator_keys [
  | [] ↦ d
  | k ∷ keys ↦ first_dark_of (k ∷ keys) (d ∷ dark)
]

-- One upstream query and the fences that it serves.
pub record Group : Type 0 where
  pub at : Point
  pub radius_m : ℤ
  pub fences : List Fence

module _ (m : Math) where
  -- `d > float64(f.RadiusM)`
  abbrev pub outside : Fence → Vehicle → Bool
  outside f v = m.less (m.of_int f.radius_m) (distance_m m f.at v.at)

  abbrev pub rebase : Fence → Vehicle → Vehicle
  rebase f v = record v {
    distance_m = distance_m m f.at v.at;
    bearing_deg = bearing_deg m f.at v.at;
  }

  -- `within`
  unfoldable pub within : List Vehicle → Fence → List Vehicle
  within [] f = []
  within (v ∷ vs) f = if outside f v then within vs f else rebase f v ∷ within vs f

  -- The loop of `nearestOf`, on the best so far and its distance.
  unfoldable pub nearest_from : Fence → Option Vehicle → Float64 → List Vehicle → Option Vehicle
  nearest_from f best best_d [] = best
  nearest_from f best best_d (v ∷ vs) =
      let d = distance_m m f.at v.at in
      nearest_from f (if m.less d best_d then some v else best)
        (if m.less d best_d then d else best_d) vs

  -- `nearestOf`
  unfoldable pub nearest_of : List Vehicle → Fence → Option Vehicle
  unfolding nearest_from
  nearest_of vs f = nearest_from f none m.infinity vs

  abbrev max_query_radius_m : Float64
  max_query_radius_m = m.decimal 2000 0

  -- `r <= MaxQueryRadiusM`, which is false of NaN.
  abbrev pub fits_query : Float64 → Bool
  fits_query r = m.less r max_query_radius_m || m.equal r max_query_radius_m

  abbrev next_int : ℤ → ℤ
  next_int (pos n) = pos (n + 1)
  next_int (negsuc ℕ.zero) = pos 0
  next_int (negsuc (ℕ.suc n)) = negsuc n

  -- `groupFences`
  unfoldable pub group_fences : List Fence → List Group
  group_fences [] = []
  group_fences (f ∷ fs) =
      let (mid, r) =
        bounding_radius_m m (map (λ (g : Fence). g.at) (f ∷ fs))
          (map (λ (g : Fence). m.of_int g.radius_m) (f ∷ fs)) in
      if fits_query r
      then record { at = mid; radius_m = next_int (m.to_int r); fences = f ∷ fs } ∷ []
      else map (λ (g : Fence). record { at = g.at; radius_m = g.radius_m; fences = g ∷ [] })
          (f ∷ fs)
