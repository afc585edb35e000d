-- ===== src/Geo.antt =====
-- internal/geo/geo.go: points, great-circle distance, bearings and covering circles.
pub mod Cover
use scootless.Base.{List, [], ◌∷◌, Option, none, String, foldl, if◌then◌else◌, length, get_elem?}
use scootless.Base.Int.{ℤ, pos, negsuc}
use scootless.Float.{Float64, Math}

pub record Point : Type 0 where
  pub lat : Float64
  pub lon : Float64

-- Go's zero value.
abbrev pub zero_float : Float64
zero_float = record { bits = 0 }

abbrev pub zero_point : Point
zero_point = record { lat = zero_float; lon = zero_float }

abbrev compass_points : List String
compass_points = "N" ∷ "NE" ∷ "E" ∷ "SE" ∷ "S" ∷ "SW" ∷ "W" ∷ "NW" ∷ []

abbrev get_elem_ℤ? {ℓ} : {A : Type ℓ} → List A → ℤ → Option A
get_elem_ℤ? xs (pos n) = get_elem? xs n
get_elem_ℤ? xs (negsuc n) = none

module _ (m : Math) where
  open m use {add, sub, mul, div, less, decimal, of_int, to_int}

  -- The constant `2 * earthRadiusM`, which the compiler folds.
  abbrev earth_diameter_m : Float64
  earth_diameter_m = decimal 127420176 1

  rad : Float64 → Float64
  rad d = div (mul d m.pi) (decimal 180 0)

  deg : Float64 → Float64
  deg r = div (mul r (decimal 180 0)) m.pi

  unfoldable pub distance_m : Point → Point → Float64
  unfolding rad
  distance_m a b =
      let p1 = rad a.lat in
      let p2 = rad b.lat in
      let half_dp = div (sub p2 p1) (decimal 2 0) in
      let half_dl = div (rad (sub b.lon a.lon)) (decimal 2 0) in
      let h =
        add (mul (m.sin half_dp) (m.sin half_dp))
          (mul (mul (mul (m.cos p1) (m.cos p2)) (m.sin half_dl)) (m.sin half_dl)) in
      mul earth_diameter_m (m.asin (m.sqrt h))

  unfoldable pub bearing_deg : Point → Point → Float64
  unfolding rad deg
  bearing_deg a b =
      let p1 = rad a.lat in
      let p2 = rad b.lat in
      let dl = rad (sub b.lon a.lon) in
      let y = mul (m.sin dl) (m.cos p2) in
      let x = sub (mul (m.cos p1) (m.sin p2)) (mul (mul (m.sin p1) (m.cos p2)) (m.cos dl)) in
      m.fmod (add (deg (m.atan2 y x)) (decimal 360 0)) (decimal 360 0)

  -- `Compass`. An index outside the table is a panic: `none`.
  unfoldable pub compass : Float64 → Option String
  compass b =
      get_elem_ℤ? compass_points
        (to_int (div (m.fmod (add b (decimal 225 1)) (decimal 360 0)) (decimal 45 0)))

  -- `if d > max { max = d }`
  abbrev wider : Float64 → Float64 → Float64
  wider far d = if less far d then d else far

  -- The last loop of `BoundingRadiusM`: the furthest circle edge seen so far.
  pub furthest : Point → Float64 → List Point → List Float64 → Float64
  furthest mid far [] radii = far
  furthest mid far (c ∷ centres) [] =
      furthest mid (wider far (add (distance_m mid c) zero_float)) centres []
  furthest mid far (c ∷ centres) (r ∷ radii) =
      furthest mid (wider far (add (distance_m mid c) r)) centres radii

  -- `BoundingRadiusM`
  unfoldable pub bounding_radius_m : List Point → List Float64 → Point × Float64
  unfolding furthest
  bounding_radius_m [] radii = (zero_point, zero_float)
  bounding_radius_m (c ∷ centres) radii = (mid, furthest mid zero_float (c ∷ centres) radii)
    where
      n : Float64
      n = of_int (pos (length (c ∷ centres)))

      mid : Point
      mid = record {
        lat = div (foldl (λ acc p. add acc p.lat) zero_float (c ∷ centres)) n;
        lon = div (foldl (λ acc p. add acc p.lon) zero_float (c ∷ centres)) n;
      }
