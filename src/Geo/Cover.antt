-- ===== src/Geo/Cover.antt =====
-- What a covering circle promises the poller, which asks one query for several fences.
use scootless.Base.{◌≡◌, false, List, [], ◌∷◌, map, All, arith}
use scootless.Float.{Float64, Math, IsLinear, IsNumber}
use scootless.Geo.{Point, distance_m, furthest, bounding_radius_m, wider, zero_float}

-- A circle: its centre and its radius in metres.
abbrev pub Circle : Type 0
Circle = Point × Float64

abbrev pub centre_of : Circle → Point
centre_of (c, r) = c

abbrev pub radius_of : Circle → Float64
radius_of (c, r) = r

-- How far from `mid` the edge of a circle is.
abbrev pub edge : Math → Point → Circle → Float64
edge m mid (c, r) = m.add (distance_m m mid c) r

module _ (m : Math) (o : IsLinear m) where
  open m use {less, add}

  le_self : (a : Float64) → less a a ≡ false
  le_self a = ground (arith, o.asymm a a)

  le-wider_left : (far d : Float64) → less (wider m far d) far ≡ false
  le-wider_left far d = ground (arith, o.asymm far d, le_self far)

  le-wider_right : (far d : Float64) → less (wider m far d) d ≡ false
  le-wider_right far d = ground (arith, le_self d)

  wider-IsNumber : (far d : Float64) → IsNumber m far → IsNumber m d → IsNumber m (wider m far d)
  wider-IsNumber far d n k = ground arith

  abbrev reach : Point → Float64 → List Circle → Float64
  reach mid far cs = furthest m mid far (map centre_of cs) (map radius_of cs)

  le-reach_start :
      (mid : Point) (far : Float64) (cs : List Circle)
      → IsNumber m far
      → All (λ k. IsNumber m (edge m mid k)) cs
      → less (reach mid far cs) far ≡ false
  unfolding furthest
  le-reach_start mid far [] n ns = le_self far
  le-reach_start mid far ((c, r) ∷ cs) n ns =
      let e = add (distance_m m mid c) r in
      let w = wider-IsNumber far e n ns.0 in
      o.step far (wider m far e) _ w (le-wider_left far e)
        (le-reach_start mid (wider m far e) cs w ns.1)

  le-reach :
      (mid : Point) (far : Float64) (cs : List Circle)
      → IsNumber m far
      → All (λ k. IsNumber m (edge m mid k)) cs
      → All (λ k. less (reach mid far cs) (edge m mid k) ≡ false) cs
  unfolding furthest
  le-reach mid far [] n ns = tt
  le-reach mid far ((c, r) ∷ cs) n ns =
      let e = add (distance_m m mid c) r in
      let w = wider-IsNumber far e n ns.0 in
      (
        o.step e (wider m far e) _ w (le-wider_right far e)
            (le-reach_start mid (wider m far e) cs w ns.1),
        le-reach mid (wider m far e) cs w ns.1,
      )

  -- Where neither zero nor an edge's distance from the centre is NaN, the circle that
  -- `BoundingRadiusM` returns reaches the far edge of each circle that it was given: its radius is
  -- never less than the distance to that circle's centre and the circle's radius added.
  pub bounding_radius_m-covers :
      (cs : List Circle)
      → IsNumber m zero_float
      → All
          (λ k. IsNumber m (edge m (bounding_radius_m m (map centre_of cs) (map radius_of cs)).0 k))
          cs
      → let cover = bounding_radius_m m (map centre_of cs) (map radius_of cs) in
        All (λ k. less cover.1 (edge m cover.0 k) ≡ false) cs
  unfolding bounding_radius_m
  bounding_radius_m-covers [] n ns = tt
  bounding_radius_m-covers (k ∷ cs) n ns = le-reach _ _ (k ∷ cs) n ns
