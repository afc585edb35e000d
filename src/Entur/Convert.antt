-- ===== src/Entur/Convert.antt =====
-- internal/entur/client.go: `convert` and `allowedForm`, the filters of a query.
use scootless.Base.{
  Bool, not, ◌&&◌, ◌||◌, String, List, [], ◌∷◌, Option, none, some, if◌then◌else◌, contains, ◌==◌,
  string_eq,
}
use scootless.Base.Int.{ℤ, pos, ltb_ℤ}
use scootless.Float.{Float64, Math}
use scootless.Geo.{Point, distance_m, bearing_deg}
use scootless.Entur.Operators.{by_id}
use scootless.Entur.Vehicles.{Vehicle, Query, GqlVehicle, GqlOperator, scooter_standing}

unfoldable pub allowed_form : String → List String → Bool
allowed_form f [] = f == scooter_standing
allowed_form f (a ∷ allowed) = contains (a ∷ allowed) f

-- The form factor, and the remaining range in whole metres, of an upstream vehicle.
abbrev pub form_of : GqlVehicle → String
form_of rv = elim rv.vehicle_type [ none ↦ "" | some f ↦ f ]

abbrev pub point_of : GqlVehicle → Point
point_of rv = record { lat = rv.lat; lon = rv.lon }

-- The operator's key and name, each empty where it is not known.
abbrev known_operator : GqlOperator → String × String
known_operator op = elim (by_id op.id) [
  | some o ↦ (o.key, o.name)
  | none ↦ elim op.name [ some (value ∷ more) ↦ ("", value) | _ ↦ ("", "") ]
]

operator_of : GqlVehicle → String × String
operator_of rv = elim rv.system [ some (some op) ↦ known_operator op | _ ↦ ("", "") ]

module _ (m : Math) where
  abbrev pub range_of : GqlVehicle → ℤ
  range_of rv = elim rv.current_range_meters [ none ↦ pos 0 | some r ↦ m.to_int r ]

  abbrev percent_of : GqlVehicle → Option Float64
  percent_of rv = elim rv.current_fuel_percent [
    | none ↦ none
    | some p ↦ some (m.mul p (m.decimal 100 0))
  ]

  -- `q.RadiusM > 0 && dist > float64(q.RadiusM)`
  abbrev pub too_far : Query → Float64 → Bool
  too_far q dist = ltb_ℤ (pos 0) q.radius_m && m.less (m.of_int q.radius_m) dist

  -- The struct that `convert` fills in for a vehicle that it keeps.
  unfoldable pub vehicle_of : GqlVehicle → Query → Vehicle
  unfolding operator_of
  vehicle_of rv q = record {
    id = rv.id;
    at = point_of rv;
    distance_m = distance_m m q.at (point_of rv);
    bearing_deg = bearing_deg m q.at (point_of rv);
    operator_key = (operator_of rv).0;
    operator = (operator_of rv).1;
    form_factor = form_of rv;
    range_m = range_of rv;
    fuel_pct = percent_of rv;
    disabled = rv.is_disabled;
    reserved = rv.is_reserved;
    app_link_ios = elim rv.rental_uris [ none ↦ "" | some u ↦ u.ios ];
    app_link_android = elim rv.rental_uris [ none ↦ "" | some u ↦ u.android ];
  }

  -- `convert`: `none` where the second result is false.
  unfoldable pub convert : GqlVehicle → Query → Option Vehicle
  convert rv q =
      if not q.include_unrentable && (rv.is_disabled || rv.is_reserved)
      then none
      else if not (allowed_form (form_of rv) q.form_factors)
      then none
      else if ltb_ℤ (range_of rv) q.min_range_m
      then none
      else if too_far q (distance_m m q.at (point_of rv))
      then none
      else some (vehicle_of rv q)
