-- ===== src/Entur/Vehicles.antt =====
-- internal/entur/entur.go: vehicles as the program sees them; client.go: what a query asks and
-- gets.
use scootless.Base.{ℕ, Bool, not, ◌&&◌, String, List, Option}
use scootless.Base.Int.{ℤ}
use scootless.Float.{Float64}
use scootless.Geo.{Point}

-- The upstream cap on one answer.
abbrev pub max_results : ℕ
max_results = 500

abbrev pub scooter_standing : String
scooter_standing = "SCOOTER_STANDING"

pub record Vehicle : Type 0 where
  pub id : String
  pub at : Point
  pub distance_m : Float64
  pub bearing_deg : Float64
  pub operator_key : String
  pub operator : String
  pub form_factor : String
  pub range_m : ℤ
  pub fuel_pct : Option Float64
  pub disabled : Bool
  pub reserved : Bool
  pub app_link_ios : String
  pub app_link_android : String

unfoldable pub rentable : Vehicle → Bool
rentable v = not v.disabled && not v.reserved

pub record Query : Type 0 where
  pub at : Point
  pub radius_m : ℤ
  pub operator_keys : List String
  pub min_range_m : ℤ
  pub form_factors : List String
  pub include_unrentable : Bool
  pub limit : ℤ

-- `Result`, without the time at which it was fetched.
pub record Fetched : Type 0 where
  pub vehicles : List Vehicle
  pub returned : ℕ
  pub truncated : Bool

-- The shape of one vehicle in the upstream's answer; `none` is JSON's null.
pub record GqlOperator : Type 0 where
  pub id : String
  pub name : Option (List String)

pub record GqlUris : Type 0 where
  pub android : String
  pub ios : String

pub record GqlVehicle : Type 0 where
  pub id : String
  pub lat : Float64
  pub lon : Float64
  pub is_reserved : Bool
  pub is_disabled : Bool
  pub current_range_meters : Option Float64
  pub current_fuel_percent : Option Float64
  pub vehicle_type : Option String
  pub rental_uris : Option GqlUris
  pub system : Option (Option GqlOperator)
