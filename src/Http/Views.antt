-- ===== src/Http/Views.antt =====
-- internal/api/api.go: the types on the wire, and what they are made of.
use scootless.Base.{ℕ, Bool, String, List, Option, map, length}
use scootless.Base.Int.{ℤ}
use scootless.Float.{Float64, Math}
use scootless.Geo.{compass}
use scootless.Entur.Vehicles.{Vehicle}
use scootless.Store.Schema.{Fence, Watch, State, unset, armed, fired, expired, cancelled}
use scootless.Notify.{kind_text}

-- `fenceJSON`
pub record FenceJson : Type 0 where
  pub id : String
  pub name : String
  pub lat : Float64
  pub lon : Float64
  pub radius_m : ℤ

-- `fenceOf`
unfoldable pub fence_of : Fence → FenceJson
fence_of f = record {
  id = f.id;
  name = f.name;
  lat = f.at.lat;
  lon = f.at.lon;
  radius_m = f.radius_m;
}

-- `string(state)`
abbrev state_text : State → String
state_text unset = ""
state_text armed = "armed"
state_text fired = "fired"
state_text expired = "expired"
state_text cancelled = "cancelled"

-- `watchJSON`
pub record WatchJson : Type 0 where
  pub id : String
  pub device : String
  pub kind : String
  pub fence_id : String
  pub operators : List String
  pub min_range_m : ℤ
  pub threshold : ℤ
  pub repeat : Bool
  pub state : String
  pub created_at : ℕ
  pub expires_at : ℕ
  pub fired_at : Option ℕ
  pub baseline : ℕ

-- `watchOf`
unfoldable pub watch_of : Watch → WatchJson
watch_of w = record {
  id = w.id;
  device = w.device;
  kind = kind_text w.kind;
  fence_id = w.fence_id;
  operators = w.operator_keys;
  min_range_m = w.min_range_m;
  threshold = w.threshold;
  repeat = w.repeat;
  state = state_text w.state;
  created_at = w.created_at;
  expires_at = w.expires_at;
  fired_at = w.fired_at;
  baseline = length w.baseline;
}

-- An entry of `vehiclesOf`. A bearing of `none` is an index of `Compass` out of range, where Go
-- panics.
pub record VehicleJson : Type 0 where
  pub id : String
  pub operator : String
  pub operator_key : String
  pub distance_m : ℤ
  pub bearing : Option String
  pub bearing_deg : Float64
  pub range_km : Float64
  pub battery_pct : Option Float64
  pub app_link : String
  pub lat : Float64
  pub lon : Float64

module _ (m : Math) where
  abbrev rounded : Float64 → ℕ → Float64
  rounded f n = m.div (m.round (m.mul f (m.decimal n 0))) (m.decimal n 0)

  abbrev pub vehicle_of : Vehicle → VehicleJson
  vehicle_of v = record {
    id = v.id;
    operator = v.operator;
    operator_key = v.operator_key;
    distance_m = m.to_int (m.add v.distance_m (m.decimal 5 1));
    bearing = compass m v.bearing_deg;
    bearing_deg = rounded v.bearing_deg 10;
    range_km = m.div (m.of_int v.range_m) (m.decimal 1000 0);
    battery_pct = v.fuel_pct;
    app_link = v.app_link_ios;
    lat = rounded v.at.lat 1000000;
    lon = rounded v.at.lon 1000000;
  }

  -- `vehiclesOf`
  abbrev pub vehicles_of : List Vehicle → List VehicleJson
  vehicles_of vs = map vehicle_of vs
