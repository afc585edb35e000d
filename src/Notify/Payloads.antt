-- ===== src/Notify/Payloads.antt =====
-- internal/notify/notify.go: the payload of a fired watch, and what sinks put on the wire.
use scootless.Base.{ℕ, Bool, String, List, map, Option, string_eq, nat_eq}
use scootless.Base.Int.{ℤ}
use scootless.Float.{Float64, Math}
use scootless.Geo.{compass}
use scootless.Entur.Vehicles
use scootless.Store.Schema.{Kind, appearance, scarcity, unknown_kind}
use scootless.Poll.Run.{Notification}

-- `Fence`, the type on the wire.
pub record Fence : Type 0 where
  pub id : String
  pub name : String
  pub radius_m : ℤ

-- `Vehicle`, the type on the wire. A bearing of `none` is an index of `Compass` out of range, where
-- Go panics.
pub record Vehicle : Type 0 where
  pub id : String
  pub operator : String
  pub distance_m : ℤ
  pub bearing : Option String
  pub range_km : Float64
  pub battery_pct : Option Float64
  pub app_link : String

pub record Payload : Type 0 where
  pub watch_id : String
  pub kind : String
  pub fired_at : ℕ
  pub fence : Fence
  pub count : ℕ
  pub vehicles : List Vehicle

-- `string(kind)`
abbrev pub kind_text : Kind → String
kind_text appearance = "appearance"
kind_text scarcity = "scarcity"
kind_text (unknown_kind k) = k

-- `PayloadOf`; times are already in UTC.
module _ (m : Math) where
  abbrev pub vehicle_of : Vehicles.Vehicle → Vehicle
  vehicle_of v = record {
    id = v.id;
    operator = v.operator;
    distance_m = m.to_int (m.add v.distance_m (m.decimal 5 1));
    bearing = compass m v.bearing_deg;
    range_km = m.div (m.of_int v.range_m) (m.decimal 1000 0);
    battery_pct = v.fuel_pct;
    app_link = v.app_link_ios;
  }

  unfoldable pub payload_of : Notification → Payload
  payload_of n = record {
    watch_id = n.watch_id;
    kind = kind_text n.kind;
    fired_at = n.fired_at;
    fence = record { id = n.fence.id; name = n.fence.name; radius_m = n.fence.radius_m };
    count = n.count;
    vehicles = map vehicle_of n.vehicles;
  }

-- What the texts need of the standard library: `json.Marshal` of a payload and of a sample, none
-- for an error, the verb `%d`, and `%.*f` with its number of decimals.
pub record Format : Type 0 where
  pub marshal : Payload → Option String
  pub marshal_sample : String → List (String × ℕ) → ℕ → Option String
  pub whole : ℤ → String
  pub fixed : ℕ → Float64 → String

-- What a sink puts on the wire, or in the log.
pub record Post : Type 0 where
  pub url : String
  pub title : String
  pub tags : String
  pub priority : ℤ
  pub authorization : Option String
  pub click : Option String
  pub body : String

pub data Message : Type 0 where
  mqtt : (topic : String) (qos : ℕ) (retained : Bool) (body : String) → Message
  posted : Post → Message
  logged : (watch_id kind fence : String) (count vehicles : ℕ) → Message

pub data SinkError : Type 0 where
  encoding not_configured bad_request cancelled timed_out no_broker : SinkError
  broker_error unreachable : String → SinkError
  refused : ℕ → SinkError

-- A `poll.Sink`: for a notification, what it sends and the error it returns, if any.
abbrev pub Sink : Type 0
Sink = Notification → List Message × Option SinkError
