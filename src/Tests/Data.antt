-- ===== src/Tests/Data.antt =====
-- Concrete inputs: one fence, its watch and three vehicles, and whole numbers in place of floats.
use scootless.Base.{
  ℕ, ◌+◌, ◌-◌, ◌*◌, ◌/◌, ◌%◌, ◌^◌, true, false, ltb, ◌==◌, nat_eq, String, [], ◌∷◌, none, some,
  arith, Result, ok,
}
use scootless.Base.Int.{pos, pos_part}
use scootless.Float.{Float64, Math, IsLinear, IsNumber}
use scootless.Geo.{Point}
use scootless.Entur.Vehicles.{Vehicle, Query, Fetched}
use scootless.Entur.Operators.{EnturError}
use scootless.Store.Schema.{Db, Fence, Watch, appearance, armed}
use scootless.Store.Watches.{row_of}
use scootless.Poll.Run.{Run, Poller, empty_report}

abbrev pub whole : ℕ → Float64
whole n = record { bits = n }

-- Arithmetic on whole numbers, each its own bits.
abbrev pub flat : Math
flat = record {
  add = λ a b. whole (a.bits + b.bits);
  sub = λ a b. whole (a.bits - b.bits);
  mul = λ a b. whole (a.bits * b.bits);
  div = λ a b. whole (a.bits / b.bits);
  less = λ a b. ltb a.bits b.bits;
  decimal = λ digits places. whole (digits / 10 ^ places);
  of_int = λ n. whole (pos_part n);
  to_int = λ a. pos a.bits;
  pi = whole 3;
  infinity = whole 1000000000000;
  sin = λ a. a;
  cos = λ a. a;
  asin = λ a. a;
  sqrt = λ a. a;
  atan2 = λ a b. a;
  fmod = λ a b. whole (a.bits % b.bits);
  round = λ a. a;
  equal = λ a b. a.bits == b.bits;
}

pub flat-IsLinear : IsLinear flat
flat-IsLinear = record { asymm = λ a b h. ground arith; step = λ a b c n h k. ground arith }

pub flat-IsNumber : (a : Float64) → IsNumber flat a
flat-IsNumber a = ground arith

abbrev pub spot : ℕ → ℕ → Point
spot lat lon = record { lat = whole lat; lon = whole lon }

abbrev pub home : Fence
home = record { id = "home"; name = "Home"; at = spot 1 1; radius_m = pos 900 }

abbrev pub work : Fence
work = record { id = "work"; name = "Work"; at = spot 2 1; radius_m = pos 900 }

abbrev pub scooter : String → Point → ℕ → Vehicle
scooter id at distance = record {
  id = id;
  at = at;
  distance_m = whole distance;
  bearing_deg = whole 0;
  operator_key = "ryde";
  operator = "Ryde";
  form_factor = "SCOOTER_STANDING";
  range_m = pos 9000;
  fuel_pct = none;
  disabled = false;
  reserved = false;
  app_link_ios = "";
  app_link_android = "";
}

abbrev pub near_scooter : Vehicle
near_scooter = scooter "YRY:Vehicle:ea123456-a" (spot 1 1) 5

abbrev pub far_scooter : Vehicle
far_scooter = scooter "YRY:Vehicle:ea654321-b" (spot 1 1) 9

abbrev pub arrival_watch : Watch
arrival_watch = record {
  id = "w1";
  device = "phone";
  kind = appearance;
  fence_id = "home";
  operator_keys = "ryde" ∷ [];
  min_range_m = pos 5000;
  threshold = pos 0;
  baseline = "YRY:Vehicle:ea123456-a" ∷ [];
  repeat = false;
  state = armed;
  created_at = 0;
  expires_at = 3600000000000;
  fired_at = none;
}

abbrev pub empty_db : Db
empty_db = record {
  foreign_keys = true;
  fences = home ∷ [];
  watches = [];
  events = [];
  next_event = 1;
  samples = [];
  presence = [];
  nearest = [];
}

abbrev pub watched : Db
watched = record empty_db { watches = row_of arrival_watch ∷ [] }

-- The time of the runs, ten seconds in.
abbrev pub noon : ℕ
noon = 10000000000

abbrev pub answers : Query → Result EnturError Fetched
answers q =
    ok (record { vehicles = near_scooter ∷ far_scooter ∷ []; returned = 2; truncated = false })

abbrev pub poller : Poller
poller = record {
  fetch = answers;
  has_sink = true;
  stale = pos 0;
  reach_m = pos 0;
  nearest_interval = pos 0;
  encode = λ n. some "payload";
}

abbrev pub start : Run
start = record { db = watched; nearest_at = []; deliveries = []; rep = empty_report noon }
