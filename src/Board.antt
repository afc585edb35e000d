-- ===== src/Board.antt =====
-- internal/board/board.go: the ranking of vehicles and the recommendation. A Go `nil` pointer is
-- `none`.
pub mod Ranking
use Prim.Native.String.{len, slice}
use scootless.Base.{
  ℕ, zero, suc, ◌+◌, Bool, true, false, not, ◌&&◌, ◌||◌, String, List, [], ◌∷◌, map, Option, none,
  some, ◌==◌, string_eq, if◌then◌else◌, length, take, leb, ltb, head?,
}
use scootless.Base.Int.{ℤ, pos, negsuc, ltb_ℤ, scale}
use scootless.Base.Order.{sort}
use scootless.Float.{Float64, Math}
use scootless.Geo.{zero_float, compass}
use scootless.Entur.Vehicles.{Vehicle}
use scootless.Base.Dict.{put, get}

pub record Prefs : Type 0 where
  pub operator_bonus : List (String × Float64)
  pub comfort_km : Float64
  pub low_penalty : Float64
  pub floor_km : Float64

-- `Option`, one scooter, scored. A bearing of `none` is an index of `Compass` out of range, where
-- Go panics.
pub record Choice : Type 0 where
  pub operator : String
  pub operator_key : String
  pub number : String
  pub distance_m : ℤ
  pub bearing : Option String
  pub bearing_deg : Float64
  pub lat : Float64
  pub lon : Float64
  pub range_km : Float64
  pub battery_pct : Option Float64
  pub app_link : String
  pub score : Float64

pub record OperatorSummary : Type 0 where
  pub count : ℕ
  pub nearest_m : Option ℤ
  pub best_range_km : Option Float64

pub record Board : Type 0 where
  pub recommendation : Option Choice
  pub options : List Choice
  pub by_operator : List (String × OperatorSummary)

-- The text after the last colon, looked for from a place towards the front.
abbrev after_colon : String → ℕ → String
after_colon id zero = id
after_colon id (suc i) =
    let rest = after_colon id i in
    if slice id i (suc i) == ":" then slice id (suc i) (len id) else rest

-- `number`. Places are bytes, as in Go; an identifier is taken to be ASCII.
pub number : String → String
number id =
    let last = after_colon id (len id) in
    if leb 8 (len last) && slice last 0 2 == "ea" then slice last 2 8 else last

abbrev no_summary : OperatorSummary
no_summary = record { count = 0; nearest_m = none; best_range_km = none }

-- The zero value of a missing key.
abbrev pub or_summary : Option OperatorSummary → OperatorSummary
or_summary none = no_summary
or_summary (some s) = s

module _ (m : Math) where
  abbrev thousandth : ℤ → Float64
  thousandth n = m.div (m.of_int n) (m.decimal 1000 0)

  -- `round1` and `round6`
  abbrev round1 : Float64 → Float64
  round1 f =
      m.div (m.of_int (m.to_int (m.add (m.mul f (m.decimal 10 0)) (m.decimal 5 1))))
        (m.decimal 10 0)

  abbrev round6 : Float64 → Float64
  round6 f = m.div (m.round (m.mul f (m.decimal 1000000 0))) (m.decimal 1000000 0)

  -- `a <= b` and `a >= b` on floats: false where one is NaN.
  abbrev at_most : Float64 → Float64 → Bool
  at_most a b = m.less a b || m.equal a b

  -- `lowBatteryPenalty`
  low_battery_penalty : Float64 → Float64 → Float64 → Float64 → Float64
  low_battery_penalty range_km comfort_km floor_km max_penalty =
      let one = m.decimal 1 0 in
      let frac = m.div (m.sub comfort_km range_km) (m.sub comfort_km floor_km) in
      if at_most comfort_km range_km || at_most comfort_km floor_km
      then zero_float
      else m.mul max_penalty (if m.less one frac then one else frac)

  abbrev or_zero : Option Float64 → Float64
  or_zero none = zero_float
  or_zero (some b) = b

  -- Below the floor: not an option at all.
  abbrev pub too_flat : Prefs → Vehicle → Bool
  too_flat p v = m.less (zero_float) p.floor_km && m.less (thousandth v.range_m) p.floor_km

  -- `score`
  pub score : Prefs → Vehicle → Option Float64
  unfolding low_battery_penalty get
  score p v =
      let range_km = thousandth v.range_m in
      if too_flat p v
      then none
      else some (
          m.sub (m.sub (or_zero (get v.operator_key p.operator_bonus)) v.distance_m)
            (low_battery_penalty range_km p.comfort_km p.floor_km p.low_penalty))

  abbrev nearer_of : ℤ → Option ℤ → Option ℤ
  nearer_of d none = some d
  nearer_of d (some e) = if ltb_ℤ d e then some d else some e

  abbrev longer_of : Float64 → Option Float64 → Option Float64
  longer_of r none = some r
  longer_of r (some s) = if m.less s r then some r else some s

  abbrev pub whole_metres : Vehicle → ℤ
  whole_metres v = m.to_int (m.add v.distance_m (m.decimal 5 1))

  -- What one vehicle adds to the summary of its operator.
  abbrev pub add_vehicle : Vehicle → OperatorSummary → OperatorSummary
  add_vehicle v s = record {
    count = s.count + 1;
    nearest_m = nearer_of (whole_metres v) s.nearest_m;
    best_range_km = longer_of (thousandth v.range_m) s.best_range_km;
  }

  abbrev choice_of : Vehicle → Float64 → Choice
  choice_of v s = record {
    operator = v.operator;
    operator_key = v.operator_key;
    number = number v.id;
    distance_m = whole_metres v;
    bearing = compass m v.bearing_deg;
    bearing_deg = round1 v.bearing_deg;
    lat = round6 v.at.lat;
    lon = round6 v.at.lon;
    range_km = round1 (thousandth v.range_m);
    battery_pct = v.fuel_pct;
    app_link = v.app_link_ios;
    score = round1 s;
  }

  -- The loop of `Assemble`: the summaries, and the options in the order of the vehicles.
  pub summaries : List Vehicle → List (String × OperatorSummary) → List (String × OperatorSummary)
  unfolding put get
  summaries [] out = out
  summaries (v ∷ vs) out =
      summaries vs (put v.operator_key (add_vehicle v (or_summary (get v.operator_key out))) out)

  pub options_of : Prefs → List Vehicle → List Choice
  unfolding score number
  options_of p [] = []
  options_of p (v ∷ vs) =
      let rest = options_of p vs in elim (score p v) [ none ↦ rest | some s ↦ choice_of v s ∷ rest ]

  -- `Score > Score`
  abbrev pub better : Choice → Choice → Bool
  better a b = m.less b.score a.score

  -- A limit of zero or less keeps all.
  abbrev pub cut : ℤ → List Choice → List Choice
  cut (pos zero) options = options
  cut (pos (suc n)) options = if ltb (suc n) (length options) then take (suc n) options else options
  cut (negsuc n) options = options

  -- `Assemble`
  unfoldable pub assemble : List Vehicle → Prefs → ℤ → Board
  unfolding summaries options_of sort
  assemble vehicles prefs limit =
      let ranked = sort better (options_of prefs vehicles) in
      record {
        recommendation = head? ranked;
        options = cut limit ranked;
        by_operator = summaries vehicles [];
      }

  -- `DefaultPrefs`
  unfoldable pub default_prefs : Prefs
  default_prefs = record {
    operator_bonus =
        ("ryde", m.decimal 1000 0)
        ∷ ("voi", m.decimal 250 0)
        ∷ ("bolt", m.decimal 0 0)
        ∷ ("dott", m.sub (m.decimal 0 0) (m.decimal 1000 0))
        ∷ [];
    comfort_km = m.decimal 10 0;
    low_penalty = m.decimal 250 0;
    floor_km = m.decimal 4 0;
  }
