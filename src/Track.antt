-- ===== src/Track.antt =====
-- cmd/scootless-track/main.go: the command that follows named vehicles, and the events that it
-- emits.
pub mod Alternation
pub mod Loop
pub mod Command
pub mod Ends
pub mod Records
use scootless.Base.{
  ℕ, ◌-◌, ◌/◌, Bool, true, false, not, String, List, [], ◌∷◌, ◌++◌, map, Option, none, some, Result,
  ok, err, if◌then◌else◌,
}
use scootless.Base.Int.{ℤ}
use scootless.Float.{Math}
use scootless.Geo.{Point, distance_m, bearing_deg, compass}
use scootless.Entur.Operators.{EnturError}
use scootless.Entur.Vehicles.{Vehicle}
use scootless.Base.Dict.{put, get}

-- `state`. Times are in nanoseconds.
pub record State : Type 0 where
  pub seen : Bool
  pub at : Point
  pub since : ℕ
  pub start : Point
  pub has_start : Bool
  pub gone_at : ℕ

-- What `emit` prints, with the fields that each event carries; a range is kept in metres. A bearing
-- of `none` is an index of `Compass` that is out of range, where Go panics.
pub data Event : Type 0 where
  parked : (at : Point) (range_m : ℤ) → Event
  reappeared : (at : Point) (moved_m : ℤ) (bearing : Option String) (gone_for_s : ℕ) → Event
  moved : (at : Point) (by_m : ℤ) → Event
  vanished : Event

module _ (m : Math) (now : ℕ) where
  abbrev arrive : Vehicle → State → State × List Event
  arrive v s =
      if not s.has_start
      then (
        record s { seen = true; at = v.at; since = now; start = v.at; has_start = true },
        parked v.at v.range_m ∷ [],
      )
      else (
        record s { seen = true; at = v.at; since = now; start = v.at },
        reappeared v.at (m.to_int (m.add (distance_m m s.start v.at) (m.decimal 5 1)))
              (compass m (bearing_deg m s.start v.at)) ((now - s.gone_at) / 1000000000)
            ∷ [],
      )

  abbrev drift : Vehicle → State → State × List Event
  drift v s =
      let d = distance_m m s.at v.at in
      if m.less (m.decimal 15 0) d
      then (record s { at = v.at }, moved v.at (m.to_int (m.add d (m.decimal 5 1))) ∷ [])
      else (s, [])

  -- The switch of the loop, for one vehicle.
  pub look : Option Vehicle → State → State × List Event
  look (some v) s = if not s.seen then arrive v s else drift v s
  look none s =
      if s.seen then (record s { seen = false; gone_at = now }, vanished ∷ []) else (s, [])

abbrev pub fresh : Point → State
fresh origin = record {
  seen = false;
  at = origin;
  since = 0;
  start = origin;
  has_start = false;
  gone_at = 0;
}

-- `states[id]`: each followed vehicle has one, whatever was given twice.
abbrev state_of : Point → Option State → State
state_of origin none = fresh origin
state_of origin (some s) = s

-- One look at all the vehicles. `found` is what `ByID` returned.
look_all :
    Math
    → ℕ
    → Point
    → List (String × Vehicle)
    → List String
    → List (String × State)
    → List (String × State) × List (String × Event)
unfolding look put get
look_all m now origin found [] states = (states, [])
look_all m now origin found (id ∷ ids) states =
    let (s, events) = look m now (get id found) (state_of origin (get id states)) in
    let (rest, more) = look_all m now origin found ids (put id s states) in
    (rest, map (λ e. (id, e)) events ++ more)

-- One round of the loop: a lookup that failed changes nothing.
unfoldable pub round :
    Math
    → ℕ
    → Point
    → List String
    → Result EnturError (List (String × Vehicle))
    → List (String × State)
    → List (String × State) × List (String × Event)
unfolding look_all
round m now origin ids (err e) states = (states, [])
round m now origin ids (ok found) states = look_all m now origin found ids states

-- The looks at one vehicle, each with its time.
pub follow : Math → List (ℕ × Option Vehicle) → State → List Event
unfolding look
follow m [] s = []
follow m ((now, sight) ∷ looks) s =
    let (next, events) = look m now sight s in events ++ follow m looks next
