-- ===== src/Track/Records.antt =====
-- cmd/scootless-track/main.go: what the JSON object of an event holds.
use scootless.Base.{◌≡◌, refl, String, Option, none, some, All}
use scootless.Base.Dict.{get}
use scootless.Float.{Math}
use scootless.Track.{Event, parked, reappeared, moved, vanished}
use scootless.Track.Command.{text, Fields, extra_of, name_of, record_of}

-- The object has the time, the vehicle and the event, and each of the event's fields beside them.
abbrev IsWhole : String → String → String → Fields → Type 0
IsWhole at id event extra =
    let object = record_of at id event extra in
    (get "at" object ≡ some (text at))
    × (get "vehicle_id" object ≡ some (text id))
    × (get "event" object ≡ some (text event))
    × All (λ (k, v). get k object ≡ some v) extra

abbrev pub Where : Option Fields → (Fields → Type 0) → Type 0
Where none P = Unit
Where (some extra) P = P extra

-- The JSON object of an event has the time, the vehicle and the event's name, and each field of the
-- event beside them: none of them takes another's place.
record_of-IsWhole :
    (m : Math) (at id : String) (e : Event) → Where (extra_of m e) (IsWhole at id (name_of e))
unfolding record_of extra_of get
record_of-IsWhole m at id (parked p range_m) = (refl, refl, refl, (refl, (refl, (refl, tt))))
record_of-IsWhole m at id (reappeared p moved_m none gone_for_s) = tt
record_of-IsWhole m at id (reappeared p moved_m (some b) gone_for_s) =
    (refl, refl, refl, (refl, (refl, (refl, (refl, (refl, tt))))))
record_of-IsWhole m at id (moved p by_m) = (refl, refl, refl, (refl, (refl, (refl, tt))))
record_of-IsWhole m at id vanished = (refl, refl, refl, (refl, tt))
