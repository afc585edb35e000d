-- ===== src/Notify/Wire.antt =====
-- What leaves the program when a watch fires: internal/notify/notify.go and ntfy.go.
use scootless.Base.{String, ◌<>◌, List, [], ◌∷◌, map, ◌≡◌, refl, ap}
use scootless.Float.{Math}
use scootless.Geo.{Point}
use scootless.Entur.Vehicles
use scootless.Store.Schema.{Watch}
use scootless.Poll.Run.{Notification}
use scootless.Notify.Payloads.{payload_of, vehicle_of}
use scootless.Notify.{Format, Mqtt, Ntfy, post_payload, publish_body, publish_fired, publish_ntfy}

abbrev at_places : (String → Point) → List Vehicles.Vehicle → List Vehicles.Vehicle
at_places at vs = map (λ (v : Vehicles.Vehicle). record v { at = at v.id }) vs

-- The same notification of another watch with the same identifier, about a fence and vehicles
-- elsewhere.
abbrev pub moved : Watch → Point → (String → Point) → Notification → Notification
moved w p at n = record n {
  watch = w;
  fence = record n.fence { at = p };
  vehicles = at_places at n.vehicles;
}

vehicle_of-at_places :
    (m : Math) (at : String → Point) (vs : List Vehicles.Vehicle)
    → map (vehicle_of m) (at_places at vs) ≡ map (vehicle_of m) vs
vehicle_of-at_places m at [] = refl
vehicle_of-at_places m at (v ∷ vs) = ap (λ ws. vehicle_of m v ∷ ws) (vehicle_of-at_places m at vs)

payload_of-moved :
    (m : Math) (w : Watch) (p : Point) (at : String → Point) (n : Notification)
    → payload_of m (moved w p at n) ≡ payload_of m n
unfolding payload_of
payload_of-moved m w p at n =
    ap (λ vs. record (payload_of m n) { vehicles = vs }) (vehicle_of-at_places m at n.vehicles)

-- No sink discloses a coordinate: what MQTT publishes, what goes to the ntfy server, and the error
-- that comes back are the same wherever the fence and the vehicles are, and whatever else the watch
-- holds than its identifier.
publish_moved :
    (m : Math) (f : Format) (q : Mqtt) (s : Ntfy) (w : Watch) (p : Point) (at : String → Point)
    (n : Notification)
    → (publish_fired m f q (moved w p at n) ≡ publish_fired m f q n)
      × (publish_ntfy m f s (moved w p at n) ≡ publish_ntfy m f s n)
unfolding publish_fired publish_ntfy post_payload
publish_moved m f q s w p at n = (
  ap (λ p. publish_body q (q.prefix <> "/watch/" <> n.watch_id <> "/fired") (f.marshal p))
      (payload_of-moved m w p at n),
  ap (post_payload m f s) (payload_of-moved m w p at n),
)
