-- ===== src/Tests/OtherRuns.antt =====
-- internal/entur, internal/geo, internal/board, cmd/scootless-track: the results at concrete
-- inputs.
use scootless.Float.{IsNumber}
use mathlib.Core.List.{Perm}
use scootless.Base.{
  All-of, ℕ, ◌≡◌, ◌↔◌, refl, Bool, true, false, List, [], ◌∷◌, Option, none, some, ok, All,
  count_if, keep, ◌==◌, string_eq, nat_eq, ◌&&◌, leb, length, map, not, suc, Bool-cases, inl, inr,
  eq_iff, if◌then◌else◌,
}
use scootless.Base.Int.{pos}
use scootless.Base.Order.{IsSorted}
use scootless.Tests.Data.{
  flat, flat-IsLinear, flat-IsNumber, spot, whole, near_scooter, far_scooter,
}
use scootless.Geo.{bounding_radius_m, zero_float}
use scootless.Geo.Cover.{bounding_radius_m-covers, Circle, centre_of, radius_of, edge}
use scootless.Entur.Operators.{operator_ids, lookup}
use scootless.Entur.Vehicles.{Vehicle, Query, Fetched, GqlVehicle, max_results}
use scootless.Entur.Client.{
  Client, Exchange, answer, failed, Request, vehicles, nearer, limit_of, fetched_of,
}
use scootless.Entur.Filters.{
  Satisfies, vehicles-Satisfies, vehicles_complete, wanted, identity, sent_identity,
}
use scootless.Entur.Requests.{vehicles-IsProper, IsProper}
use scootless.Track.{follow, fresh}
use scootless.Track.Alternation.{follow-alternates, accepts, unseen}
use scootless.Board.{options_of, Choice, assemble, default_prefs, too_flat}
use scootless.Board.Ranking.{assemble-recommends}

abbrev query : Query
query = record {
  at = spot 1 1;
  radius_m = pos 500;
  operator_keys = "ryde" ∷ [];
  min_range_m = pos 0;
  form_factors = [];
  include_unrentable = false;
  limit = pos 0;
}

abbrev client : Client
client = record { endpoint = ""; client_name = "me" }

abbrev upstream_vehicle : Bool → GqlVehicle
upstream_vehicle reserved = record {
  id = "YRY:Vehicle:ea123456-a";
  lat = whole 1;
  lon = whole 1;
  is_reserved = reserved;
  is_disabled = false;
  current_range_meters = some (whole 9000);
  current_fuel_percent = none;
  vehicle_type = some "SCOOTER_STANDING";
  rental_uris = none;
  system = some (some (record { id = "YRY:Operator:Ryde"; name = none }));
}

abbrev raw : List GqlVehicle
raw = upstream_vehicle false ∷ upstream_vehicle true ∷ []

abbrev exchange : Exchange
exchange r = answer [] raw

vehicles-Satisfies_example :
    All (Satisfies flat query) (fetched_of flat raw query).vehicles
    × IsSorted (nearer flat) (fetched_of flat raw query).vehicles
unfolding vehicles operator_ids lookup
vehicles-Satisfies_example =
    vehicles-Satisfies flat query flat-IsLinear exchange client (fetched_of flat raw query) refl (
      All-of (λ (v : Vehicle). IsNumber flat v.distance_m) (λ v. flat-IsNumber v.distance_m)
        (fetched_of flat raw query).vehicles)

vehicles_complete_example :
    (res : Fetched) × (vehicles flat exchange client query ≡ ok res)
    × Perm (map identity res.vehicles) (map (sent_identity) (keep (wanted flat query) raw))
    × (res.returned ≡ 2)
    × (res.truncated ≡ (limit_of query == max_results && leb max_results 2))
unfolding operator_ids lookup
vehicles_complete_example =
    vehicles_complete flat query exchange client ("YRY:Operator:Ryde" ∷ []) raw refl refl refl

-- An upstream that fails on a request without a client's name alone.
abbrev strict : Exchange
strict r = if r.client_name == "" then failed "no name" else answer [] raw

strict_agrees : (r : Request) → IsProper r → exchange r ≡ strict r
strict_agrees r h = elim (Bool-cases (r.client_name == "")) [
  | inl blank ↦ absurd (h.0 ((eq_iff r.client_name "").0 blank))
  | inr filled ↦ rw filled refl
]

vehicles-IsProper_example : vehicles flat exchange client query ≡ vehicles flat strict client query
vehicles-IsProper_example = vehicles-IsProper flat exchange strict client query strict_agrees

abbrev circles : List Circle
circles = (spot 1 1, whole 500) ∷ (spot 3 1, whole 400) ∷ []

bounding_radius_m-covers_example :
    let cover = bounding_radius_m flat (map centre_of circles) (map radius_of circles) in
    All (λ k. flat.less cover.1 (edge flat cover.0 k) ≡ false) circles
bounding_radius_m-covers_example =
    bounding_radius_m-covers flat flat-IsLinear circles (flat-IsNumber zero_float) (
      All-of
        (λ k.
          IsNumber flat (
            edge flat (bounding_radius_m flat (map centre_of circles) (map radius_of circles)).0 k))
        (λ k.
          flat-IsNumber (
            edge flat (bounding_radius_m flat (map centre_of circles) (map radius_of circles)).0 k))
        circles)

abbrev looks : List (ℕ × Option Vehicle)
looks = (1, none) ∷ (2, some near_scooter) ∷ (3, none) ∷ (4, none) ∷ (5, some near_scooter) ∷ []

follow-alternates_example : accepts unseen (follow flat looks (fresh (spot 0 0))) ≡ true
follow-alternates_example = follow-alternates flat (spot 0 0) looks

abbrev both : List Vehicle
both = far_scooter ∷ near_scooter ∷ []

assemble-recommends_example :
    let b = assemble flat both (default_prefs flat) (pos 1) in
    ((best : Choice)
      → b.recommendation ≡ some best
      → All (λ c. flat.less best.score c.score ≡ false) b.options)
    × ((b.recommendation ≡ none)
        ↔ (count_if (λ v. not (too_flat flat (default_prefs flat) v)) both ≡ 0))
    × ((n : ℕ) → pos 1 ≡ pos (suc n) → leb (length b.options) (suc n) ≡ true)
assemble-recommends_example =
    assemble-recommends flat flat-IsLinear both (default_prefs flat) (pos 1) (
      All-of (λ c. IsNumber flat c.score) (λ c. flat-IsNumber c.score)
        (options_of flat (default_prefs flat) both))
