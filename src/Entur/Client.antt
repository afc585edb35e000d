-- ===== src/Entur/Client.antt =====
-- internal/entur/client.go: `Vehicles` and `ByID`. The HTTP exchange is not code of the repository:
-- it is a function from the request to what comes back.
use scootless.Base.{
  ℕ, Bool, ◌&&◌, ◌||◌, String, List, [], ◌∷◌, none, some, Result, ok, err, ◌>>=◌, if◌then◌else◌,
  ◌==◌, string_eq, nat_eq, leb, length,
}
use scootless.Base.Int.{ℤ, pos, ltb_ℤ, leb_ℤ, pos_part}
use scootless.Base.Order.{sort}
use scootless.Float.{Math}
use scootless.Geo.{Point}
use scootless.Entur.Operators.{
  EnturError, bad_radius, exchange_failed, unexpected_status, undecodable, graphql, operator_ids,
}
use scootless.Entur.Vehicles.{Vehicle, Query, Fetched, GqlVehicle, max_results}
use scootless.Entur.Convert.{convert}

abbrev pub default_endpoint : String
default_endpoint = "https://api.entur.io/mobility/v2/graphql"

-- The variables of the two GraphQL queries.
pub data Body : Type 0 where
  search : (at : Point) (range : ℤ) (operators : List String) (count : ℕ) → Body
  by_ids : (ids : List String) → Body

pub record Request : Type 0 where
  pub endpoint : String
  pub client_name : String
  pub body : Body

-- What comes of a request: no exchange, a status other than 200, a body that does not decode, or a
-- decoded body with its errors and its vehicles.
pub data Reply : Type 0 where
  failed : String → Reply
  refused : (status : String) → Reply
  garbled : String → Reply
  answer : (errors : List String) (vehicles : List GqlVehicle) → Reply

abbrev pub Exchange : Type 0
Exchange = Request → Reply

pub record Client : Type 0 where
  pub endpoint : String
  pub client_name : String

-- `New`
unfoldable pub new : String → Client
new client_name = record {
  endpoint = default_endpoint;
  client_name = if client_name == "" then "scootless" else client_name;
}

-- `endpoint` and `clientName`, with their defaults.
abbrev pub request : Client → Body → Request
request c body = record {
  endpoint = if c.endpoint == "" then default_endpoint else c.endpoint;
  client_name = if c.client_name == "" then "scootless" else c.client_name;
  body = body;
}

-- The checks on a reply that `Vehicles` and `ByID` share.
unfoldable pub vehicles_in : Reply → Result EnturError (List GqlVehicle)
vehicles_in (failed why) = err (exchange_failed why)
vehicles_in (refused status) = err (unexpected_status status)
vehicles_in (garbled why) = err (undecodable why)
vehicles_in (answer (e ∷ errors) raw) = err (graphql e)
vehicles_in (answer [] raw) = ok raw

-- `limit`
unfoldable pub limit_of : Query → ℕ
limit_of q =
    if leb_ℤ q.limit (pos 0) || ltb_ℤ (pos max_results) q.limit
    then max_results
    else pos_part q.limit

module _ (m : Math) where
  -- The loop that converts and keeps.
  unfoldable pub convert_all : List GqlVehicle → Query → List Vehicle
  convert_all [] q = []
  convert_all (rv ∷ raw) q = elim (convert m rv q) [
    | none ↦ convert_all raw q
    | some v ↦ v ∷ convert_all raw q
  ]

  abbrev pub nearer : Vehicle → Vehicle → Bool
  nearer a b = m.less a.distance_m b.distance_m

  unfoldable pub fetched_of : List GqlVehicle → Query → Fetched
  unfolding convert_all sort limit_of
  fetched_of raw q = record {
    vehicles = sort nearer (convert_all raw q);
    returned = length raw;
    truncated = leb (limit_of q) (length raw) && limit_of q == max_results;
  }

  -- `Vehicles`
  unfoldable pub vehicles : Exchange → Client → Query → Result EnturError Fetched
  unfolding vehicles_in fetched_of limit_of
  vehicles exchange c q = if leb_ℤ q.radius_m (pos 0) then err (bad_radius q.radius_m) else do
    ids ← operator_ids q.operator_keys
    raw ← vehicles_in (exchange (request c (search q.at q.radius_m ids (limit_of q))))
    ok (fetched_of raw q)

  -- `out[v.ID] = v`, over an association list.
  put_vehicle : Vehicle → List (String × Vehicle) → List (String × Vehicle)
  put_vehicle v [] = (v.id, v) ∷ []
  put_vehicle v ((id, w) ∷ out) =
      if id == v.id then (v.id, v) ∷ out else (id, w) ∷ put_vehicle v out

  index_by_id : List Vehicle → List (String × Vehicle) → List (String × Vehicle)
  unfolding put_vehicle
  index_by_id [] out = out
  index_by_id (v ∷ vs) out = index_by_id vs (put_vehicle v out)

  -- `ByID`: a radius of zero switches the distance filter off.
  unfoldable pub by_id :
      Exchange → Client → List String → Query → Result EnturError (List (String × Vehicle))
  unfolding vehicles_in convert_all index_by_id
  by_id exchange c [] q = ok []
  by_id exchange c (id ∷ ids) q = do
    raw ← vehicles_in (exchange (request c (by_ids (id ∷ ids))))
    ok (index_by_id (convert_all raw (record q { radius_m = pos 0 })) [])
