-- ===== src/Entur/Requests.antt =====
-- Which requests `Vehicles` sends.
use scootless.Base.{
  ◌≡◌, ◌≢◌, ◌≤◌, ◌<◌, true, List, [], ok, arith, String, Bool-cases, inl, inr, eq_iff, Result-cases,
  ◌==◌, string_eq, if◌then◌else◌,
}
use scootless.Base.Int.{pos, ltb_ℤ, leb_ℤ}
use scootless.Float.{Math}
use scootless.Entur.Operators.{operator_ids}
use scootless.Entur.Vehicles.{Query}
use scootless.Entur.Client.{
  Exchange, Client, default_endpoint, Request, Body, request, search, by_ids, vehicles, limit_of,
}

-- A request that the upstream can answer in earnest: it names a client, its radius is positive, it
-- asks for 1 to 500 vehicles, and it carries identifiers that `OperatorIDs` made.
abbrev IsProperBody : Body → Type 0
IsProperBody (search at range ids count) =
    (ltb_ℤ (pos 0) range ≡ true)
    × (0 < count)
    × (count ≤ 500)
    × ((keys : List String) × (operator_ids keys ≡ ok ids))
IsProperBody (by_ids ids) = ids ≢ []

abbrev pub IsProper : Request → Type 0
IsProper r = (r.client_name ≢ "") × (r.endpoint ≢ "") × IsProperBody r.body

limit_of_bounds : (q : Query) → (0 < limit_of q) × (limit_of q ≤ 500)
unfolding limit_of
limit_of_bounds q = ground arith

default-ne_empty : (s d : String) → d ≢ "" → (if s == "" then d else s) ≢ ""
default-ne_empty s d h e = elim (Bool-cases (s == "")) [
  | inl blank ↦ h (rw blank at e)
  | inr filled ↦ ground (arith, eq_iff s "", rw filled at e)
]

endpoint-ne_empty : default_endpoint ≢ ""
endpoint-ne_empty = ground (arith, eq_iff default_endpoint "")

name-ne_empty : ◌≢◌ {A = String} "scootless" ""
name-ne_empty = ground (arith, eq_iff "scootless" "")

request-named :
    (c : Client) (body : Body)
    → ((request c body).client_name ≢ "") × ((request c body).endpoint ≢ "")
request-named c body = (
  default-ne_empty c.client_name "scootless" name-ne_empty,
  default-ne_empty c.endpoint default_endpoint endpoint-ne_empty,
)

-- The outcome of `Vehicles` rests on proper requests alone: two upstreams that answer those alike
-- cannot be told apart, so no request with a radius of zero or less, with an unknown operator, with
-- no client name or with a count outside 1 to 500 is ever sent.
pub vehicles-IsProper :
    (m : Math) (one other : Exchange) (c : Client) (q : Query)
    → ((r : Request) → IsProper r → one r ≡ other r)
    → vehicles m one c q ≡ vehicles m other c q
unfolding vehicles
vehicles-IsProper m one other c q same = elim (Bool-cases (leb_ℤ q.radius_m (pos 0))) [
  | inl bad ↦ ground arith
  | inr good ↦ elim (Result-cases (operator_ids q.operator_keys)) [
    | inl (e, unknown) ↦ ground arith
    | inr (ids, known) ↦
        let r = request c (search q.at q.radius_m ids (limit_of q)) in
        let (name, place) = request-named c r.body in
        let (least, most) = limit_of_bounds q in
        let agree = same r (name, place, (ground arith, least, most, (q.operator_keys, known))) in
        ground (arith, agree)
  ]
]
