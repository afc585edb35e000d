-- ===== src/Entur/Operators.antt =====
-- internal/entur/entur.go and client.go: the supported operators, and keys turned into identifiers.
use scootless.Base.{
  String, List, [], ◌∷◌, map, Option, none, some, Result, ok, err, ◌>>=◌, ◌==◌, string_eq,
}
use scootless.Base.Table.{find?}
use scootless.Base.Int.{ℤ}

pub record Operator : Type 0 where
  pub key : String
  pub id : String
  pub name : String

abbrev pub ryde : Operator
ryde = record { key = "ryde"; id = "YRY:Operator:Ryde"; name = "Ryde" }

abbrev pub voi : Operator
voi = record { key = "voi"; id = "YVO:Operator:voi"; name = "Voi" }

abbrev pub bolt : Operator
bolt = record { key = "bolt"; id = "YBO:Operator:bolt"; name = "Bolt" }

abbrev pub dott : Operator
dott = record { key = "dott"; id = "YDT:Operator:dott"; name = "Dott" }

-- `operators`, which `Operators` copies.
abbrev pub operators : List Operator
operators = ryde ∷ voi ∷ bolt ∷ dott ∷ []

-- `Lookup`
unfoldable pub lookup : String → Option Operator
lookup key = find? (λ o. o.key == key) operators

unfoldable pub by_id : String → Option Operator
by_id id = find? (λ o. o.id == id) operators

-- What the client refuses or reports.
pub data EnturError : Type 0 where
  bad_radius : ℤ → EnturError
  unknown_operator : String → EnturError
  exchange_failed : String → EnturError
  unexpected_status : String → EnturError
  undecodable : String → EnturError
  graphql : String → EnturError

-- The loop of `OperatorIDs` over a non-empty list of keys.
unfoldable pub ids_of : List String → Result EnturError (List String)
ids_of [] = ok []
ids_of (k ∷ keys) = elim (lookup k) [
  | none ↦ err (unknown_operator k)
  | some o ↦ ids_of keys >>= λ ids. ok (o.id ∷ ids)
]

-- `OperatorIDs`
unfoldable pub operator_ids : List String → Result EnturError (List String)
unfolding ids_of
operator_ids [] = ok (map (λ o. o.id) operators)
operator_ids (k ∷ keys) = ids_of (k ∷ keys)
