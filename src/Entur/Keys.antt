-- ===== src/Entur/Keys.antt =====
-- What `OperatorIDs` promises: no key is dropped or misspelt on its way to the upstream.
use scootless.Base.{
  ◌≡◌, ◌↔◌, refl, true, String, List, [], ◌∷◌, map, Option, none, some, ok, is_ok, All, arith,
  Option-cases, inl, inr, string_eq, eq_iff, ◌≢◌,
}
use mathlib.Core.Option
use scootless.Entur.Operators.{
  Operator, operators, ryde, voi, bolt, dott, lookup, by_id, ids_of, operator_ids,
}

abbrev IsKnown : String → Type 0
IsKnown k = lookup k ≢ none

-- The key of the operator that the upstream knows by an identifier.
abbrev key_of_id : String → Option String
key_of_id id = Option.map (λ o. o.key) (by_id id)

-- The keys that are asked for: an empty list asks for all.
abbrev or_all : List String → List String
or_all [] = map (λ o. o.key) operators
or_all (k ∷ keys) = k ∷ keys

by_id-table :
    (by_id ryde.id ≡ some ryde)
    × (by_id voi.id ≡ some voi)
    × (by_id bolt.id ≡ some bolt)
    × (by_id dott.id ≡ some dott)
unfolding by_id
by_id-table = (refl, refl, refl, refl)

-- A key that `Lookup` finds names an operator whose identifier leads back to the key.
lookup-key : (k : String) (o : Operator) → lookup k ≡ some o → key_of_id o.id ≡ some k
unfolding lookup
lookup-key k o e =
    ground (arith, by_id-table, eq_iff "ryde" k, eq_iff "voi" k, eq_iff "bolt" k, eq_iff "dott" k)

ids_of-ok : (keys : List String) → All IsKnown keys → is_ok (ids_of keys) ≡ true
unfolding ids_of
ids_of-ok [] a = refl
ids_of-ok (k ∷ keys) a = ground (arith, ids_of-ok keys a.1)

ids_of-IsKnown : (keys : List String) → is_ok (ids_of keys) ≡ true → All IsKnown keys
unfolding ids_of
ids_of-IsKnown [] h = tt
ids_of-IsKnown (k ∷ keys) h = ground (arith, ids_of-IsKnown keys)

-- `OperatorIDs` succeeds exactly when each key that it is given is the key of a supported operator.
operator_ids-ok : (keys : List String) → (is_ok (operator_ids keys) ≡ true) ↔ All IsKnown keys
unfolding operator_ids
operator_ids-ok [] = (λ h. tt, λ a. refl)
operator_ids-ok (k ∷ keys) = (ids_of-IsKnown (k ∷ keys), ids_of-ok (k ∷ keys))

ids_of-keys : (keys ids : List String) → ids_of keys ≡ ok ids → map key_of_id ids ≡ map some keys
unfolding ids_of
ids_of-keys [] [] e = refl
ids_of-keys [] (id ∷ ids) e = cc
ids_of-keys (k ∷ keys) [] e = ground (arith, Option-cases (lookup k))
ids_of-keys (k ∷ keys) (id ∷ ids) e = elim (Option-cases (lookup k)) [
  | inl missing ↦ ground arith
  | inr (o, found) ↦ ground (arith, ids_of-keys keys ids, lookup-key k o found)
]

-- Where `OperatorIDs` succeeds, the identifiers lead back to the keys, one for one and in order;
-- with no key they lead to every supported operator.
operator_ids-keys :
    (keys ids : List String)
    → operator_ids keys ≡ ok ids
    → map key_of_id ids ≡ map some (or_all keys)
unfolding operator_ids by_id
operator_ids-keys [] ids e = ground arith
operator_ids-keys (k ∷ keys) ids e = ids_of-keys (k ∷ keys) ids e
