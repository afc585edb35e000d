-- ===== src/Store/Stints/Loop.antt =====
-- internal/store/presence.go: the loop of `ObservePresence` over what was seen.
use scootless.Base.{
  ℕ, ◌≡◌, refl, Bool, true, not, String, List, [], ◌∷◌, ◌++◌, map, Option, none, some, string_eq,
  nat_eq, eq_refl, eq_symm, any, keep, arith, leb, All, Option-cases, ◌⊎◌, inl, inr, ◌∙◌, ap, sym,
  ok, ◌>>=◌, >>=-eq-ok,
}
use mathlib.Core.List.{append-nil, append_assoc}
use scootless.Base.Table.{update_where, upsert}
use scootless.Store.Schema.{PresenceRow, unix}
use scootless.Store.Presence.{
  Sighting, Arrival, is_stint, presence_key, extend_to, sight, sight_all,
}
use scootless.Store.Stints.Updates.{
  Rows, is_some, is_present, update-keeps, update-reaches, upsert-keeps, upsert-reaches,
}

module _ (linked : Bool) (fence_id : String) (at : ℕ) (opened : String → Option ℕ) where
  -- The vehicle had no open stint before the observation.
  abbrev pub is_new : Sighting → Bool
  is_new s = not (is_some (opened s.vehicle_id))

  abbrev pub arrival_of : Sighting → Arrival
  arrival_of s = record { sighting = s; at = at }

  abbrev pub fresh : Sighting → PresenceRow
  fresh s = record {
    fence_id = fence_id;
    vehicle_id = s.vehicle_id;
    operator = s.operator;
    first_seen = unix at;
    last_seen = unix at;
  }

  abbrev pub begun : Sighting → Rows → Rows
  begun s rows = upsert (presence_key (fresh s)) (extend_to (unix at)) (fresh s) rows

  abbrev pub extended : Sighting → ℕ → Rows → Rows
  extended s first rows =
      update_where (is_stint fence_id s.vehicle_id first) (extend_to (unix at)) rows

  -- Either the vehicle is new and a stint begins, or its open stint is extended.
  pub sight-cases :
      (s : Sighting) (rows rows' : Rows) (new new' : List Arrival)
      → sight linked fence_id at opened s (rows, new) ≡ ok (rows', new')
      → ((opened s.vehicle_id ≡ none)
          × (rows' ≡ begun s rows)
          × (new' ≡ (new ++ arrival_of s ∷ [])))
        ⊎ ((first : ℕ) × (opened s.vehicle_id ≡ some first)
            × (rows' ≡ extended s first rows)
            × (new' ≡ new))
  sight-cases s rows rows' new new' e = elim (Option-cases (opened s.vehicle_id)) [
    | inl f ↦ inl (f, ground arith, ground arith)
    | inr (first, f) ↦ inr (first, f, ground arith, ground arith)
  ]

  pub sight-extends :
      (s : Sighting) (first : ℕ) (rows : Rows) (new : List Arrival)
      → opened s.vehicle_id ≡ some first
      → sight linked fence_id at opened s (rows, new) ≡ ok (extended s first rows, new)
  sight-extends s first rows new f = rw (f, sight) refl

  pub sight-keeps :
      (p : PresenceRow → Bool) (s : Sighting) (rows rows' : Rows) (new new' : List Arrival)
      → ((r : PresenceRow) → p r ≡ true → p (extend_to (unix at) r) ≡ true)
      → sight linked fence_id at opened s (rows, new) ≡ ok (rows', new')
      → any p rows ≡ true
      → any p rows' ≡ true
  sight-keeps p s rows rows' new new' keeps e a = elim (sight-cases s rows rows' new new' e) [
    | inl (f, shape, arrived) ↦ rw shape (upsert-keeps p _ _ (fresh s) rows keeps a)
    | inr (first, f, shape, arrived) ↦ rw shape (update-keeps p _ _ rows keeps a)
  ]

  pub sight_all-arrivals :
      (seen : List Sighting) (rows rows' : Rows) (new new' : List Arrival)
      → sight_all linked fence_id at opened seen (rows, new) ≡ ok (rows', new')
      → new' ≡ (new ++ map arrival_of (keep is_new seen))
  unfolding sight_all
  sight_all-arrivals [] rows rows' new new' e =
      let same : new' ≡ new = ground arith in same ∙ sym (append-nil new)
  sight_all-arrivals (s ∷ seen) rows rows' new new' e =
      let ((rows1, new1), first_step, rest) =
        >>=-eq-ok (sight linked fence_id at opened s (rows, new))
          (sight_all linked fence_id at opened seen) e in
      let done = sight_all-arrivals seen rows1 rows' new1 new' rest in
      elim (sight-cases s rows rows1 new new1 first_step) [
        | inl (f, shape, arrived) ↦
            rw (f, map, keep)
              (done
                ∙ ap (λ l. l ++ map arrival_of (keep is_new seen)) arrived
                ∙ append_assoc new (arrival_of s ∷ []) _)
        | inr (first, f, shape, arrived) ↦
            rw (f, map, keep) (done ∙ ap (λ l. l ++ map arrival_of (keep is_new seen)) arrived)
      ]

  pub sight_all-keeps :
      (p : PresenceRow → Bool) (seen : List Sighting) (rows rows' : Rows) (new new' : List Arrival)
      → ((r : PresenceRow) → p r ≡ true → p (extend_to (unix at) r) ≡ true)
      → sight_all linked fence_id at opened seen (rows, new) ≡ ok (rows', new')
      → any p rows ≡ true
      → any p rows' ≡ true
  unfolding sight_all
  sight_all-keeps p [] rows rows' new new' keeps e a = ground arith
  sight_all-keeps p (s ∷ seen) rows rows' new new' keeps e a =
      let ((rows1, new1), first_step, rest) =
        >>=-eq-ok (sight linked fence_id at opened s (rows, new))
          (sight_all linked fence_id at opened seen) e in
      sight_all-keeps p seen rows1 rows' new1 new' keeps rest
        (sight-keeps p s rows rows1 new new1 keeps first_step a)

module _ (linked : Bool) (fence_id : String) (at : ℕ) (opened : String → Option ℕ)
    (cutoff : ℕ) where
  -- Each open stint that was read before the loop has its row.
  abbrev pub HasRows : Rows → Type 0
  HasRows rows =
      (id : String) (first : ℕ)
      → opened id ≡ some first
      → any (is_stint fence_id id first) rows ≡ true

  pub sight-HasRows :
      (s : Sighting) (rows rows' : Rows) (new new' : List Arrival)
      → sight linked fence_id at opened s (rows, new) ≡ ok (rows', new')
      → HasRows rows
      → HasRows rows'
  sight-HasRows s rows rows' new new' e h id first f =
      sight-keeps linked fence_id at opened (is_stint fence_id id first) s rows rows' new new'
        (λ r k. k) e (h id first f)

  pub sight-reaches :
      (s : Sighting) (rows rows' : Rows) (new new' : List Arrival)
      → leb cutoff (unix at) ≡ true
      → HasRows rows
      → sight linked fence_id at opened s (rows, new) ≡ ok (rows', new')
      → any (is_present fence_id cutoff s.vehicle_id) rows' ≡ true
  sight-reaches s rows rows' new new' c h e =
      elim (sight-cases linked fence_id at opened s rows rows' new new' e) [
        | inl (f, shape, arrived) ↦ rw shape (
            upsert-reaches _ _ _ (fresh linked fence_id at opened s) rows
              (λ r k.
                ground (arith, eq_symm s.vehicle_id r.vehicle_id, eq_symm fence_id r.fence_id))
              (ground (arith, eq_refl fence_id, eq_refl s.vehicle_id)))
        | inr (first, f, shape, arrived) ↦
            rw shape (update-reaches _ _ _ rows (λ r k. ground arith) (h s.vehicle_id first f))
      ]

  pub sight_all-reaches :
      (seen : List Sighting) (rows rows' : Rows) (new new' : List Arrival)
      → leb cutoff (unix at) ≡ true
      → HasRows rows
      → sight_all linked fence_id at opened seen (rows, new) ≡ ok (rows', new')
      → All (λ s. any (is_present fence_id cutoff s.vehicle_id) rows' ≡ true) seen
  unfolding sight_all
  sight_all-reaches [] rows rows' new new' c h e = tt
  sight_all-reaches (s ∷ seen) rows rows' new new' c h e =
      let ((rows1, new1), first_step, rest) =
        >>=-eq-ok (sight linked fence_id at opened s (rows, new))
          (sight_all linked fence_id at opened seen) e in
      (
        sight_all-keeps linked fence_id at opened (is_present fence_id cutoff s.vehicle_id) seen
            rows1 rows' new1 new' (λ r k. ground arith) rest
            (sight-reaches s rows rows1 new new1 c h first_step),
        sight_all-reaches seen rows1 rows' new1 new' c
            (sight-HasRows s rows rows1 new new1 first_step h) rest,
      )

  pub sight_all-quiet :
      (seen : List Sighting) (rows : Rows) (new : List Arrival)
      → All (λ s. (first : ℕ) × (opened s.vehicle_id ≡ some first)) seen
      → (rows' : Rows) × (sight_all linked fence_id at opened seen (rows, new) ≡ ok (rows', new))
  unfolding sight_all
  sight_all-quiet [] rows new a = (rows, refl)
  sight_all-quiet (s ∷ seen) rows new ((first, f), a) =
      let (rows', rest) =
        sight_all-quiet seen (extended linked fence_id at opened s first rows) new a in
      (
        rows',
        ap (λ r. r >>= sight_all linked fence_id at opened seen)
              (sight-extends linked fence_id at opened s first rows new f)
            ∙ rest,
      )
