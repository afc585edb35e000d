-- ===== src/Entur/Filters.antt =====
-- What `convert` keeps, and what `Vehicles` returns.
use mathlib.Core.List.{Perm}
use mathlib.Core.List.Perm
use scootless.Base.{
  sym, ap, ◌≡◌, refl, Bool, true, false, not, ◌&&◌, ◌||◌, String, List, [], ◌∷◌, some, ok,
  >>=-eq-ok, Bool-cases, All, length, map, keep, arith, leb, ◌==◌, nat_eq, Option-cases, inl, inr,
}
use scootless.Base.Int.{pos, ltb_ℤ, leb_ℤ}
use scootless.Base.Order.{All-of_sort, IsSorted, IsOrder, All-sort, sort-perm, sort-IsSorted}
use scootless.Float.{Math, IsLinear, IsNumber}
use scootless.Geo.{Point, distance_m}
use scootless.Entur.Operators.{operator_ids}
use scootless.Entur.Vehicles.{Vehicle, Query, Fetched, GqlVehicle, max_results, rentable}
use scootless.Entur.Convert.{
  allowed_form, form_of, point_of, range_of, too_far, vehicle_of, convert,
}
use scootless.Entur.Client.{
  Exchange, Client, answer, search, request, vehicles_in, limit_of, convert_all, nearer, fetched_of,
  vehicles,
}

-- What tells a vehicle of an answer, and the one that the upstream sent.
abbrev pub identity : Vehicle → String × Point
identity v = (v.id, v.at)

abbrev pub sent_identity : GqlVehicle → String × Point
sent_identity rv = (rv.id, point_of rv)

module _ (m : Math) (q : Query) where
  -- What a query says of one vehicle of its answer.
  pub record Satisfies (v : Vehicle) : Type 0 where
    pub can_be_rented : (q.include_unrentable || rentable v) ≡ true
    pub form : allowed_form v.form_factor q.form_factors ≡ true
    pub range : ltb_ℤ v.range_m q.min_range_m ≡ false
    pub near : too_far m q v.distance_m ≡ false
    pub measured : v.distance_m ≡ distance_m m q.at v.at

  convert-Satisfies : (rv : GqlVehicle) (v : Vehicle) → convert m rv q ≡ some v → Satisfies v
  unfolding convert vehicle_of rentable
  convert-Satisfies rv v e = ground arith

  convert_all-Satisfies : (raw : List GqlVehicle) → All Satisfies (convert_all m raw q)
  unfolding convert_all
  convert_all-Satisfies [] = tt
  convert_all-Satisfies (rv ∷ raw) = elim (Option-cases (convert m rv q)) [
    | inl e ↦ rw (e, convert_all) (convert_all-Satisfies raw)
    | inr (v, e) ↦ rw (e, convert_all) (convert-Satisfies rv v e, convert_all-Satisfies raw)
  ]

  -- The upstream vehicles that a query asks for, told from their own fields.
  abbrev pub wanted : GqlVehicle → Bool
  wanted rv =
      (q.include_unrentable || not rv.is_disabled && not rv.is_reserved)
      && allowed_form (form_of rv) q.form_factors
      && leb_ℤ q.min_range_m (range_of m rv)
      && not (too_far m q (distance_m m q.at (point_of rv)))

  identities-convert_all :
      (raw : List GqlVehicle)
      → map identity (convert_all m raw q) ≡ map sent_identity (keep wanted raw)
  unfolding convert_all convert vehicle_of
  identities-convert_all [] = refl
  identities-convert_all (rv ∷ raw) = ground (arith, identities-convert_all raw)

  nearer-IsOrder : IsLinear m → IsOrder (nearer m) (λ v. IsNumber m v.distance_m)
  nearer-IsOrder o = record {
    asymm = λ a b. o.asymm a.distance_m b.distance_m;
    step = λ a b c. o.step a.distance_m b.distance_m c.distance_m;
  }

  vehicles-fetched :
      (exchange : Exchange) (c : Client) (res : Fetched)
      → vehicles m exchange c q ≡ ok res
      → (raw : List GqlVehicle) × (res ≡ fetched_of m raw q)
  unfolding vehicles
  vehicles-fetched exchange c res e = elim (Bool-cases (leb_ℤ q.radius_m (pos 0))) [
    | inl bad ↦ absurd (ground arith)
    | inr good ↦
        let (ids, known, chain) =
          >>=-eq-ok (operator_ids q.operator_keys) _ (rw (good, vehicles) at e) in
        let reply = exchange (request c (search q.at q.radius_m ids (limit_of q))) in
        let (raw, sent, done) =
          >>=-eq-ok (vehicles_in reply) (λ raw. ok (fetched_of m raw q)) chain in
        (raw, ground arith)
  ]

  -- Whatever the upstream sends, each vehicle of a successful answer passes the query's filters,
  -- its distance is measured from the point that was asked about, and where no distance is NaN no
  -- vehicle stands behind one that is further away.
  pub vehicles-Satisfies :
      IsLinear m
      → (exchange : Exchange) (c : Client) (res : Fetched) → vehicles m exchange c q ≡ ok res
      → All (λ (v : Vehicle). IsNumber m v.distance_m) res.vehicles
      → All Satisfies res.vehicles × IsSorted (nearer m) res.vehicles
  unfolding fetched_of
  vehicles-Satisfies o exchange c res e n =
      let (raw, shape) = vehicles-fetched exchange c res e in
      rw shape (
        All-sort (nearer m) Satisfies (convert_all m raw q) (convert_all-Satisfies raw),
        sort-IsSorted (nearer m) (λ v. IsNumber m v.distance_m) (nearer-IsOrder o)
            (convert_all m raw q)
            (All-of_sort (nearer m) (λ v. IsNumber m v.distance_m) (convert_all m raw q)
              (rw (sym (ap (λ (r : Fetched). r.vehicles) shape)) n)),
      )

  -- A query with a positive radius whose keys are all known, and whose exchange answers without
  -- errors, succeeds. The vehicles that come back are those that the upstream sent that pass the
  -- filters, each as often as it was sent, told by their identifiers and positions, and the answer
  -- counts as truncated exactly when the cap was asked for and was reached.
  pub vehicles_complete :
      (exchange : Exchange) (c : Client) (ids : List String) (raw : List GqlVehicle)
      → ltb_ℤ (pos 0) q.radius_m ≡ true
      → operator_ids q.operator_keys ≡ ok ids
      → exchange (request c (search q.at q.radius_m ids (limit_of q))) ≡ answer [] raw
      → (res : Fetched) × (vehicles m exchange c q ≡ ok res)
        × Perm (map identity res.vehicles) (map sent_identity (keep wanted raw))
        × (res.returned ≡ length raw)
        × (res.truncated ≡ (limit_of q == max_results && leb max_results (length raw)))
  unfolding vehicles fetched_of vehicles_in
  vehicles_complete exchange c ids raw h k a = (
    fetched_of m raw q,
    ground arith,
    rw (sym (identities-convert_all raw))
        (Perm.map identity (sort-perm (nearer m) (convert_all m raw q))),
    refl,
    ground arith,
  )
