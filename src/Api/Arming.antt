-- ===== src/Api/Arming.antt =====
-- internal/api/api.go: what `createWatch` promises of the watch that it arms.
use scootless.Base.{
  ℕ, ◌+◌, ◌*◌, ◌≤◌, ◌≡◌, refl, Bool, true, false, not, ◌&&◌, String, List, [], ◌∷◌, ◌++◌, map,
  Option, none, some, Result, ok, err, ◌==◌, string_eq, eq_refl, any, any-append, contains, All,
  All-mono, arith, ap, ◌∙◌,
}
use scootless.Base.Int.{ℤ, pos, negsuc, ltb_ℤ, wrap64, wrap64_of_small}
use scootless.Float.{Math}
use scootless.Entur.Operators.{EnturError, operator_ids}
use scootless.Entur.Vehicles.{Vehicle, Fetched}
use scootless.Store.Schema.{
  Db, Fence, Watch, Kind, appearance, scarcity, unknown_kind, StoreError, armed, WatchRow,
  has_watch,
}
use scootless.Store.Watches.{create_watch, row_of, is_live}
use scootless.Store.Fences.{fence}
use scootless.Poll.Run.{Fetcher}
use scootless.Api.Resolved.{resolve_fence-stored}
use scootless.Poll.Firing.{should_fire, counts_for}
use scootless.Api.{
  CreateWatchReq, created, ttl_of, duration_of, max_ttl, resolve_fence, baseline_query, watch_of,
  stored_watch, with_baseline, with_fence, with_operators, with_kind, create_watch_handler,
  requested_kind,
}

-- The time to live is never more than the longest one, and at least a second where the number of
-- seconds that was asked for is a duration of 64 bits.
ttl_of_bounds :
    (seconds : ℤ)
    → (ttl_of seconds ≤ max_ttl)
      × (ltb_ℤ seconds (pos 9223372036) ≡ true
          → ltb_ℤ (negsuc 9223372035) seconds ≡ true
          → 1000000000 ≤ ttl_of seconds)
unfolding ttl_of duration_of wrap64
ttl_of_bounds (pos n) = (ground arith, λ h k. ground (arith, wrap64_of_small (n * 1000000000)))
ttl_of_bounds (negsuc n) = (ground arith, λ h k. ground arith)

known_self :
    (vs : List Vehicle)
    → All (λ (v : Vehicle). contains (map (λ (u : Vehicle). u.id) vs) v.id ≡ true) vs
known_self [] = tt
known_self (v ∷ vs) =
    (ground (arith, eq_refl v.id), All-mono _ _ (λ u h. ground arith) vs (known_self vs))

none-new :
    (p : Vehicle → Bool) (ids : List String) (vs : List Vehicle)
    → All (λ (v : Vehicle). contains ids v.id ≡ true) vs
    → any (λ v. p v && not (contains ids v.id)) vs ≡ false
none-new p ids [] a = refl
none-new p ids (v ∷ vs) a = ground (arith, none-new p ids vs a.1)

pub created-shape :
    (w : Watch) (db new : Db)
    → create_watch w db ≡ ok new
    → new ≡ record db { watches = db.watches ++ row_of w ∷ [] }
unfolding create_watch
created-shape w db new e = ground arith

created-fresh : (w : Watch) (db new : Db) → create_watch w db ≡ ok new → has_watch db w.id ≡ false
unfolding create_watch
created-fresh w db new e = ground arith

added-live :
    (w : Watch) (t : ℕ)
    → w.state ≡ armed
    → t + 1000000000 ≤ w.expires_at
    → any (λ r. r.id == w.id && is_live t r) (row_of w ∷ []) ≡ true
added-live w t state early = rw state ground (arith, eq_refl w.id)

added-over :
    (w : Watch) (t : ℕ)
    → w.expires_at ≤ t
    → any (λ r. r.id == w.id && is_live t r) (row_of w ∷ []) ≡ false
added-over w t late = ground arith

-- No other row has the identifier of a watch that was created.
others-over :
    (w : Watch) (t : ℕ) (rows : List WatchRow)
    → any (λ r. r.id == w.id) rows ≡ false
    → any (λ r. r.id == w.id && is_live t r) rows ≡ false
others-over w t [] h = refl
others-over w t (r ∷ rows) h = ground (arith, others-over w t rows)

module _ (m : Math) (fetch : Fetcher) (blank : String → Bool) (now : ℕ)
    (fence_random random : String) where
  -- What a request that was answered with a new watch went through.
  pub record IsArmed (req : CreateWatchReq) (db new : Db) (w : Watch) : Type 0 where
    pub fence : Fence
    pub mid : Db
    pub res : Fetched
    pub resolved : resolve_fence m fence_random req db ≡ some (fence, mid)
    pub fetched : fetch (baseline_query m fence req) ≡ ok res
    pub shape : w ≡ watch_of m fetch blank now fence_random random req fence res.vehicles
    pub stored : create_watch w mid ≡ ok new

  stored-created :
      (w v : Watch) (db new : Db) (r : Result StoreError Db)
      → stored_watch m fetch blank now fence_random random w db r ≡ (created v, new)
      → (v ≡ w) × (r ≡ ok new)
  stored-created w v db new (ok d) e = (ground arith, ground arith)
  stored-created w v db new (err x) e = absurd (ground arith)

  fetched-created :
      (req : CreateWatchReq) (f : Fence) (w : Watch) (db mid new : Db)
      (r : Result EnturError Fetched)
      → resolve_fence m fence_random req db ≡ some (f, mid)
      → fetch (baseline_query m f req) ≡ r
      → with_baseline m fetch blank now fence_random random req f mid r ≡ (created w, new)
      → IsArmed req db new w
  fetched-created req f w db mid new (err x) resolved fetched e = absurd (ground arith)
  fetched-created req f w db mid new (ok res) resolved fetched e =
      let next = watch_of m fetch blank now fence_random random req f res.vehicles in
      let (shape, stored) = stored-created next w mid new (create_watch next mid) e in
      record {
        fence = f;
        mid = mid;
        res = res;
        resolved = resolved;
        fetched = fetched;
        shape = shape;
        stored = rw shape stored;
      }

  fence-created :
      (req : CreateWatchReq) (w : Watch) (db new : Db) (o : Option (Fence × Db))
      → resolve_fence m fence_random req db ≡ o
      → with_fence m fetch blank now fence_random random req db o ≡ (created w, new)
      → IsArmed req db new w
  fence-created req w db new none resolved e = absurd (ground arith)
  fence-created req w db new (some (f, mid)) resolved e =
      fetched-created req f w db mid new (fetch (baseline_query m f req)) resolved refl e

  operators-created :
      (req : CreateWatchReq) (w : Watch) (db new : Db) (r : Result EnturError (List String))
      → with_operators m fetch blank now fence_random random req db r ≡ (created w, new)
      → IsArmed req db new w
  operators-created req w db new (err x) e = absurd (ground arith)
  operators-created req w db new (ok ids) e =
      fence-created req w db new (resolve_fence m fence_random req db) refl e

  kind-created :
      (req : CreateWatchReq) (w : Watch) (db new : Db) (k : Kind)
      → with_kind m fetch blank now fence_random random req db k ≡ (created w, new)
      → IsArmed req db new w
  kind-created req w db new appearance e =
      operators-created req w db new (operator_ids req.operators) e
  kind-created req w db new scarcity e =
      operators-created req w db new (operator_ids req.operators) e
  kind-created req w db new (unknown_kind k) e = absurd (ground arith)

  pub create_watch_handler-IsArmed :
      (req : CreateWatchReq) (w : Watch) (db new : Db)
      → create_watch_handler m fetch blank now fence_random random (some req) db ≡ (created w, new)
      → IsArmed req db new w
  unfolding create_watch_handler
  create_watch_handler-IsArmed req w db new e =
      kind-created req w db new (requested_kind m fetch blank now fence_random random req) e

  -- An appearance watch that was just armed does not fire on what its own fence, which is in the
  -- database, showed: the upstream was asked about that fence's position and radius with the
  -- operators and the range of the request, and with the vehicles of the answer, whatever is dark,
  -- the condition of the watch does not hold.
  pub create_watch_handler-calm :
      (req : CreateWatchReq) (w : Watch) (db new : Db)
      → create_watch_handler m fetch blank now fence_random random (some req) db ≡ (created w, new)
      → w.kind ≡ appearance
      → (f : Fence) × (res : Fetched) × (fence w.fence_id new ≡ ok f)
        × (fetch (record {
          at = f.at;
          radius_m = f.radius_m;
          operator_keys = req.operators;
          min_range_m = req.min_range_m;
          form_factors = [];
          include_unrentable = false;
          limit = pos 0;
        })
            ≡ ok res)
        × ((dark : List String) → should_fire w res.vehicles dark ≡ false)
  unfolding fence
  create_watch_handler-calm req w db new e k =
      let a = create_watch_handler-IsArmed req w db new e in
      let stored : fence a.fence.id a.mid ≡ ok a.fence =
        resolve_fence-stored m fence_random req a.fence db a.mid a.resolved in
      (
        a.fence,
        a.res,
        rw (created-shape w a.mid new a.stored, ap (λ (v : Watch). v.fence_id) a.shape) stored,
        a.fetched,
        λ dark.
            rw (k, should_fire)
              (none-new (counts_for w) w.baseline a.res.vehicles
                (rw (ap (λ (v : Watch). v.baseline) a.shape) (known_self a.res.vehicles))),
      )

  -- A watch that was created expires a second at least and six hours at most after it was created,
  -- where the number of seconds that was asked for is a duration of 64 bits. It is armed up to a
  -- second before it expires at least, since the database holds whole seconds, and from the moment
  -- that it expires on, no watch of that identifier is.
  pub create_watch_handler-armed :
      (req : CreateWatchReq) (w : Watch) (db new : Db)
      → create_watch_handler m fetch blank now fence_random random (some req) db ≡ (created w, new)
      → ltb_ℤ req.ttl_seconds (pos 9223372036) ≡ true
      → ltb_ℤ (negsuc 9223372035) req.ttl_seconds ≡ true
      → (now + 1000000000 ≤ w.expires_at)
        × (w.expires_at ≤ now + max_ttl)
        × ((t : ℕ)
            → t + 1000000000 ≤ w.expires_at
            → any (λ r. r.id == w.id && is_live t r) new.watches ≡ true)
        × ((t : ℕ) → w.expires_at ≤ t → any (λ r. r.id == w.id && is_live t r) new.watches ≡ false)
  create_watch_handler-armed req w db new e h k =
      let a = create_watch_handler-IsArmed req w db new e in
      let (most, least) = ttl_of_bounds req.ttl_seconds in
      let long = least h k in
      let ends : w.expires_at ≡ now + ttl_of req.ttl_seconds =
        ap (λ (v : Watch). v.expires_at) a.shape in
      let state : w.state ≡ armed = ap (λ (v : Watch). v.state) a.shape in
      let shape : new ≡ record a.mid { watches = a.mid.watches ++ row_of w ∷ [] } =
        created-shape w a.mid new a.stored in
      let live : ℕ → WatchRow → Bool = λ t r. r.id == w.id && is_live t r in
      (
        omega (arith, ends, long),
        omega (arith, ends, most),
        λ t early. rw shape (
            any-append (live t) a.mid.watches (row_of w ∷ [])
            ∙ ground (arith, added-live w t state early)),
        λ t late. rw shape (
            any-append (live t) a.mid.watches (row_of w ∷ [])
            ∙ ground (
              arith,
              added-over w t late,
              others-over w t a.mid.watches (created-fresh w a.mid new a.stored),
            )),
      )
