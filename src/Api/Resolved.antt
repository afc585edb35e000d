-- ===== src/Api/Resolved.antt =====
-- internal/api/api.go: the fence that `resolveFence` gives.
use scootless.Base.{
  ◌≡◌, refl, sym, ap, ◌∙◌, String, Option, none, some, Result, ok, err, ◌==◌, string_eq, inl, inr,
  Bool-cases, arith,
}
use scootless.Base.Int.{ℤ}
use scootless.Float.{Float64, Math}
use scootless.Store.Schema.{Db, Fence, StoreError}
use scootless.Store.Fences.{fence, save_fence}
use scootless.Store.Saved.{fence-save_fence, fence-id}
use scootless.Api.{
  CreateWatchReq, resolve_fence, out_of_range, fence_here, at_position, known_fence,
}

module _ (m : Math) where
  known_fence-stored :
      (id : String) (r : Result StoreError Fence) (db : Db) (f : Fence) (mid : Db)
      → fence id db ≡ r
      → known_fence m r db ≡ some (f, mid)
      → fence f.id mid ≡ ok f
  known_fence-stored id (err x) db f mid e h = absurd (ground arith)
  known_fence-stored id (ok g) db f mid e h =
      let same : g ≡ f = ground arith in
      let there : db ≡ mid = ground arith in
      rw (sym same, sym there) (ap (λ i. fence i db) (fence-id id db g e) ∙ e)

  at_position-stored :
      (id : String) (lat lon : Option Float64) (radius_m : ℤ) (db : Db) (f : Fence) (mid : Db)
      → at_position m id lat lon radius_m db ≡ some (f, mid)
      → fence f.id mid ≡ ok f
  at_position-stored id none lon radius_m db f mid h = absurd (ground arith)
  at_position-stored id (some lat) none radius_m db f mid h = absurd (ground arith)
  at_position-stored id (some lat) (some lon) radius_m db f mid h =
      elim (Bool-cases (out_of_range m lat lon)) [
        | inl out ↦ absurd (ground arith)
        | inr good ↦
            let g = fence_here m id lat lon radius_m in
            let same : g ≡ f = ground arith in
            let there : save_fence g db ≡ mid = ground arith in
            rw (sym same, sym there) (fence-save_fence g db)
      ]

  -- The fence that a request was resolved to is in the tables that it left.
  pub resolve_fence-stored :
      (fence_random : String) (req : CreateWatchReq) (f : Fence) (db mid : Db)
      → resolve_fence m fence_random req db ≡ some (f, mid)
      → fence f.id mid ≡ ok f
  unfolding resolve_fence
  resolve_fence-stored fence_random req f db mid e = elim (Bool-cases (req.fence_id == "")) [
    | inl here ↦
        at_position-stored fence_random req.lat req.lon req.radius_m db f mid
          (rw (here, resolve_fence) at e)
    | inr known ↦
        known_fence-stored req.fence_id (fence req.fence_id db) db f mid refl
          (rw (known, resolve_fence) at e)
  ]
