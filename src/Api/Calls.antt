-- ===== src/Api/Calls.antt =====
-- internal/api/api.go: `createWatch` as a sequence of the store's calls.
use scootless.Base.{
  ◌≡◌, refl, Bool, String, List, [], ◌∷◌, ◌++◌, Option, none, some, Result, ok, err, ◌==◌,
  string_eq, arith, sym, ap, ◌∙◌, inl, inr, Bool-cases, ℕ,
}
use scootless.Base.Int.{ℤ}
use scootless.Float.{Float64, Math}
use scootless.Entur.Operators.{EnturError, operator_ids}
use scootless.Entur.Vehicles.{Fetched}
use scootless.Store.Schema.{Db, Fence, Watch, Kind, appearance, scarcity, unknown_kind, StoreError}
use scootless.Store.Fences.{fence, save_fence}
use scootless.Store.Watches.{create_watch}
use scootless.Store.History.{Call, saves, creates, step, run, after, same_db}
use scootless.Store.History.Keys.{HasKeys, run-HasKeys}
use scootless.Store.History.Links.{HasLinks}
use scootless.Store.History.Linked.{run-HasLinks}
use scootless.Poll.Run.{Fetcher}
use scootless.Api.{
  CreateWatchReq, resolve_fence, at_position, fence_here, known_fence, baseline_query, watch_of,
  stored_watch, with_baseline, with_fence, with_operators, with_kind, create_watch_handler,
  requested_kind,
}

-- The tables are what a sequence of calls makes of those before.
abbrev pub Called : Db → Db → Type 0
Called db new = (calls : List Call) × (new ≡ run calls db)

Called-saves : (f : Fence) (db : Db) → Called db (save_fence f db)
unfolding run step
Called-saves f db = (saves f ∷ [], refl)

module _ (m : Math) where
  Called-known :
      (r : Result StoreError Fence) (db mid : Db) (f : Fence)
      → known_fence m r db ≡ some (f, mid)
      → Called db mid
  unfolding run
  Called-known (ok g) db mid f e = ([], ground arith)
  Called-known (err x) db mid f e = absurd (ground arith)

  Called-at_position :
      (id : String) (lat lon : Option Float64) (radius_m : ℤ) (db mid : Db) (f : Fence)
      → at_position m id lat lon radius_m db ≡ some (f, mid)
      → Called db mid
  Called-at_position id none lon radius_m db mid f e = absurd (ground arith)
  Called-at_position id (some lat) none radius_m db mid f e = absurd (ground arith)
  Called-at_position id (some lat) (some lon) radius_m db mid f e =
      let g = fence_here m id lat lon radius_m in
      let shape : mid ≡ save_fence g db = ground arith in rw shape (Called-saves g db)

  Called-resolve_fence :
      (id : String) (req : CreateWatchReq) (db mid : Db) (f : Fence)
      → resolve_fence m id req db ≡ some (f, mid)
      → Called db mid
  unfolding resolve_fence
  Called-resolve_fence id req db mid f e = elim (Bool-cases (req.fence_id == "")) [
    | inl here ↦
        Called-at_position id req.lat req.lon req.radius_m db mid f (rw (here, resolve_fence) at e)
    | inr there ↦ Called-known (fence req.fence_id db) db mid f (rw (there, resolve_fence) at e)
  ]

  module _ (fetch : Fetcher) (blank : String → Bool) (now : ℕ) (fence_random random : String) where
    called-stored :
        (w : Watch) (db : Db) (r : Result StoreError Db)
        → (stored_watch m fetch blank now fence_random random w db r).1 ≡ after same_db db r
    called-stored w db (ok new) = refl
    called-stored w db (err e) = refl

    run-creates :
        (w : Watch) (calls : List Call) (db : Db)
        → run (calls ++ creates w ∷ []) db
          ≡ after same_db (run calls db) (create_watch w (run calls db))
    unfolding run step
    run-creates w [] db = refl
    run-creates w (c ∷ calls) db = run-creates w calls (step c db)

    Called-with_baseline :
        (req : CreateWatchReq) (f : Fence) (db mid : Db) (r : Result EnturError Fetched)
        → Called db mid
        → Called db (with_baseline m fetch blank now fence_random random req f mid r).1
    Called-with_baseline req f db mid (err x) h = h
    Called-with_baseline req f db mid (ok res) (calls, e) =
        let w = watch_of m fetch blank now fence_random random req f res.vehicles in
        (
          calls ++ creates w ∷ [],
          called-stored w mid (create_watch w mid)
              ∙ ap (λ d. after same_db d (create_watch w d)) e
              ∙ sym (run-creates w calls db),
        )

    Called-with_fence :
        (req : CreateWatchReq) (db : Db) (o : Option (Fence × Db))
        → resolve_fence m fence_random req db ≡ o
        → Called db (with_fence m fetch blank now fence_random random req db o).1
    unfolding run
    Called-with_fence req db none e = ([], refl)
    Called-with_fence req db (some (f, mid)) e =
        Called-with_baseline req f db mid (fetch (baseline_query m f req))
          (Called-resolve_fence fence_random req db mid f e)

    Called-with_operators :
        (req : CreateWatchReq) (db : Db) (r : Result EnturError (List String))
        → Called db (with_operators m fetch blank now fence_random random req db r).1
    unfolding run
    Called-with_operators req db (err x) = ([], refl)
    Called-with_operators req db (ok ids) =
        Called-with_fence req db (resolve_fence m fence_random req db) refl

    Called-with_kind :
        (req : CreateWatchReq) (db : Db) (k : Kind)
        → Called db (with_kind m fetch blank now fence_random random req db k).1
    unfolding run
    Called-with_kind req db appearance = Called-with_operators req db (operator_ids req.operators)
    Called-with_kind req db scarcity = Called-with_operators req db (operator_ids req.operators)
    Called-with_kind req db (unknown_kind k) = ([], refl)

    pub Called-handler :
        (body : Option CreateWatchReq) (db : Db)
        → Called db (create_watch_handler m fetch blank now fence_random random body db).1
    unfolding create_watch_handler run
    Called-handler none db = ([], refl)
    Called-handler (some req) db =
        Called-with_kind req db (requested_kind m fetch blank now fence_random random req)

    -- Whatever `createWatch` is asked and whatever the upstream answers, tables whose primary and
    -- foreign keys hold keep them.
    create_watch_handler-HasLinks :
        (body : Option CreateWatchReq) (db : Db)
        → HasKeys db
        → HasLinks db
        → let new = (create_watch_handler m fetch blank now fence_random random body db).1 in
          HasKeys new × HasLinks new
    create_watch_handler-HasLinks body db k l =
        let (calls, e) = Called-handler body db in
        rw e (run-HasKeys calls db k, run-HasLinks calls db l)
