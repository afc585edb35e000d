-- ===== src/Poll/Evaluate.antt =====
-- internal/poll/poll.go: `evaluate` and `dispatch`, which decide whether a watch fires.
use scootless.Base.{
  ℕ, Bool, true, false, not, String, List, [], ◌∷◌, ◌++◌, Option, none, some, Result, ok, err, ◌==◌,
  string_eq, length, keep, contains, if◌then◌else◌,
}
use scootless.Base.Int.{pos, ltb_ℤ}
use scootless.Entur.Vehicles.{Vehicle}
use scootless.Store.Schema.{
  Db, Fence, Watch, appearance, scarcity, unknown_kind, StoreError, not_found,
}
use scootless.Store.Watches.{mark_fired, record_event}
use scootless.Poll.Select.{matches, dark_for}
use scootless.Poll.Run.{
  Poller, Notification, store_failed, bad_kind, encoding, M, ◌>>=◌, ◌>>◌, pure, throw, get, modify,
  write,
}

abbrev pub is_empty {ℓ} : {A : Type ℓ} → List A → Bool
is_empty [] = true
is_empty (a ∷ as') = false

-- The vehicles that are not in the baseline.
abbrev pub newcomers : Watch → List Vehicle → List Vehicle
newcomers w vs = keep (λ (v : Vehicle). not (contains w.baseline v.id)) vs

-- The switch of `evaluate`: the vehicles to report, `none` to hold back, or an unknown kind.
unfoldable pub verdict : Watch → List Vehicle → List String → Result String (Option (List Vehicle))
verdict w matching dark = elim w.kind [
  | appearance ↦ let hit = newcomers w matching in ok (if is_empty hit then none else some hit)
  | scarcity ↦ ok (
      if not (dark_for w dark == "")
      then none
      else if ltb_ℤ w.threshold (pos (length matching))
      then none
      else some matching)
  | unknown_kind k ↦ err k
]

-- What `evaluate` makes of `MarkFired`: whether this tick is the one that fired the watch.
abbrev pub marked : Result StoreError Db → M Bool
marked (ok db) s = (ok true, record s { db = db })
marked (err not_found) s = (ok false, s)
marked (err e) s = (err (store_failed e), s)

module _ (p : Poller) (w : Watch) (f : Fence) (now : ℕ) where
  abbrev pub notification : List Vehicle → List Vehicle → Notification
  notification matching hit = record {
    watch = w;
    watch_id = w.id;
    kind = w.kind;
    fired_at = now;
    fence = f;
    count = length matching;
    vehicles = hit;
  }

  -- `dispatch`: the delivery is started, and the tick does not wait for it.
  abbrev pub dispatch : Notification → M (Unit {0})
  dispatch n =
      if p.has_sink
      then modify (λ s. record s { deliveries = s.deliveries ++ (n ∷ []) })
      else pure tt

  abbrev pub announce : Notification → Option String → M Bool
  announce n none = throw encoding
  announce n (some payload) = do write (record_event w.id now payload); dispatch n; pure true

  unfoldable pub fire : List Vehicle → List Vehicle → M Bool
  fire matching hit = do
    s ← get
    won ← marked (mark_fired w.id now s.db)
    if won
        then announce (notification matching hit) (p.encode (notification matching hit))
        else pure false

  abbrev pub act_on : List Vehicle → Result String (Option (List Vehicle)) → M Bool
  act_on matching (err k) = throw (bad_kind k)
  act_on matching (ok none) = pure false
  act_on matching (ok (some hit)) = fire matching hit

  -- `evaluate`
  unfoldable pub evaluate : List Vehicle → List String → M Bool
  unfolding matches verdict fire
  evaluate inside dark = act_on (matches inside w) (verdict w (matches inside w) dark)
