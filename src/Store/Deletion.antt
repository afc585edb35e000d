-- ===== src/Store/Deletion.antt =====
-- internal/store/fence_delete.go: when a fence can be deleted, and what that leaves.
use scootless.Base.{
  ◌≡◌, ◌↔◌, refl, Bool, true, false, String, List, [], ◌∷◌, ok, err, ◌==◌, string_eq, eq_iff, any,
  keep, arith,
}
use scootless.Base.Table.{delete_where}
use scootless.Store.Schema.{Db, fence_in_use}
use scootless.Store.Fences.{delete_fence, is_waiting, without_fence}

-- `DeleteFence` gives `ErrFenceInUse` exactly when an armed watch refers to the fence.
pub delete_fence-in_use :
    (id : String) (db : Db)
    → (delete_fence id db ≡ err fence_in_use) ↔ (any (is_waiting id) db.watches ≡ true)
unfolding delete_fence
delete_fence-in_use id db = (λ h. ground arith, λ h. ground arith)

-- Nothing of a table belongs to the fence.
abbrev IsGone {ℓ} : {A : Type ℓ} → (A → String) → String → List A → Type 0
IsGone ref id rows = any (λ r. ref r == id) rows ≡ false

-- The rows of every other fence are the same, in the same order.
abbrev OthersStay {ℓ} : {A : Type ℓ} → (A → String) → String → List A → List A → Type ℓ
OthersStay ref id old new =
    (other : String)
    → (other == id) ≡ false
    → keep (λ r. ref r == other) new ≡ keep (λ r. ref r == other) old

module _ {ℓ} {A : Type ℓ} (ref : A → String) (id : String) where
  delete_where-IsGone : (rows : List A) → IsGone ref id (delete_where (λ r. ref r == id) rows)
  delete_where-IsGone [] = refl
  delete_where-IsGone (r ∷ rows) = ground (arith, delete_where-IsGone rows)

  delete_where-others :
      (rows : List A) → OthersStay ref id rows (delete_where (λ r. ref r == id) rows)
  delete_where-others [] other h = refl
  delete_where-others (r ∷ rows) other h = ground (
    arith,
    delete_where-others rows other h,
    eq_iff (ref r) id,
    eq_iff (ref r) other,
    eq_iff other id,
  )

-- What a successful deletion of the fence `id` has done.
pub record IsDeleted (id : String) (old new : Db) : Type 0 where
  pub fences_gone : IsGone (λ f. f.id) id new.fences
  pub watches_gone : IsGone (λ w. w.fence_id) id new.watches
  pub samples_gone : IsGone (λ s. s.fence_id) id new.samples
  pub presence_gone : IsGone (λ p. p.fence_id) id new.presence
  pub nearest_gone : IsGone (λ n. n.fence_id) id new.nearest
  pub fences_stay : OthersStay (λ f. f.id) id old.fences new.fences
  pub watches_stay : OthersStay (λ w. w.fence_id) id old.watches new.watches
  pub samples_stay : OthersStay (λ s. s.fence_id) id old.samples new.samples
  pub presence_stay : OthersStay (λ p. p.fence_id) id old.presence new.presence
  pub nearest_stay : OthersStay (λ n. n.fence_id) id old.nearest new.nearest
  pub events_stay : new.events ≡ old.events

without_fence-IsDeleted : (id : String) (db : Db) → IsDeleted id db (without_fence id db)
without_fence-IsDeleted id db = record {
  fences_gone = delete_where-IsGone (λ f. f.id) id db.fences;
  watches_gone = delete_where-IsGone (λ w. w.fence_id) id db.watches;
  samples_gone = delete_where-IsGone (λ s. s.fence_id) id db.samples;
  presence_gone = delete_where-IsGone (λ p. p.fence_id) id db.presence;
  nearest_gone = delete_where-IsGone (λ n. n.fence_id) id db.nearest;
  fences_stay = delete_where-others (λ f. f.id) id db.fences;
  watches_stay = delete_where-others (λ w. w.fence_id) id db.watches;
  samples_stay = delete_where-others (λ s. s.fence_id) id db.samples;
  presence_stay = delete_where-others (λ p. p.fence_id) id db.presence;
  nearest_stay = delete_where-others (λ n. n.fence_id) id db.nearest;
  events_stay = refl;
}

-- A deletion that succeeds says whether the fence was there, leaves no row of any table that
-- belongs to it, and changes neither a row of another fence nor an event.
pub delete_fence-IsDeleted :
    (id : String) (db new : Db) (removed : Bool)
    → delete_fence id db ≡ ok (removed, new)
    → (removed ≡ any (λ f. f.id == id) db.fences) × IsDeleted id db new
unfolding delete_fence
delete_fence-IsDeleted id db new removed e =
    let shape : new ≡ without_fence id db = ground arith in
    (ground arith, rw shape (without_fence-IsDeleted id db))
