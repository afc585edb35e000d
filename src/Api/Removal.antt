-- ===== src/Api/Removal.antt =====
-- internal/api/api.go: what the replies of `deleteFence` say, and the cadence of the board's
-- stream.
use scootless.Base.{
  ◌≡◌, ◌↔◌, refl, true, false, any, String, Result, ok, err, ◌==◌, string_eq, arith, Bool,
}
use scootless.Base.Int.{ℤ, leb_ℤ}
use scootless.Store.Schema.{
  Db, Fence, StoreError, fence_in_use, not_found, no_rows, constraint_failed,
}
use scootless.Store.Fences.{delete_fence, is_waiting}
use scootless.Store.Deletion.{IsDeleted, delete_fence-in_use, delete_fence-IsDeleted}
use scootless.Api.{
  status, fence_reply, delete_fence_handler, stream_interval, duration_of, min_interval,
}

fence_reply-cases :
    (db : Db) (r : Result StoreError (Bool × Db))
    → ((fence_reply db r).0 ≡ status 409 → r ≡ err fence_in_use)
      × (r ≡ err fence_in_use → (fence_reply db r).0 ≡ status 409)
      × ((fence_reply db r).0 ≡ status 204 → r ≡ ok (true, (fence_reply db r).1))
fence_reply-cases db (ok (true, new)) = (λ h. ground arith, λ h. ground arith, λ h. refl)
fence_reply-cases db (ok (false, new)) = (λ h. ground arith, λ h. ground arith, λ h. ground arith)
fence_reply-cases db (err fence_in_use) = (λ h. refl, λ h. refl, λ h. ground arith)
fence_reply-cases db (err not_found) = (λ h. ground arith, λ h. ground arith, λ h. ground arith)
fence_reply-cases db (err no_rows) = (λ h. ground arith, λ h. ground arith, λ h. ground arith)
fence_reply-cases db (err constraint_failed) =
    (λ h. ground arith, λ h. ground arith, λ h. ground arith)

-- For a fence with a name, `deleteFence` replies 409 exactly where an armed watch waits on the
-- fence, and 204 only where the fence was there and nothing that belongs to it is left.
pub delete_fence_handler-IsDeleted :
    (id : String) (db : Db)
    → (id == "") ≡ false
    → let (reply, new) = delete_fence_handler id db in
      ((reply ≡ status 409) ↔ (any (is_waiting id) db.watches ≡ true))
      × (reply ≡ status 204
          → (true ≡ any (λ (f : Fence). f.id == id) db.fences) × IsDeleted id db new)
unfolding delete_fence_handler
delete_fence_handler-IsDeleted id db named =
    let outcome = delete_fence id db in
    let (refused, kept, gone) = fence_reply-cases db outcome in
    rw (named, delete_fence_handler)
      (
        (
          λ h. (delete_fence-in_use id db).0 (refused h),
          λ h. kept ((delete_fence-in_use id db).1 h),
        ),
        λ h. delete_fence-IsDeleted id db (fence_reply db outcome).1 true (gone h),
      )

-- Whatever number of seconds is asked for, durations that wrap at 64 bits included, the stream
-- refreshes no faster than every five seconds, and it takes a longer duration as it is.
stream_interval_bounds :
    (seconds : ℤ)
    → (leb_ℤ min_interval (stream_interval seconds) ≡ true)
      × (leb_ℤ min_interval (duration_of seconds) ≡ true
          → stream_interval seconds ≡ duration_of seconds)
unfolding stream_interval
stream_interval_bounds seconds = (ground arith, λ h. ground arith)
