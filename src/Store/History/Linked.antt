-- ===== src/Store/History/Linked.antt =====
-- The references hold over whole sequences of calls.
use scootless.Base.{
  ℕ, suc, ◌≡◌, refl, Bool, true, ◌||◌, String, List, [], ◌∷◌, Option, Result, ok, err, string_eq,
  any, All, arith, Bool-cases, Option-cases, inl, inr, ◌>>=◌,
}
use scootless.Base.Table.{All-update_where, All-upsert}
use scootless.Store.Schema.{
  Db, PresenceRow, StoreError, expired, cancelled, has_fence, may_refer_fence, unix,
}
use scootless.Store.Watches.{has_id, can_fire, fire_row, with_state, is_overdue, is_cancellable}
use scootless.Store.Nearest.{nearest_row}
use scootless.Store.Presence.{
  Sighting, Arrival, presence_key, is_stint, extend_to, sight, sight_all,
}
use scootless.Store.History.{
  Call, saves, deletes, creates, fires, sets, expires, cancels, reports, counts, measures, observes,
  step, run, after, after_require, after_delete,
}
use scootless.Store.History.Links.{
  HasLinks, save_fence-HasLinks, without_fence-HasLinks, update-HasLinks, add-watch, add-event,
  put-sample, put-nearest,
}

-- The rows that an observation leaves refer to fences where the rows that it found did.
module _ (db : Db) where
  abbrev StillLinked : Result StoreError (List PresenceRow × List Arrival) → Type 0
  StillLinked (ok (rows, new)) = All (λ p. has_fence db p.fence_id ≡ true) rows
  StillLinked (err e) = Unit

  module _ (fence_id : String) (at : ℕ) (opened : String → Option ℕ)
      (enforced : db.foreign_keys ≡ true) where
    abbrev linked : Bool
    linked = may_refer_fence db fence_id

    sight-StillLinked :
        (s : Sighting) (rows : List PresenceRow) (new : List Arrival)
        → All (λ p. has_fence db p.fence_id ≡ true) rows
        → StillLinked (sight linked fence_id at opened s (rows, new))
    sight-StillLinked s rows new a = elim (Option-cases (opened s.vehicle_id)) [
      | inr (first, e) ↦
          rw (e, StillLinked, sight)
            (All-update_where _ (is_stint fence_id s.vehicle_id first) (extend_to (unix at))
              (λ r h. h) rows a)
      | inl e ↦
          let row : PresenceRow = record {
            fence_id = fence_id;
            vehicle_id = s.vehicle_id;
            operator = s.operator;
            first_seen = unix at;
            last_seen = unix at;
          } in
          elim (Bool-cases (any (presence_key row) rows || linked)) [
            | inl may ↦
                rw (e, StillLinked, sight, may)
                  (All-upsert _ (presence_key row) (extend_to (unix at)) row (λ r h. h) rows
                    (λ fresh. ground arith) a)
            | inr may_not ↦ rw (e, StillLinked, sight, may_not) tt
          ]
    ]

    sight_all-StillLinked :
        (seen : List Sighting) (r : Result StoreError (List PresenceRow × List Arrival))
        → StillLinked r
        → StillLinked (r >>= sight_all linked fence_id at opened seen)
    unfolding sight_all
    sight_all-StillLinked seen (err e) a = tt
    sight_all-StillLinked [] (ok state) a = a
    sight_all-StillLinked (s ∷ seen) (ok (rows, new)) a =
        sight_all-StillLinked seen (sight linked fence_id at opened s (rows, new))
          (sight-StillLinked s rows new a)

  observed-links :
      (r : Result StoreError (List PresenceRow × List Arrival))
      → StillLinked r
      → HasLinks db
      → HasLinks (
          after
            (λ (new, next). next)
            db
            (r >>= λ (rows, new). ok (new, record db { presence = rows })))
  observed-links (err e) a k = k
  observed-links (ok (rows, new)) a k = ground arith

step-HasLinks : (c : Call) (db : Db) → HasLinks db → HasLinks (step c db)
unfolding step
step-HasLinks (saves f) db k = save_fence-HasLinks f db k
step-HasLinks (deletes id) db k = after_delete HasLinks id db k (without_fence-HasLinks id db k)
step-HasLinks (creates w) db k =
    after_require HasLinks _ _ db _ k λ free. add-watch w db (ground arith) k
step-HasLinks (fires id at) db k =
    after_require HasLinks _ _ db _ k
      λ live. update-HasLinks (can_fire id) (fire_row at) db (λ r. refl) (λ r. refl) k
step-HasLinks (sets id s) db k =
    after_require HasLinks _ _ db _ k
      λ known. update-HasLinks (has_id id) (with_state s) db (λ r. refl) (λ r. refl) k
step-HasLinks (expires now) db k =
    update-HasLinks (is_overdue now) (with_state expired) db (λ r. refl) (λ r. refl) k
step-HasLinks (cancels device) db k =
    update-HasLinks (is_cancellable device) (with_state cancelled) db (λ r. refl) (λ r. refl) k
step-HasLinks (reports id at payload) db k = after_require HasLinks _ _ db _ k λ known.
    add-event (record { id = db.next_event; watch_id = id; at = unix at; payload = payload })
      (suc db.next_event) db known k
step-HasLinks (counts fence_id at operator n) db k = after_require HasLinks _ _ db _ k λ linked.
    put-sample n (record { fence_id = fence_id; at = unix at; operator = operator; count = n }) db
      linked k
step-HasLinks (measures fence_id at n) db k =
    after_require HasLinks _ _ db _ k λ linked. put-nearest (nearest_row fence_id at n) db linked k
step-HasLinks (observes fence_id at seen stale) db k =
    observed-links db _
      (sight_all-StillLinked db fence_id at _ k.enforced seen (ok (db.presence, []))
        k.presence_links)
      k

-- Where foreign keys are enforced and no row refers to a fence or a watch that is not there, no
-- sequence of the store's calls, successful or not, leads to one that does.
pub run-HasLinks : (calls : List Call) (db : Db) → HasLinks db → HasLinks (run calls db)
unfolding run
run-HasLinks [] db k = k
run-HasLinks (c ∷ calls) db k = run-HasLinks calls (step c db) (step-HasLinks c db k)
