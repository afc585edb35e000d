-- ===== src/Store/History/Keys.antt =====
-- The primary keys of internal/store/schema.go stay keys, whatever calls are made.
use scootless.Base.{
  ℕ, suc, ◌<◌, ◌≡◌, refl, Bool, false, not, String, List, [], ◌∷◌, ◌++◌, Result, ok, err, ◌==◌,
  string_eq, nat_eq, eq_symm, All, All-append, All-mono, arith, ◌>>=◌,
}
use scootless.Base.Table.{
  Distinct, Distinct-upsert, Distinct-keep, Distinct-append, update_where, upsert,
}
use scootless.Store.Schema.{
  Db, WatchRow, EventRow, SampleRow, PresenceRow, NearestRow, StoreError, expired, cancelled, unix,
  open_new, Watch, has_watch,
}
use scootless.Store.Watches.{
  row_of, has_id, can_fire, fire_row, with_state, is_overdue, is_cancellable,
}
use scootless.Store.Samples.{sample_key}
use scootless.Store.Nearest.{nearest_key, nearest_row}
use scootless.Store.Presence.{Arrival, presence_key}
use scootless.Store.History.{
  Call, saves, deletes, creates, fires, sets, expires, cancels, reports, counts, measures, observes,
  step, run, after, after_require, after_delete,
}
use scootless.Store.KeyedRows.{
  fence_key, watch_key, event_key, sample_key_symm, nearest_key_symm, update-watch_keys,
  fresh-watch_key, fresh-event_key, StillKeyed, sight_all-StillKeyed,
}

-- No two rows of a table share their primary key, and the event identifiers that the database gave
-- out lie below the next one.
pub record HasKeys (db : Db) : Type 0 where
  pub fence_keys : Distinct fence_key db.fences
  pub watch_keys : Distinct watch_key db.watches
  pub sample_keys : Distinct sample_key db.samples
  pub presence_keys : Distinct presence_key db.presence
  pub nearest_keys : Distinct nearest_key db.nearest
  pub event_keys : Distinct event_key db.events
  pub event_ids : All (λ e. e.id < db.next_event) db.events

open_new-HasKeys : HasKeys open_new
unfolding open_new
open_new-HasKeys = record {
  fence_keys = tt;
  watch_keys = tt;
  sample_keys = tt;
  presence_keys = tt;
  nearest_keys = tt;
  event_keys = tt;
  event_ids = tt;
}

observed-keys :
    (db : Db) (r : Result StoreError (List PresenceRow × List Arrival))
    → StillKeyed r
    → HasKeys db
    → HasKeys (
        after
          (λ (new, next). next)
          db
          (r >>= λ (rows, new). ok (new, record db { presence = rows })))
observed-keys db (err e) d k = k
observed-keys db (ok (rows, new)) d k = ground arith

update-HasKeys :
    (hit : WatchRow → Bool) (change : WatchRow → WatchRow) (db : Db)
    → ((r : WatchRow) → (change r).id ≡ r.id)
    → HasKeys db
    → HasKeys (record db { watches = update_where hit change db.watches })
update-HasKeys hit change db keeps k =
    ground (arith, update-watch_keys hit change db.watches keeps k.watch_keys)

add-watch :
    (w : Watch) (db : Db)
    → has_watch db w.id ≡ false
    → HasKeys db
    → HasKeys (record db { watches = db.watches ++ row_of w ∷ [] })
add-watch w db free k =
    ground (arith, fresh-watch_key w.id db.watches (row_of w) refl free k.watch_keys)

put-sample :
    (n : ℕ) (row : SampleRow) (db : Db)
    → HasKeys db
    → HasKeys (record db {
      samples = upsert (sample_key row) (λ r. record r { count = n }) row db.samples;
    })
put-sample n row db k = ground (
  arith,
  Distinct-upsert sample_key (λ r. record r { count = n }) row db.samples (λ r s. refl)
      (λ r s. refl) (λ r. sample_key_symm r row) k.sample_keys,
)

put-nearest :
    (row : NearestRow) (db : Db)
    → HasKeys db
    → HasKeys (record db {
      nearest =
          upsert
            (nearest_key row)
            (λ r. record r { distance_m = row.distance_m; vehicle_id = row.vehicle_id })
            row
            db.nearest;
    })
put-nearest row db k = ground (
  arith,
  Distinct-upsert nearest_key
      (λ r. record r { distance_m = row.distance_m; vehicle_id = row.vehicle_id }) row db.nearest
      (λ r s. refl) (λ r s. refl) (λ r. nearest_key_symm r row) k.nearest_keys,
)

add-event :
    (id : String) (at : ℕ) (payload : String) (db : Db)
    → HasKeys db
    → let e : EventRow = record {
      id = db.next_event;
      watch_id = id;
      at = unix at;
      payload = payload;
    } in
      HasKeys (record db { events = db.events ++ e ∷ []; next_event = suc db.next_event })
add-event id at payload db k =
    let e : EventRow = record {
      id = db.next_event;
      watch_id = id;
      at = unix at;
      payload = payload;
    } in
    ground (
      arith,
      Distinct-append event_key db.events e (fresh-event_key db.events e k.event_ids) k.event_keys,
      All-append (λ d. d.id < suc db.next_event) db.events (e ∷ [])
          (All-mono (λ d. d.id < db.next_event) (λ d. d.id < suc db.next_event) (λ d h. omega arith)
            db.events k.event_ids)
          (omega arith, tt),
    )

-- Every call of the store, successful or not, keeps the primary keys.
step-HasKeys : (c : Call) (db : Db) → HasKeys db → HasKeys (step c db)
unfolding step
step-HasKeys (saves f) db k = ground (
  arith,
  Distinct-upsert fence_key (λ g. record g { name = f.name; at = f.at; radius_m = f.radius_m }) f
      db.fences (λ r s. refl) (λ r s. refl) (λ r. eq_symm r.id f.id) k.fence_keys,
)
step-HasKeys (deletes id) db k = after_delete HasKeys id db k λ loose. record {
  fence_keys = Distinct-keep fence_key (λ f. not (f.id == id)) db.fences k.fence_keys;
  watch_keys = Distinct-keep watch_key (λ w. not (w.fence_id == id)) db.watches k.watch_keys;
  sample_keys = Distinct-keep sample_key (λ r. not (r.fence_id == id)) db.samples k.sample_keys;
  presence_keys =
      Distinct-keep presence_key (λ r. not (r.fence_id == id)) db.presence k.presence_keys;
  nearest_keys = Distinct-keep nearest_key (λ r. not (r.fence_id == id)) db.nearest k.nearest_keys;
  event_keys = k.event_keys;
  event_ids = k.event_ids;
}
step-HasKeys (creates w) db k =
    after_require HasKeys _ _ db _ k λ free. add-watch w db (ground arith) k
step-HasKeys (fires id at) db k =
    after_require HasKeys _ _ db _ k
      λ live. update-HasKeys (can_fire id) (fire_row at) db (λ r. refl) k
step-HasKeys (sets id s) db k =
    after_require HasKeys _ _ db _ k
      λ known. update-HasKeys (has_id id) (with_state s) db (λ r. refl) k
step-HasKeys (expires now) db k =
    update-HasKeys (is_overdue now) (with_state expired) db (λ r. refl) k
step-HasKeys (cancels device) db k =
    update-HasKeys (is_cancellable device) (with_state cancelled) db (λ r. refl) k
step-HasKeys (reports id at payload) db k =
    after_require HasKeys _ _ db _ k λ known. add-event id at payload db k
step-HasKeys (counts fence_id at operator n) db k = after_require HasKeys _ _ db _ k λ linked.
    put-sample n (record { fence_id = fence_id; at = unix at; operator = operator; count = n }) db k
step-HasKeys (measures fence_id at n) db k =
    after_require HasKeys _ _ db _ k λ linked. put-nearest (nearest_row fence_id at n) db k
step-HasKeys (observes fence_id at seen stale) db k =
    observed-keys db _
      (sight_all-StillKeyed _ fence_id at _ seen (ok (db.presence, [])) k.presence_keys) k

-- From tables with no two rows under one primary key, and event identifiers below the next one to
-- be given out, no sequence of the store's calls, successful or not, leads to tables without that.
pub run-HasKeys : (calls : List Call) (db : Db) → HasKeys db → HasKeys (run calls db)
unfolding run
run-HasKeys [] db k = k
run-HasKeys (c ∷ calls) db k = run-HasKeys calls (step c db) (step-HasKeys c db k)
