-- ===== src/Store/History/Links.antt =====
-- The references of internal/store/schema.go hold, whatever calls are made, on a connection that
-- enforces foreign keys: the one that `Open` sets up.
use scootless.Base.{
  ℕ, ◌≡◌, refl, Bool, true, false, not, ◌&&◌, ◌||◌, String, List, [], ◌∷◌, ◌++◌, ◌==◌, string_eq,
  eq_iff, any, any-append, any-map, any-keep-not, any_congr, All, All-append, All-mono,
  All-keep_both, All-zip, All-of_any-false, arith, if◌then◌else◌, ◌∙◌,
}
use scootless.Base.Table.{update_where, upsert, any-upsert, All-update_where, All-upsert}
use scootless.Store.Schema.{
  Db, Fence, Watch, WatchRow, EventRow, SampleRow, NearestRow, has_fence, has_watch,
  may_refer_fence, may_refer_watch, open_new,
}
use scootless.Store.Fences.{save_fence, has_events, without_fence}
use scootless.Store.Watches.{row_of, has_id}
use scootless.Store.Samples.{sample_key}
use scootless.Store.Nearest.{nearest_key}

-- Each row refers to a fence, and each event to a watch, that exists.
pub record HasLinks (db : Db) : Type 0 where
  pub enforced : db.foreign_keys ≡ true
  pub watch_links : All (λ w. has_fence db w.fence_id ≡ true) db.watches
  pub sample_links : All (λ s. has_fence db s.fence_id ≡ true) db.samples
  pub presence_links : All (λ p. has_fence db p.fence_id ≡ true) db.presence
  pub nearest_links : All (λ n. has_fence db n.fence_id ≡ true) db.nearest
  pub event_links : All (λ e. has_watch db e.watch_id ≡ true) db.events

open_new-HasLinks : HasLinks open_new
unfolding open_new
open_new-HasLinks = record {
  enforced = refl;
  watch_links = tt;
  sample_links = tt;
  presence_links = tt;
  nearest_links = tt;
  event_links = tt;
}

pub save_fence-HasLinks : (f : Fence) (db : Db) → HasLinks db → HasLinks (save_fence f db)
unfolding save_fence
save_fence-HasLinks f db k = record {
  enforced = k.enforced;
  watch_links = All-mono _ _ (λ w. grow w.fence_id) db.watches k.watch_links;
  sample_links = All-mono _ _ (λ s. grow s.fence_id) db.samples k.sample_links;
  presence_links = All-mono _ _ (λ p. grow p.fence_id) db.presence k.presence_links;
  nearest_links = All-mono _ _ (λ n. grow n.fence_id) db.nearest k.nearest_links;
  event_links = k.event_links;
}
  where
    grow : (x : String) → has_fence db x ≡ true → has_fence (save_fence f db) x ≡ true
    grow x h = ground (
      arith,
      any-upsert (λ (g : Fence). g.id == x) (λ g. f.id == g.id)
          (λ g. record g { name = f.name; at = f.at; radius_m = f.radius_m }) f db.fences
          (λ r. refl),
    )

-- A fence other than the deleted one stays.
has_fence-kept :
    (id x : String) (db : Db)
    → not (x == id) ≡ true
    → has_fence db x ≡ true
    → has_fence (without_fence id db) x ≡ true
has_fence-kept id x db other h =
    any-keep-not (λ (f : Fence). f.id == x) (λ f. f.id == id) db.fences h (none_both db.fences)
  where
    none_both : (fs : List Fence) → any (λ f. f.id == id && f.id == x) fs ≡ false
    none_both = elim [
      | [] ↦ refl
      | f ∷ (fs → ih) ↦ ground (arith, ih, eq_iff f.id id, eq_iff f.id x, eq_iff x id)
    ]

pub without_fence-HasLinks :
    (id : String) (db : Db)
    → HasLinks db
    → (db.foreign_keys && has_events id db) ≡ false
    → HasLinks (without_fence id db)
without_fence-HasLinks id db k loose = record {
  enforced = k.enforced;
  watch_links = All-keep_both _ _ _ (λ w. has_fence-kept id w.fence_id db) db.watches k.watch_links;
  sample_links =
      All-keep_both _ _ _ (λ s. has_fence-kept id s.fence_id db) db.samples k.sample_links;
  presence_links =
      All-keep_both _ _ _ (λ p. has_fence-kept id p.fence_id db) db.presence k.presence_links;
  nearest_links =
      All-keep_both _ _ _ (λ n. has_fence-kept id n.fence_id db) db.nearest k.nearest_links;
  event_links =
      All-mono _ _
        (λ e (known, apart).
          any-keep-not (has_id e.watch_id) (λ w. w.fence_id == id) db.watches known apart)
        db.events
        (All-zip _ _ db.events k.event_links
          (All-of_any-false _ db.events (ground (arith, k.enforced))));
}

-- An update of watches that leaves their identifiers and their fences alone.
pub update-HasLinks :
    (hit : WatchRow → Bool) (change : WatchRow → WatchRow) (db : Db)
    → ((r : WatchRow) → (change r).id ≡ r.id)
    → ((r : WatchRow) → (change r).fence_id ≡ r.fence_id)
    → HasLinks db
    → HasLinks (record db { watches = update_where hit change db.watches })
update-HasLinks hit change db ids refs k = record {
  enforced = k.enforced;
  watch_links = All-update_where _ hit change (λ r h. rw (refs r) h) db.watches k.watch_links;
  sample_links = k.sample_links;
  presence_links = k.presence_links;
  nearest_links = k.nearest_links;
  event_links =
      All-mono _ _
        (λ e h.
          any-map (λ r. if hit r then change r else r) (has_id e.watch_id) db.watches
          ∙ any_congr _ (has_id e.watch_id) (λ r. ground (arith, ids r)) db.watches
          ∙ h)
        db.events k.event_links;
}

pub add-watch :
    (w : Watch) (db : Db)
    → may_refer_fence db w.fence_id ≡ true
    → HasLinks db
    → HasLinks (record db { watches = db.watches ++ row_of w ∷ [] })
add-watch w db linked k = record {
  enforced = k.enforced;
  watch_links =
      All-append _ db.watches (row_of w ∷ []) k.watch_links (ground (arith, k.enforced), tt);
  sample_links = k.sample_links;
  presence_links = k.presence_links;
  nearest_links = k.nearest_links;
  event_links =
      All-mono _ _
        (λ e h. ground (arith, any-append (has_id e.watch_id) db.watches (row_of w ∷ []), h))
        db.events k.event_links;
}

pub add-event :
    (e : EventRow) (next : ℕ) (db : Db)
    → may_refer_watch db e.watch_id ≡ true
    → HasLinks db
    → HasLinks (record db { events = db.events ++ e ∷ []; next_event = next })
add-event e next db linked k = record {
  enforced = k.enforced;
  watch_links = k.watch_links;
  sample_links = k.sample_links;
  presence_links = k.presence_links;
  nearest_links = k.nearest_links;
  event_links = All-append _ db.events (e ∷ []) k.event_links (ground (arith, k.enforced), tt);
}

pub put-sample :
    (n : ℕ) (row : SampleRow) (db : Db)
    → (any (sample_key row) db.samples || may_refer_fence db row.fence_id) ≡ true
    → HasLinks db
    → HasLinks (record db {
      samples = upsert (sample_key row) (λ r. record r { count = n }) row db.samples;
    })
put-sample n row db linked k = record {
  enforced = k.enforced;
  watch_links = k.watch_links;
  sample_links =
      All-upsert _ (sample_key row) (λ r. record r { count = n }) row (λ r h. h) db.samples
        (λ new. ground (arith, k.enforced)) k.sample_links;
  presence_links = k.presence_links;
  nearest_links = k.nearest_links;
  event_links = k.event_links;
}

pub put-nearest :
    (row : NearestRow) (db : Db)
    → (any (nearest_key row) db.nearest || may_refer_fence db row.fence_id) ≡ true
    → HasLinks db
    → HasLinks (record db {
      nearest =
          upsert
            (nearest_key row)
            (λ r. record r { distance_m = row.distance_m; vehicle_id = row.vehicle_id })
            row
            db.nearest;
    })
put-nearest row db linked k = record {
  enforced = k.enforced;
  watch_links = k.watch_links;
  sample_links = k.sample_links;
  presence_links = k.presence_links;
  nearest_links =
      All-upsert _ (nearest_key row)
        (λ r. record r { distance_m = row.distance_m; vehicle_id = row.vehicle_id }) row (λ r h. h)
        db.nearest (λ new. ground (arith, k.enforced)) k.nearest_links;
  event_links = k.event_links;
}
