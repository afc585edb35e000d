-- ===== src/Store/Lifetime.antt =====
-- internal/store/watch.go: what each statement does to the life of the watches.
use scootless.Base.{
  ℕ, ◌↔◌, ◌≡◌, refl, Bool, true, false, not, ◌&&◌, ◌||◌, String, List, [], ◌∷◌, ◌++◌, map, some, ok,
  ◌==◌, string_eq, eq_iff, eq_refl, any, any-append, count_if, keep, arith, if◌then◌else◌, ltb,
  Option-cases, inl, inr, ap, is_ok, ◌+◌,
}
use scootless.Base.Table.{update_where, find?, Distinct}
use scootless.Base.Order.{sort}
use scootless.Store.Schema.{
  Db, Watch, WatchRow, fired, expired, cancelled, is_armed, unix, at_second,
}
use scootless.Store.Watches.{
  create_watch, row_of, scan_watch, watch, armed_watches, is_live, mark_fired, has_id, can_fire,
  fire_row, with_state, expire_watches, is_overdue, cancel_armed, is_cancellable,
}
use scootless.Store.History.Keys.{HasKeys}
use scootless.Store.KeyedRows.{watch_key}

module _ (now : ℕ) where
  abbrev retire : List WatchRow → List WatchRow
  retire = update_where (is_overdue now) (with_state expired)

  retire-live : (rows : List WatchRow) → keep (is_live now) (retire rows) ≡ keep (is_live now) rows
  retire-live [] = refl
  retire-live (r ∷ rows) = ground (arith, retire-live rows)

  retire-armed :
      (rows : List WatchRow)
      → keep (λ r. is_armed r.state) (retire rows) ≡ keep (is_live now) (retire rows)
  retire-armed [] = refl
  retire-armed (r ∷ rows) = ground (arith, retire-armed rows)

  count-retired :
      (rows : List WatchRow)
      → count_if (λ r. is_armed r.state) rows
        ≡ count_if (λ r. is_armed r.state) (retire rows) + count_if (is_overdue now) rows
  count-retired [] = refl
  count-retired (r ∷ rows) = ground (arith, count-retired rows)

  -- `ExpireWatches` leaves armed exactly the watches that `ArmedWatches` returns at that time, it
  -- takes none of those away, and the number that it reports is the number of watches that it
  -- disarmed.
  pub expire_watches-live :
      (db : Db)
      → let (n, new) = expire_watches now db in
        (keep (λ r. is_armed r.state) new.watches ≡ keep (is_live now) new.watches)
        × (armed_watches now new ≡ armed_watches now db)
        × (count_if (λ r. is_armed r.state) db.watches
            ≡ count_if (λ r. is_armed r.state) new.watches + n)
  unfolding expire_watches armed_watches
  expire_watches-live db = (
    retire-armed db.watches,
    ap (λ rows. map scan_watch (sort (λ r s. ltb r.created_at s.created_at) rows))
        (retire-live db.watches),
    count-retired db.watches,
  )

module _ (device : String) where
  abbrev cancel : List WatchRow → List WatchRow
  cancel = update_where (is_cancellable device) (with_state cancelled)

  -- A watch that the call is about: any, or one of the named device.
  abbrev concerns : WatchRow → Bool
  concerns r = device == "" || r.device == device

  cancel-none_armed :
      (rows : List WatchRow) → any (λ r. concerns r && is_armed r.state) (cancel rows) ≡ false
  cancel-none_armed [] = refl
  cancel-none_armed (r ∷ rows) = ground (arith, cancel-none_armed rows)

  cancel-others :
      (rows : List WatchRow)
      → keep (λ r. not (concerns r)) (cancel rows) ≡ keep (λ r. not (concerns r)) rows
  cancel-others [] = refl
  cancel-others (r ∷ rows) = ground (arith, cancel-others rows)

  count-cancelled :
      (rows : List WatchRow)
      → count_if (λ r. is_armed r.state) rows
        ≡ count_if (λ r. is_armed r.state) (cancel rows) + count_if (is_cancellable device) rows
  count-cancelled [] = refl
  count-cancelled (r ∷ rows) = ground (arith, count-cancelled rows)

  -- After `CancelArmed` no watch of the device is armed, or none at all where no device was named;
  -- the watches of other devices are as they were; and the number that it reports is the number of
  -- watches that it disarmed.
  cancel_armed-stops :
      (db : Db)
      → let (n, new) = cancel_armed device db in
        (any (λ r. concerns r && is_armed r.state) new.watches ≡ false)
        × (keep (λ r. not (concerns r)) new.watches ≡ keep (λ r. not (concerns r)) db.watches)
        × (count_if (λ r. is_armed r.state) db.watches
            ≡ count_if (λ r. is_armed r.state) new.watches + n)
  unfolding cancel_armed
  cancel_armed-stops db =
      (cancel-none_armed db.watches, cancel-others db.watches, count-cancelled db.watches)

-- The watch as it reads back: its times in whole seconds, armed unless it was given a state.
abbrev pub stored : Watch → Watch
stored w = scan_watch (row_of w)

find-added :
    (id : String) (rows : List WatchRow) (r : WatchRow)
    → r.id ≡ id
    → any (has_id id) rows ≡ false
    → find? (has_id id) (rows ++ r ∷ []) ≡ some r
find-added id [] r e h = ground (arith, eq_iff r.id id)
find-added id (x ∷ rows) r e h = ground (arith, find-added id rows r)

-- A watch that `CreateWatch` stores is the one that `Watch` returns, with its times cut to whole
-- seconds and `armed` for an empty state; a second one under the same identifier is refused.
watch-create_watch :
    (w v : Watch) (db new : Db)
    → create_watch w db ≡ ok new
    → (watch w.id new ≡ ok (stored w)) × (is_ok (create_watch (record v { id = w.id }) new) ≡ false)
unfolding create_watch watch
watch-create_watch w v db new e =
    let shape : new ≡ record db { watches = db.watches ++ row_of w ∷ [] } = ground arith in
    let free : any (has_id w.id) db.watches ≡ false = ground arith in
    rw shape (
      ground (arith, find-added w.id db.watches (row_of w) refl free),
      ground (arith, any-append (has_id w.id) db.watches (row_of w ∷ []), eq_refl w.id),
    )

none_fires :
    (id : String) (x : WatchRow) (rows : List WatchRow)
    → (x.id == id) ≡ true
    → any (watch_key x) rows ≡ false
    → any (can_fire id) rows ≡ false
none_fires id x [] e h = refl
none_fires id x (y ∷ rows) e h =
    ground (arith, none_fires id x rows, eq_iff x.id id, eq_iff y.id id, eq_refl y.id)

armed_of_any :
    (id : String) (rows : List WatchRow) (r : WatchRow)
    → Distinct watch_key rows
    → find? (has_id id) rows ≡ some r
    → any (can_fire id) rows ≡ is_armed r.state
armed_of_any id [] r d f = ground arith
armed_of_any id (x ∷ rows) r d f = ground (arith, none_fires id x rows, armed_of_any id rows r d.1)

find-fired :
    (id : String) (at : ℕ) (rows : List WatchRow) (r : WatchRow)
    → find? (has_id id) rows ≡ some r
    → is_armed r.state ≡ true
    → find? (has_id id) (update_where (can_fire id) (fire_row at) rows) ≡ some (fire_row at r)
find-fired id at [] r f a = ground arith
find-fired id at (x ∷ rows) r f a = ground (arith, find-fired id at rows r)

-- The watch that `MarkFired` leaves behind.
abbrev after_firing : ℕ → Watch → Watch
after_firing at w = record w {
  fired_at = some (at_second (unix at));
  state = if w.repeat then w.state else fired;
}

row_fired :
    (id : String) (at : ℕ) (r : WatchRow) (db : Db)
    → HasKeys db
    → find? (has_id id) db.watches ≡ some r
    → ((is_ok (mark_fired id at db) ≡ true) ↔ (is_armed r.state ≡ true))
      × ((new : Db)
          → mark_fired id at db ≡ ok new
          → watch id new ≡ ok (after_firing at (scan_watch r)))
unfolding mark_fired watch
row_fired id at r db k f = (
  (
    ground (arith, armed_of_any id db.watches r k.watch_keys f),
    ground (arith, armed_of_any id db.watches r k.watch_keys f),
  ),
  λ new done.
      let armed : is_armed r.state ≡ true =
        ground (arith, armed_of_any id db.watches r k.watch_keys f) in
      let shape : new
          ≡ record db { watches = update_where (can_fire id) (fire_row at) db.watches } =
        ground arith in
      rw (shape, watch, find-fired id at db.watches r f armed) refl,
)

-- With one row for each identifier, `MarkFired` succeeds exactly where the watch exists and is
-- armed; then the watch reads back with the time of firing, disarmed unless it repeats, and is
-- otherwise the same.
mark_fired-watch :
    (id : String) (at : ℕ) (w : Watch) (db : Db)
    → HasKeys db
    → watch id db ≡ ok w
    → ((is_ok (mark_fired id at db) ≡ true) ↔ (is_armed w.state ≡ true))
      × ((new : Db) → mark_fired id at db ≡ ok new → watch id new ≡ ok (after_firing at w))
unfolding mark_fired watch
mark_fired-watch id at w db k e = elim (Option-cases (find? (has_id id) db.watches)) [
  | inl f ↦ ground arith
  | inr (r, f) ↦ let shape : w ≡ scan_watch r = ground arith in rw shape (row_fired id at r db k f)
]
