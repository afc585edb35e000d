-- ===== src/Store/Fences.antt =====
-- internal/store/store.go and fence_delete.go: the fences.
use scootless.Base.{
  Bool, ◌&&◌, String, List, none, some, Result, ok, err, ◌==◌, string_eq, any, if◌then◌else◌,
}
use scootless.Base.Table.{find?, upsert, delete_where}
use scootless.Base.Order.{sort}
use scootless.Store.Schema.{
  Db, Fence, WatchRow, EventRow, StoreError, no_rows, fence_in_use, constraint_failed, is_armed,
}
use Prim.Native.String.{compare}
use text.Mathlib.Text.{is_lt}

-- `SaveFence`
unfoldable pub save_fence : Fence → Db → Db
save_fence f db = record db {
  fences =
      upsert (λ g. f.id == g.id) (λ g. record g { name = f.name; at = f.at; radius_m = f.radius_m })
        f db.fences;
}

-- `Fences`, ordered by name, texts by their bytes.
unfoldable pub fences : Db → List Fence
unfolding sort
fences db = sort (λ f g. is_lt (compare f.name g.name)) db.fences

-- `Fence`
unfoldable pub fence : String → Db → Result StoreError Fence
fence id db = elim (find? (λ f. f.id == id) db.fences) [ none ↦ err no_rows | some f ↦ ok f ]

-- A watch that `DeleteFence` counts.
abbrev pub is_waiting : String → WatchRow → Bool
is_waiting id w = w.fence_id == id && is_armed w.state

-- Deleting the watches of a fence fails where one of their events stays behind and the connection
-- enforces the foreign key of `event`.
abbrev pub has_events : String → Db → Bool
has_events id db =
    any
      (λ (e : EventRow). any (λ (w : WatchRow). w.fence_id == id && w.id == e.watch_id) db.watches)
      db.events

-- The five `DELETE` statements.
abbrev pub without_fence : String → Db → Db
without_fence id db = record db {
  watches = delete_where (λ w. w.fence_id == id) db.watches;
  samples = delete_where (λ s. s.fence_id == id) db.samples;
  presence = delete_where (λ p. p.fence_id == id) db.presence;
  nearest = delete_where (λ n. n.fence_id == id) db.nearest;
  fences = delete_where (λ f. f.id == id) db.fences;
}

-- `DeleteFence`, with whether a fence was removed. An error rolls the transaction back, so the
-- database is then the one that the caller had.
unfoldable pub delete_fence : String → Db → Result StoreError (Bool × Db)
delete_fence id db =
    if any (is_waiting id) db.watches
    then err fence_in_use
    else if db.foreign_keys && has_events id db
    then err constraint_failed
    else ok (any (λ f. f.id == id) db.fences, without_fence id db)
