-- ===== src/Poll/Rounds.antt =====
-- internal/poll/poll.go: what a round of `Run` leaves of a watch that has not expired.
use mathlib.Core.List.{Memᴰ}
use mathlib.Core.List.Memᴰ
use mathlib.Core.List.{append_assoc}
use scootless.Base.{
  Option, ℕ, ◌≡◌, ◌≢◌, refl, ap, ◌∙◌, true, false, String, List, [], ◌∷◌, ◌++◌, none, Result, ok,
  err, All, All-map, All-keep, Memᴰ-keep, any, contains, arith, ◌==◌, string_eq, ltb, inl,
}
use scootless.Base.Order.{sort, All-sort, Memᴰ-sort}
use scootless.Base.Table.{All-update_where, Memᴰ-update_where}
use scootless.Float.{Float64, Math}
use scootless.Entur.Operators.{EnturError}
use scootless.Entur.Vehicles.{Query, Fetched}
use scootless.Store.Schema.{Db, Fence, Watch, WatchRow, expired, unknown_kind}
use scootless.Store.Fences.{fences}
use scootless.Store.Watches.{
  expire_watches, armed_watches, scan_watch, is_live, is_overdue, with_state,
}
use scootless.Poll.Select.{Group, group_fences}
use scootless.Poll.Run.{Run, Poller, Fetcher, Notification, TickError, resume, empty_report}
use scootless.Poll.Tick.{refresh, tick, outcome_of}
use scootless.Poll.Loop.{round}
use scootless.Poll.Told.{told_of, tick-told}
use scootless.Poll.Leads.{Ends}
use scootless.Poll.Aims.{IsWritable, Aim, standing, Met, HasKind}
use scootless.Poll.Noted.{Ready}
use scootless.Poll.Serving.{Serves-group_steps}
use scootless.Poll.Outcome.{counted, groups-stored}
use scootless.Poll.Reports.{contains-after}

-- A row that has not expired is among the watches that a tick evaluates.
pub armed_watches-row :
    (t : ℕ) (r : WatchRow) (db : Db)
    → is_live t r ≡ true
    → Memᴰ r db.watches
    → Memᴰ (scan_watch r) (armed_watches t db)
unfolding armed_watches
armed_watches-row t r db live there = Memᴰ.map scan_watch (
    Memᴰ-sort (λ r s. ltb r.created_at s.created_at) r _
      (Memᴰ-keep (is_live t) r db.watches live there))

pub armed_watches-kinds :
    (t : ℕ) (db : Db)
    → All HasKind db.watches
    → All (λ (v : Watch). (k : String) → v.kind ≢ unknown_kind k) (armed_watches t db)
unfolding armed_watches
armed_watches-kinds t db kinds =
    All-map _ _ _ (All-sort _ _ _ (All-keep HasKind (is_live t) db.watches kinds))

module _ (m : Math) (p : Poller) (now : ℕ) (Finite : Option Float64 → Type 0)
    (encodes : (n : Notification) → All (IsWritable Finite) n.vehicles → p.encode n ≢ none)
    (answers : (q : Query) (res : Fetched)
      → p.fetch q ≡ ok res
      → All (IsWritable Finite) res.vehicles) where
  abbrev Kept : List Fence → Aim → Run → Type 0
  Kept = Ready (λ _. ⊥)

  Kept-outcome_of :
      (fs : List Fence) (aim : Aim) (r : Result TickError (List EnturError) × Run)
      → Ends (λ _. ⊥) (Kept fs aim) r
      → Kept fs aim (resume (outcome_of m p now) r).1
  Kept-outcome_of fs aim (ok [], s) h = h
  Kept-outcome_of fs aim (ok (e ∷ es), s) h = h
  Kept-outcome_of fs aim (err e, s) h = absurd h

  Kept-refresh :
      (aim : Aim) (fs : List Fence) (s : Run)
      → All HasKind s.db.watches
      → All
          (λ (g : Group).
            All (λ (f : Fence). any (λ (h : Fence). h.id == f.id) s.db.fences ≡ true) g.fences)
          (group_fences m fs)
      → Met aim s.db.watches s.rep.fired
      → Kept s.db.fences aim (refresh m p now fs s).1
  unfolding refresh
  Kept-refresh aim [] s kinds stored h = (refl, h)
  Kept-refresh aim (f ∷ fs) s kinds stored h = Kept-outcome_of s.db.fences aim _ (
      Serves-group_steps (λ _. ⊥) s.db.fences m p now Finite encodes (armed_watches now s.db)
        (armed_watches-kinds now s.db kinds) answers aim (group_fences m (f ∷ fs)) [] stored
        (counted m p now (f ∷ fs) s) (refl, h))

  -- A tick leaves the row of a watch alone that has not expired, or it reports the watch.
  pub tick-stands :
      (s : Run) (r : WatchRow)
      → All HasKind s.db.watches
      → is_overdue now r ≡ false
      → Memᴰ r s.db.watches
      → let after = (tick m p now s).1 in
        (after.db.fences ≡ s.db.fences) × Met (standing r) after.db.watches after.rep.fired
  unfolding tick expire_watches fences
  tick-stands s r kinds early there =
      let db = (expire_watches now s.db).1 in
      let known : All HasKind db.watches =
        All-update_where HasKind (is_overdue now) (with_state expired) (λ r k. k) s.db.watches
          kinds in
      Kept-refresh (standing r) (fences db)
        (record s {
          db = db;
          rep = record (empty_report now) { expired = (expire_watches now s.db).0 };
        })
        known (groups-stored m db)
        (
          known,
          inl (Memᴰ-update_where (is_overdue now) (with_state expired) r s.db.watches early there),
        )

contains-before :
    (xs ys : List String) (id : String) → contains xs id ≡ true → contains (xs ++ ys) id ≡ true
contains-before [] ys id h = cc
contains-before (x ∷ xs) ys id h = ground (arith, contains-before xs ys id)

pub fences-same : (a b : Db) → a.fences ≡ b.fences → fences a ≡ fences b
unfolding fences
fences-same a b e = ap (sort _) e

pub live-overdue : (t : ℕ) (r : WatchRow) → is_live t r ≡ true → is_overdue t r ≡ false
live-overdue t r h = ground arith

-- What was told of later comes after what was told of before.
abbrev pub Grows : Run → Run → Type 0
Grows s t = (more : List String) × (told_of t ≡ told_of s ++ more)

-- A watch was told of since.
abbrev pub TellsOf : String → Run → Run → Type 0
TellsOf id s t = (more : List String) × (told_of t ≡ told_of s ++ more) × (contains more id ≡ true)

pub TellsOf-Grows : (id : String) (s t u : Run) → TellsOf id s t → Grows t u → TellsOf id s u
TellsOf-Grows id s t u (xs, e, h) (ys, f) =
    (xs ++ ys, f ∙ ap (λ l. l ++ ys) e ∙ append_assoc (told_of s) xs ys, contains-before xs ys id h)

pub Grows-TellsOf : (id : String) (s t u : Run) → Grows s t → TellsOf id t u → TellsOf id s u
Grows-TellsOf id s t u (xs, e) (ys, f, h) =
    (xs ++ ys, f ∙ ap (λ l. l ++ ys) e ∙ append_assoc (told_of s) xs ys, contains-after xs ys id h)

pub Grows-trans : (s t u : Run) → Grows s t → Grows t u → Grows s u
Grows-trans s t u (xs, e) (ys, f) =
    (xs ++ ys, f ∙ ap (λ l. l ++ ys) e ∙ append_assoc (told_of s) xs ys)

-- A round tells of what its tick reports.
pub told-round :
    (m : Math) (p : Poller) (now : ℕ) (fetch : Fetcher) (s : Run)
    → p.has_sink ≡ true
    → let t = round m p now fetch s in told_of t ≡ told_of s ++ t.rep.fired
unfolding round
told-round m p now fetch s sink = tick-told m (record p { fetch = fetch }) now s sink
