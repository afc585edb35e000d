-- ===== src/Poll/Reports.antt =====
-- internal/poll/poll.go: a `Tick` reports a watch whose vehicle has come.
use mathlib.Core.List.{Memᴰ}
use mathlib.Core.List.Memᴰ
use scootless.Base.{
  Option, ℕ, ◌≡◌, ◌≢◌, refl, ap, ◌∙◌, Bool, true, not, ◌&&◌, String, List, [], ◌∷◌, ◌++◌, none,
  Result, ok, err, All, All-at, any, contains, arith, ◌==◌, string_eq, inl,
}
use scootless.Float.{Float64, Math}
use scootless.Entur.Operators.{EnturError}
use scootless.Entur.Vehicles.{Vehicle, Query, Fetched}
use scootless.Store.Schema.{Fence, Watch, appearance, unknown_kind}
use scootless.Store.Fences.{fences}
use scootless.Store.Watches.{expire_watches, armed_watches, can_fire}
use scootless.Store.Lifetime.{expire_watches-live}
use scootless.Poll.Select.{Group, outside, within, group_fences, matches}
use scootless.Poll.Run.{Run, Poller, Notification, TickError, resume, empty_report}
use scootless.Poll.Evaluate.{newcomers, is_empty}
use scootless.Poll.Firing.{counts_for, matches-keep, newcomers-keep, keep-empty}
use scootless.Poll.Tick.{group_query, refresh, tick, outcome_of}
use scootless.Poll.Told.{told_of, tick-told}
use scootless.Poll.Leads.{Ends}
use scootless.Poll.Aims.{IsWritable, reported}
use scootless.Poll.Noted.{Ready}
use scootless.Poll.Serving.{Serves-group_steps_new}
use scootless.Poll.Outcome.{counted, armed-can_fire, groups-stored}

-- The vehicle is in the fence, counts for the watch, and was not there when it was armed.
abbrev pub has_come : Math → Watch → Fence → Vehicle → Bool
has_come m w f v = not (outside m f v) && (counts_for w v && not (contains w.baseline v.id))

any-within :
    (m : Math) (w : Watch) (f : Fence) (vs : List Vehicle)
    → any (λ v. counts_for w v && not (contains w.baseline v.id)) (within m vs f)
      ≡ any (has_come m w f) vs
unfolding within
any-within m w f [] = refl
any-within m w f (v ∷ vs) = ground (arith, any-within m w f vs)

newcomers-come :
    (m : Math) (w : Watch) (f : Fence) (vs : List Vehicle)
    → is_empty (newcomers w (matches (within m vs f) w)) ≡ not (any (has_come m w f) vs)
newcomers-come m w f vs =
    let inside = within m vs f in
    ap (λ l. is_empty (newcomers w l)) (matches-keep inside w)
    ∙ ap is_empty (newcomers-keep w inside)
    ∙ keep-empty (λ v. counts_for w v && not (contains w.baseline v.id)) inside
    ∙ ap not (any-within m w f vs)

pub contains-after :
    (xs ys : List String) (id : String) → contains ys id ≡ true → contains (xs ++ ys) id ≡ true
contains-after [] ys id h = h
contains-after (x ∷ xs) ys id h = ground (arith, contains-after xs ys id h)

module _ (m : Math) (p : Poller) (now : ℕ) where
  kept-outcome_of :
      (id : String) (Q : Run → Type 0) (r : Result TickError (List EnturError) × Run)
      → ((s : Run) → Q s → contains s.rep.fired id ≡ true)
      → Ends (λ _. ⊥) Q r
      → contains (resume (outcome_of m p now) r).1.rep.fired id ≡ true
  kept-outcome_of id Q (ok [], s) k h = k s h
  kept-outcome_of id Q (ok (e ∷ es), s) k h = k s h
  kept-outcome_of id Q (err e, s) k h = absurd h

  module _ (w : Watch) (f : Fence) (g : Group) (res : Fetched) (Finite : Option Float64 → Type 0)
      (encodes : (n : Notification) → All (IsWritable Finite) n.vehicles → p.encode n ≢ none)
      (answers : (q : Query) (res : Fetched)
        → p.fetch q ≡ ok res
        → All (IsWritable Finite) res.vehicles)
      (kind : w.kind ≡ appearance) (here : (w.fence_id == f.id) ≡ true)
      (served_by : Memᴰ f g.fences) (up : p.fetch (group_query m p now g) ≡ ok res)
      (come : any (has_come m w f) res.vehicles ≡ true) where
    refresh-reports :
        (watches : List Watch) (fs : List Fence) (s : Run)
        → armed_watches now s.db ≡ watches
        → All (λ (v : Watch). (k : String) → v.kind ≢ unknown_kind k) watches
        → Memᴰ w watches
        → Memᴰ g (group_fences m fs)
        → All
            (λ (g : Group).
              All (λ (f : Fence). any (λ (h : Fence). h.id == f.id) s.db.fences ≡ true) g.fences)
            (group_fences m fs)
        → contains (refresh m p now fs s).1.rep.fired w.id ≡ true
    unfolding refresh group_fences
    refresh-reports watches [] s same known there at stored = absurd (Memᴰ.not-nil at)
    refresh-reports watches (x ∷ fs) s same known there at stored =
        let armed : any (can_fire w.id) s.db.watches ≡ true =
          All-at _ w (armed_watches now s.db) (rw same there) (armed-can_fire now s.db) in
        rw same (
          kept-outcome_of w.id (Ready (λ _. ⊥) s.db.fences (reported w.id)) _ (λ t h. h.1)
            (Serves-group_steps_new (λ _. ⊥) s.db.fences m p now Finite encodes watches known
              answers w f g res there here kind served_by up
              (newcomers-come m w f res.vehicles ∙ ap not come) (group_fences m (x ∷ fs)) [] at
              stored (counted m p now (x ∷ fs) s) (refl, inl armed)))

pub tick-reports :
    (m : Math) (p : Poller) (now : ℕ) (s : Run) (w : Watch) (f : Fence) (g : Group) (res : Fetched)
    (Finite : Option Float64 → Type 0)
    → p.has_sink ≡ true
    → ((n : Notification) → All (IsWritable Finite) n.vehicles → p.encode n ≢ none)
    → ((q : Query) (res : Fetched) → p.fetch q ≡ ok res → All (IsWritable Finite) res.vehicles)
    → All (λ (v : Watch). (k : String) → v.kind ≢ unknown_kind k) (armed_watches now s.db)
    → Memᴰ w (armed_watches now s.db)
    → w.kind ≡ appearance
    → (w.fence_id == f.id) ≡ true
    → Memᴰ g (group_fences m (fences s.db))
    → Memᴰ f g.fences
    → p.fetch (group_query m p now g) ≡ ok res
    → any (has_come m w f) res.vehicles ≡ true
    → let after = (tick m p now s).1 in
      (contains after.rep.fired w.id ≡ true) × (told_of after ≡ told_of s ++ after.rep.fired)
unfolding tick expire_watches fences
tick-reports m p now s w f g res Finite sink encodes answers known there kind here at served_by up
      come =
    let db = (expire_watches now s.db).1 in
    (
      refresh-reports m p now w f g res Finite encodes answers kind here served_by up come
          (armed_watches now s.db) (fences db)
          (record s {
            db = db;
            rep = record (empty_report now) { expired = (expire_watches now s.db).0 };
          })
          (expire_watches-live now s.db).1 known there at (groups-stored m db),
      tick-told m p now s sink,
    )
