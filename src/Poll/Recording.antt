-- ===== src/Poll/Recording.antt =====
-- internal/poll/poll.go: `recordFence` and `recordNearest` of a fence that is in the database, which
-- is what lets their statements succeed.
use scootless.Base.{
  ℕ, ◌≡◌, refl, Bool, true, false, ◌||◌, String, List, [], ◌∷◌, Option, Result, ok, require, arith,
  Option-cases, inl, inr,
}
use scootless.Base.Int.{ℤ}
use scootless.Float.{Math}
use scootless.Entur.Vehicles.{Vehicle}
use scootless.Store.Schema.{
  Db, Fence, PresenceRow, StoreError, constraint_failed, has_fence, may_refer_fence,
}
use scootless.Store.Samples.{record_sample}
use scootless.Base.Dict.{put}
use scootless.Store.Nearest.{Nearest, record_nearest as store_nearest}
use scootless.Store.Presence.{
  observe_presence, Arrival, Sighting, sight, sight_all, open_stint, cutoff_of,
}
use scootless.Poll.Run.{Run, Poller, TickError, write}
use scootless.Poll.Record.{record_fence, record_nearest, observed, sightings_of}
use scootless.Poll.Walk.{walk-record_fence, walk-record_nearest}
use scootless.Poll.Leads.{Leads-IsClosed, Leads, Leads-write}

-- The statement succeeds, and leaves the fences and the watches alone.
abbrev Spares : (Db → Result StoreError Db) → Db → Type 0
Spares statement db =
    (new : Db) × (statement db ≡ ok new) × (new.fences ≡ db.fences) × (new.watches ≡ db.watches)

may_refer-has : (db : Db) (id : String) → has_fence db id ≡ true → may_refer_fence db id ≡ true
may_refer-has db id h = ground arith

require-linked :
    {A : Type 0} (t linked : Bool) (a : A)
    → linked ≡ true
    → require {E = StoreError} (t || linked) constraint_failed (ok a) ≡ ok a
require-linked true linked a l = refl
require-linked false linked a l = rw l refl

record_sample-Spares :
    (id op : String) (now n : ℕ) (db : Db)
    → has_fence db id ≡ true
    → Spares (record_sample id now op n) db
unfolding record_sample
record_sample-Spares id op now n db h =
    (_, require-linked _ (may_refer_fence db id) _ (may_refer-has db id h), refl, refl)

record_nearest-Spares :
    (id : String) (now : ℕ) (n : Nearest) (db : Db)
    → has_fence db id ≡ true
    → Spares (store_nearest id now n) db
unfolding store_nearest
record_nearest-Spares id now n db h =
    (_, require-linked _ (may_refer_fence db id) _ (may_refer-has db id h), refl, refl)

-- With a fence to refer to, no sighting is refused.
sight-ok :
    (linked : Bool) (id : String) (at : ℕ) (opened : String → Option ℕ) (s : Sighting)
    (state : List PresenceRow × List Arrival)
    → linked ≡ true
    → (next : List PresenceRow × List Arrival) × (sight linked id at opened s state ≡ ok next)
sight-ok linked id at opened s (rows, new) l = elim (Option-cases (opened s.vehicle_id)) [
  | inl e ↦ rw (e, sight) (_, require-linked _ linked _ l)
  | inr (first, e) ↦ rw (e, sight) (_, refl)
]

sight_all-ok :
    (linked : Bool) (id : String) (at : ℕ) (opened : String → Option ℕ) (seen : List Sighting)
    (state : List PresenceRow × List Arrival)
    → linked ≡ true
    → (after : List PresenceRow × List Arrival) × (sight_all linked id at opened seen state
        ≡ ok after)
unfolding sight_all
sight_all-ok linked id at opened [] state l = (state, refl)
sight_all-ok linked id at opened (s ∷ seen) state l =
    let (next, e) = sight-ok linked id at opened s state l in
    rw e (sight_all-ok linked id at opened seen next l)

observe_presence-ok :
    (id : String) (now : ℕ) (seen : List Sighting) (stale : ℤ) (db : Db)
    → has_fence db id ≡ true
    → (arrivals : List Arrival) × (rows : List PresenceRow) × (observe_presence id now seen stale db
        ≡ ok (arrivals, record db { presence = rows }))
unfolding observe_presence
observe_presence-ok id now seen stale db h =
    let ((rows, new), e) =
      sight_all-ok (may_refer_fence db id) id now (open_stint id (cutoff_of now stale) db.presence)
        seen (db.presence, []) (may_refer-has db id h) in
    rw e (new, rows, refl)

-- `P` minds only the fences, the watches and the watches that were reported.
module _ (E : TickError → Type 0) (P : Run → Type 0) (p : Poller) (f : Fence) (now : ℕ)
    (inside : List Vehicle) (linked : (s : Run) → P s → has_fence s.db f.id ≡ true)
    (frame : (s t : Run)
      → t.db.fences ≡ s.db.fences
      → t.db.watches ≡ s.db.watches
      → t.rep.fired ≡ s.rep.fired
      → P s
      → P t) where
  Leads-Spares :
      (statement : Db → Result StoreError Db)
      → ((db : Db) → has_fence db f.id ≡ true → Spares statement db)
      → Leads E P P (write statement)
  Leads-Spares statement k = Leads-write E P P statement λ s h.
      let (new, e, fences, watches) = k s.db (linked s h) in
      (new, e, frame s (record s { db = new }) fences watches refl h)

  Leads-observed :
      (now : ℕ) (seen : List Sighting) (stale : ℤ)
      → Leads E P P (λ s. observed (observe_presence f.id now seen stale s.db) s)
  Leads-observed now seen stale s h =
      let (new, rows, e) = observe_presence-ok f.id now seen stale s.db (linked s h) in
      rw e (frame s _ refl refl refl h)

  pub Leads-record_fence : Leads E P P (record_fence p f now inside)
  Leads-record_fence =
      walk-record_fence (λ act. Leads E P P act) (Leads-IsClosed E P) p f now inside
        (λ op n. Leads-Spares (record_sample f.id now op n) (record_sample-Spares f.id op now n))
        (Leads-observed now (sightings_of inside) p.stale)

  pub Leads-record_nearest : (m : Math) → Leads E P P (record_nearest m p f now inside)
  Leads-record_nearest m =
      walk-record_nearest (λ act. Leads E P P act) (Leads-IsClosed E P) p f now inside m
        (λ n. Leads-Spares (store_nearest f.id now n) (record_nearest-Spares f.id now n))
        (λ s h. frame s (record s { nearest_at = put f.id now s.nearest_at }) refl refl refl h)
        λ s h. frame s _ refl refl refl h
