-- ===== src/Poll/Throttle.antt =====
-- internal/poll/poll.go: how often `recordNearest` asks about the operators that are absent.
use scootless.Base.{
  ℕ, ◌+◌, ◌≡◌, ◌≢◌, refl, true, String, List, [], ◌∷◌, Option, none, some, All-of, ◌⊎◌, inl, inr,
  arith, ltb, eq_refl, eq_iff, Result, ok, err, All, Bool-cases, false, ◌==◌, string_eq, ◌∙◌,
}
use scootless.Float.{Math}
use scootless.Entur.Operators.{EnturError, Operator}
use scootless.Entur.Vehicles.{Vehicle, Fetched}
use scootless.Store.Schema.{Fence, Db, StoreError}
use scootless.Base.Dict.{put, get as lookup}
use scootless.Store.Nearest.{record_nearest as store_nearest}
use scootless.Poll.Run.{Run, Poller, M, ◌>>◌, pure, modify, modify_rep, write, for_each}
use scootless.Poll.Record.{
  record_nearest, probe_one, probe_absent, closest_of, interval_of, closest_reading, absent_from,
  probe, recorded, probe_reading, asked_lately,
}
use scootless.Poll.Keeps.{Keeps, Keeps-bind, Keeps-for_each, Keeps-write, Keeps-if}

lookup-put :
    {A : Type 0} (k : String) (v : A) (out : List (String × A)) → lookup k (put k v out) ≡ some v
unfolding put lookup
lookup-put k v [] = ground (arith, eq_refl k)
lookup-put k v ((l, x) ∷ out) = ground (arith, lookup-put k v out)

lookup-put-other :
    {A : Type 0} (k l : String) (v : A) (out : List (String × A))
    → (k == l) ≡ false
    → lookup l (put k v out) ≡ lookup l out
unfolding put lookup
lookup-put-other k l v [] e = ground arith
lookup-put-other k l v ((j, x) ∷ out) e = elim (Bool-cases (j == k)) [
  | inl hit ↦ let same : j ≡ k = (eq_iff j k).0 hit in rw (same, eq_refl k, e, put, lookup) refl
  | inr miss ↦ ground (arith, lookup-put-other k l v out e)
]

-- A pass of `recordNearest` over a fence, at a time and with the vehicles inside.
pub record Pass : Type 0 where
  pub fence : Fence
  pub at : ℕ
  pub inside : List Vehicle

-- The poller's state after passes, one after another.
pub passes : Math → Poller → List Pass → Run → Run
passes m p [] s = s
passes m p (x ∷ xs) s = passes m p xs (record_nearest m p x.fence x.at x.inside s).1

module _ (m : Math) (p : Poller) (f : Fence) where
  -- The fence's memory, as a predicate on states, is what every step but the loop's start keeps.
  module _ {ℓ} (P : Run → Type ℓ) (now : ℕ)
      (writes : (s : Run) (new : Db) → P s → P (record s { db = new })) where
    kept-write : (statement : Db → Result StoreError Db) → Keeps P (write statement)
    kept-write statement = Keeps-write P statement λ s new h e. writes s new h

    abbrev stored : String × Vehicle → M (Unit {0})
    stored c = write (store_nearest f.id now (closest_reading m p f now c))

    kept-stored : (found : List (String × Vehicle)) → Keeps P (for_each stored found)
    kept-stored found = Keeps-for_each P stored found (
        All-of (λ c. Keeps P (stored c))
          (λ c. kept-write (store_nearest f.id now (closest_reading m p f now c))) found)

    kept-recorded :
        (o : Operator) (r : Result EnturError Fetched) → Keeps P (recorded m p f now o r)
    kept-recorded o (ok res) =
        kept-write (store_nearest f.id now (probe_reading m p f now o res.vehicles))
    kept-recorded o (err e) = λ s h. h

    kept-record_nearest :
        (inside : List Vehicle)
        → ((interval : ℕ)
            → interval_of p.nearest_interval ≡ some interval
            → Keeps P (probe_absent m p f now interval (closest_of m inside [])))
        → Keeps P (record_nearest m p f now inside)
    unfolding record_nearest
    kept-record_nearest inside probes = on (interval_of p.nearest_interval) refl
      where
        found : List (String × Vehicle)
        found = closest_of m inside []

        on :
            (i : Option ℕ)
            → interval_of p.nearest_interval ≡ i
            → Keeps P (record_nearest m p f now inside)
        on none e = rw (e, record_nearest) (λ s h. h)
        on (some interval) e =
            rw (e, record_nearest)
              (Keeps-bind P (for_each stored found) (λ _. probe_absent m p f now interval found)
                (kept-stored found) λ _. probes interval e)

  -- The fence was asked about at that time.
  abbrev Marked : ℕ → Run → Type 0
  Marked now t = lookup f.id t.nearest_at ≡ some now

  Marked-probe_one : (asked now : ℕ) (o : Operator) → Keeps (Marked asked) (probe_one m p f now o)
  unfolding probe_one
  Marked-probe_one asked now o =
      Keeps-bind (Marked asked)
        (modify_rep (λ r. record r { nearest_queries = r.nearest_queries + 1 }))
        (λ _. recorded m p f now o (p.fetch (probe m p f now o))) (λ s h. h)
        λ _. kept-recorded (Marked asked) now (λ s new h. h) o (p.fetch (probe m p f now o))

  -- Nothing was asked since the number was read, or the fence is marked.
  abbrev Spent : ℕ → ℕ → Run → Type 0
  Spent n now t = (t.rep.nearest_queries ≡ n) ⊎ Marked now t

  Spent-probe_absent :
      (n now interval : ℕ) (closest : List (String × Vehicle))
      → Keeps (Spent n now) (probe_absent m p f now interval closest)
  unfolding probe_absent
  Spent-probe_absent n now interval closest s =
      Keeps-if (Spent n now) (asked_lately now interval (lookup f.id s.nearest_at)) (pure tt)
        (modify note_asked >> for_each (probe_one m p f now) (absent_from closest)) (λ t h. h)
        (λ t h. inr (
          Keeps-for_each (Marked now) (probe_one m p f now) (absent_from closest)
            (All-of (λ o. Keeps (Marked now) (probe_one m p f now o)) (Marked-probe_one now now)
              (absent_from closest))
            (note_asked t) (lookup-put f.id now t.nearest_at)))
        s
    where
      note_asked : Run → Run
      note_asked s = record s { nearest_at = put f.id now s.nearest_at }

  -- Nothing was asked since the number was read, and the fence is marked.
  abbrev Quiet : ℕ → ℕ → Run → Type 0
  Quiet n asked t = (t.rep.nearest_queries ≡ n) × Marked asked t

  Quiet-probe_absent :
      (n asked now interval : ℕ) (closest : List (String × Vehicle))
      → ltb now (asked + interval) ≡ true
      → Keeps (Quiet n asked) (probe_absent m p f now interval closest)
  unfolding probe_absent
  Quiet-probe_absent n asked now interval closest soon s (same, mark) =
      rw (mark, soon, probe_absent) (same, mark)

-- What a pass over any fence makes of the memory of one: it stays, before the interval is over.
module _ (m : Math) (p : Poller) (f : Fence) (asked interval : ℕ)
    (every : interval_of p.nearest_interval ≡ some interval) where
  abbrev Stays : Run → Type 0
  Stays = Marked m p f asked

  Stays-probe_one : (g : Fence) (now : ℕ) (o : Operator) → Keeps Stays (probe_one m p g now o)
  unfolding probe_one
  Stays-probe_one g now o =
      Keeps-bind Stays (modify_rep (λ r. record r { nearest_queries = r.nearest_queries + 1 }))
        (λ _. recorded m p g now o (p.fetch (probe m p g now o))) (λ s h. h)
        λ _. kept-recorded m p g Stays now (λ s new h. h) o (p.fetch (probe m p g now o))

  Stays-probe_absent :
      (g : Fence) (now : ℕ) (closest : List (String × Vehicle))
      → ltb now (asked + interval) ≡ true
      → Keeps Stays (probe_absent m p g now interval closest)
  unfolding probe_absent
  Stays-probe_absent g now closest soon s h = elim (Bool-cases (g.id == f.id)) [
    | inl e ↦ let same : g.id ≡ f.id = (eq_iff g.id f.id).0 e in rw (same, h, soon, probe_absent) h
    | inr e ↦
        Keeps-if Stays (asked_lately now interval (lookup g.id s.nearest_at)) (pure tt)
          (modify note_asked >> for_each (probe_one m p g now) (absent_from closest)) (λ t k. k)
          (λ t k.
            Keeps-for_each Stays (probe_one m p g now) (absent_from closest)
              (All-of (λ o. Keeps Stays (probe_one m p g now o)) (Stays-probe_one g now)
                (absent_from closest))
              (note_asked t) (lookup-put-other g.id f.id now t.nearest_at e ∙ k))
          s h
  ]
    where
      note_asked : Run → Run
      note_asked s = record s { nearest_at = put g.id now s.nearest_at }

  Stays-passes :
      (xs : List Pass) (s : Run)
      → All (λ x. ltb x.at (asked + interval) ≡ true) xs
      → Stays s
      → Stays (passes m p xs s)
  unfolding passes
  Stays-passes [] s soon h = h
  Stays-passes (x ∷ xs) s (soon, rest) h =
      Stays-passes xs (record_nearest m p x.fence x.at x.inside s).1 rest (
        kept-record_nearest m p x.fence Stays x.at (λ s new h. h) x.inside
          (λ other e.
            let same : other ≡ interval = ground arith in
            rw same (Stays-probe_absent x.fence x.at _ soon))
          s h)

-- Where a pass over a fence has asked about absent operators, whatever came of it, no later pass
-- over that fence asks again before the interval is over, whatever passes over this and other
-- fences come between the two, each before the interval is over.
pub record_nearest-throttled :
    (m : Math) (p : Poller) (f : Fence) (now later interval : ℕ) (inside again : List Vehicle)
    (between : List Pass) (s : Run)
    → interval_of p.nearest_interval ≡ some interval
    → All (λ x. ltb x.at (now + interval) ≡ true) between
    → ltb later (now + interval) ≡ true
    → let t = (record_nearest m p f now inside s).1 in
      t.rep.nearest_queries ≢ s.rep.nearest_queries
      → let u = passes m p between t in
        (record_nearest m p f later again u).1.rep.nearest_queries ≡ u.rep.nearest_queries
record_nearest-throttled m p f now later interval inside again between s i early soon asked =
    let t = (record_nearest m p f now inside s).1 in
    let u = passes m p between t in
    elim (kept-record_nearest m p f (Spent m p f s.rep.nearest_queries now) now (λ s new h. h)
      inside
      (λ interval _.
        Spent-probe_absent m p f s.rep.nearest_queries now interval (closest_of m inside []))
      s (inl refl)) [
        | inl same ↦ absurd (asked same)
        | inr mark ↦
            (kept-record_nearest m p f (Quiet m p f u.rep.nearest_queries now) later (λ s new h. h)
              again
              (λ every e.
                Quiet-probe_absent m p f u.rep.nearest_queries now later every _ (ground arith))
              u (refl, Stays-passes m p f now interval i between t early mark)).0
      ]
