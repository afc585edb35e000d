-- ===== src/Poll/Walk.antt =====
-- internal/poll/poll.go: the steps of `recordFence`, `recordNearest` and the loop over the fences, for
-- any property of steps that sequences keep.
use scootless.Base.{
  ℕ, ◌≡◌, refl, Bool, true, false, String, List, [], ◌∷◌, Option, none, some, Result, ok, err, ◌+◌,
  if◌then◌else◌, string_eq, ◌++◌,
}
use scootless.Base.Int.{pos}
use scootless.Float.{Math}
use scootless.Entur.Operators.{EnturError, Operator}
use scootless.Entur.Vehicles.{Vehicle, Fetched}
use scootless.Store.Schema.{Fence, Watch}
use scootless.Store.Samples.{record_sample}
use scootless.Base.Dict.{put, get as lookup}
use scootless.Store.Nearest.{Nearest, record_nearest as store_nearest, dark_operators}
use scootless.Store.Presence.{observe_presence}
use scootless.Poll.Select.{within}
use scootless.Poll.Run.{Run, Poller, M, ◌>>◌, pure, modify, modify_rep, write, for_each}
use scootless.Poll.Record.{
  record_fence, record_nearest, probe_one, probe_absent, counts_of, closest_of, interval_of,
  observed, closest_reading, absent_from, sightings_of, probe, probe_reading, recorded,
  asked_lately,
}
use scootless.Poll.Tick.{fence_step, watch_step}

-- A property of steps that holds of a sequence where it holds of its steps, also where a step
-- depends on the state.
pub record IsClosed (T : M (Unit {0}) → Type 0) : Type 0 where
  pub done : T (pure tt)
  pub bind : (act next : M (Unit {0})) → T act → T next → T (act >> next)
  pub given : (step : Run → M (Unit {0})) → ((s : Run) → T (step s)) → T (λ s. step s s)

module _ (T : M (Unit {0}) → Type 0) (closed : IsClosed T) where
  pub walk-for_each {ℓ} :
      {A : Type ℓ} (body : A → M (Unit {0})) (xs : List A)
      → ((x : A) → T (body x))
      → T (for_each body xs)
  unfolding for_each
  walk-for_each body [] each = closed.done
  walk-for_each body (x ∷ xs) each =
      closed.bind (body x) (for_each body xs) (each x) (walk-for_each body xs each)

  walk-if : (b : Bool) (act other : M (Unit {0})) → T act → T other → T (if b then act else other)
  walk-if true act other h k = h
  walk-if false act other h k = k

  module _ (p : Poller) (f : Fence) (now : ℕ) (inside : List Vehicle) where
    pub walk-record_fence :
        ((op : String) (n : ℕ) → T (write (record_sample f.id now op n)))
        → T (λ s. observed (observe_presence f.id now (sightings_of inside) p.stale s.db) s)
        → T (record_fence p f now inside)
    unfolding record_fence
    walk-record_fence sampled seen =
        closed.bind (for_each (λ (op, n). write (record_sample f.id now op n)) (counts_of inside)) _
          (walk-for_each _ (counts_of inside) (λ (op, n). sampled op n)) seen

    module _ (m : Math) (stored : (n : Nearest) → T (write (store_nearest f.id now n)))
        (asked : T (modify (λ s. record s { nearest_at = put f.id now s.nearest_at })))
        (counted : T (modify_rep (λ r. record r { nearest_queries = r.nearest_queries + 1 }))) where
      walk-recorded : (o : Operator) (r : Result EnturError Fetched) → T (recorded m p f now o r)
      walk-recorded o (err e) = closed.done
      walk-recorded o (ok res) = stored (probe_reading m p f now o res.vehicles)

      walk-probe_one : (o : Operator) → T (probe_one m p f now o)
      unfolding probe_one
      walk-probe_one o =
          closed.bind _ (recorded m p f now o (p.fetch (probe m p f now o))) counted
            (walk-recorded o (p.fetch (probe m p f now o)))

      walk-probe_absent :
          (interval : ℕ) (closest : List (String × Vehicle))
          → T (probe_absent m p f now interval closest)
      unfolding probe_absent
      walk-probe_absent interval closest = closed.given _ λ s.
          walk-if (asked_lately now interval (lookup f.id s.nearest_at)) _ _ closed.done (
            closed.bind _ _ asked
              (walk-for_each (probe_one m p f now) (absent_from closest) walk-probe_one))

      pub walk-record_nearest : T (record_nearest m p f now inside)
      unfolding record_nearest
      walk-record_nearest = on (interval_of p.nearest_interval) refl
        where
          found : List (String × Vehicle)
          found = closest_of m inside []

          on :
              (i : Option ℕ)
              → interval_of p.nearest_interval ≡ i
              → T (record_nearest m p f now inside)
          on none e = rw (e, record_nearest) closed.done
          on (some interval) e =
              rw (e, record_nearest)
                (closed.bind _ (probe_absent m p f now interval found)
                  (walk-for_each _ found (λ c. stored (closest_reading m p f now c)))
                  (walk-probe_absent interval found))

  module _ (m : Math) (p : Poller) (now : ℕ) where
    pub walk-fence_step :
        (watches : List Watch) (vehicles : List Vehicle) (f : Fence)
        → T (record_fence p f now (within m vehicles f))
        → T (record_nearest m p f now (within m vehicles f))
        → ((dark : List String) → T (modify_rep (λ r. record r { dark = r.dark ++ dark })))
        → ((dark : List String)
            → T (for_each (watch_step m p now f (within m vehicles f) dark) watches))
        → T (fence_step m p now watches vehicles f)
    unfolding fence_step
    walk-fence_step watches vehicles f recorded nearest noted each = closed.bind _ _ recorded (
        closed.bind _ _ nearest (
          closed.given _ λ s.
            closed.bind _ _ (noted (dark_operators f.id now (pos 0) s.db))
              (each (dark_operators f.id now (pos 0) s.db))))
