-- ===== src/Http/Window.antt =====
-- The windows of the history and the arrivals: internal/api/api.go with internal/store.
use scootless.Base.{
  ℕ, ◌-◌, ◌*◌, ◌≤◌, ◌<◌, ◌≡◌, refl, Bool, true, false, not, String, Option, none, some, Result, ok,
  err, ◌>>=◌, >>=-eq-ok, require, require-eq-ok, ok-subst, ◌==◌, string_eq, arith, ltb, length, All,
  All-map, All-keep_of, Bool-cases, inl, inr,
}
use scootless.Base.Order.{All-sort}
use scootless.Float.{Math}
use scootless.Store.Schema.{Db, unix, at_second}
use scootless.Store.Samples.{SamplePoint, samples}
use scootless.Store.Presence.{Arrival, arrivals}
use scootless.Http.{Request, Server, param, parsed, time_param, window}
use scootless.Http.Handlers.{
  Answer, code, sample_list, arrival_list, coded, history, arrivals_handler,
}

-- At or after one time and before another, in whole seconds.
abbrev IsBetween : ℕ → ℕ → ℕ → Type 0
IsBetween from to at = (at_second (unix from) ≤ at) × (at < at_second (unix to))

samples-IsBetween :
    (id : String) (from to : ℕ) (db : Db)
    → All (λ (p : SamplePoint). IsBetween from to p.at) (samples id from to db)
unfolding samples
samples-IsBetween id from to db =
    All-map _ (λ (p : SamplePoint). IsBetween from to p.at) _
      (All-sort _ _ _ (All-keep_of _ _ (λ r h. (ground arith, ground arith)) db.samples))

arrivals-IsBetween :
    (id : String) (from to : ℕ) (db : Db)
    → All (λ (a : Arrival). IsBetween from to a.at) (arrivals id from to db)
unfolding arrivals
arrivals-IsBetween id from to db =
    All-map _ (λ (a : Arrival). IsBetween from to a.at) _
      (All-sort _ _ _ (All-keep_of _ _ (λ r h. (ground arith, ground arith)) db.presence))

-- What history and arrivals answer with, and when.
abbrev IsWithin : Answer → Type 0
IsWithin (sample_list id from to points) =
    (from < to) × All (λ (p : SamplePoint). IsBetween from to p.at) points
IsWithin (arrival_list id from to count found) =
    (from < to) × All (λ (a : Arrival). IsBetween from to a.at) found
IsWithin (code n) = n ≡ 400
IsWithin _ = ⊥

-- A value, or a bad request.
abbrev Answerable {ℓ} : {A : Type ℓ} → Result ℕ A → Type 0
Answerable (ok a) = Unit
Answerable (err n) = n ≡ 400

Answerable->>= {ℓ κ} :
    {A : Type ℓ} {B : Type κ} (r : Result ℕ A) (f : A → Result ℕ B)
    → Answerable r
    → ((a : A) → Answerable (f a))
    → Answerable (r >>= f)
Answerable->>= (ok a) f h k = k a
Answerable->>= (err n) f h k = h

Answerable-require {ℓ} :
    {A : Type ℓ} (t : Bool) (r : Result ℕ A) → Answerable r → Answerable (require t 400 r)
Answerable-require true r h = h
Answerable-require false r h = refl

module _ (m : Math) (s : Server) where
  Answerable-time_param : (v : String) (default : ℕ) → Answerable (time_param m s v default)
  Answerable-time_param v default = elim (Bool-cases (v == "")) [
    | inl e ↦ rw e tt
    | inr e ↦ rw e (given (s.parse_time v))
  ]
    where
      given : (o : Option ℕ) → Answerable (parsed o)
      given none = refl
      given (some t) = tt

  Answerable-window : (now : ℕ) (r : Request) → Answerable (window m s now r)
  unfolding window
  Answerable-window now r = Answerable-require (not (param "fence" r == "")) _ (
      Answerable->>= (time_param m s (param "from" r) (now - 86400 * 1000000000)) _
        (Answerable-time_param (param "from" r) (now - 86400 * 1000000000))
        (λ from.
          Answerable->>= (time_param m s (param "to" r) now) _
            (Answerable-time_param (param "to" r) now)
            (λ to. Answerable-require (ltb from to) _ tt)))

  window-lt :
      (now : ℕ) (r : Request) (id : String) (from to : ℕ)
      → window m s now r ≡ ok (id, from, to)
      → from < to
  unfolding window
  window-lt now r id from to e =
      let (named, e1) = require-eq-ok (not (param "fence" r == "")) _ _ e in
      let (from', f1, e2) =
        >>=-eq-ok (time_param m s (param "from" r) (now - 86400 * 1000000000)) _ e1 in
      let (to', f2, e3) = >>=-eq-ok (time_param m s (param "to" r) now) _ e2 in
      let (order, e4) = require-eq-ok (ltb from' to') _ _ e3 in
      ok-subst (λ (id, from, to). from < to) (ground (arith, order)) e4

  -- The answers of history and arrivals are a 400, or a window that begins before it ends, with
  -- samples, or arrivals, that all lie in it, in whole seconds.
  history-IsWithin :
      (now : ℕ) (r : Request) (db : Db)
      → IsWithin (history m s now r db) × IsWithin (arrivals_handler m s now r db)
  unfolding history arrivals_handler
  history-IsWithin now r db = (
    listed (window m s now r) (Answerable-window now r) refl,
    found (window m s now r) (Answerable-window now r) refl,
  )
    where
      listed :
          (w : Result ℕ (String × ℕ × ℕ))
          → Answerable w
          → window m s now r ≡ w
          → IsWithin (coded (λ (id, from, to). sample_list id from to (samples id from to db)) w)
      listed (err n) h e = h
      listed (ok (id, from, to)) h e =
          (window-lt now r id from to e, samples-IsBetween id from to db)

      found :
          (w : Result ℕ (String × ℕ × ℕ))
          → Answerable w
          → window m s now r ≡ w
          → IsWithin (
              coded
                (λ (id, from, to).
                  arrival_list id from to
                    (length (arrivals id from to db))
                    (arrivals id from to db))
                w)
      found (err n) h e = h
      found (ok (id, from, to)) h e =
          (window-lt now r id from to e, arrivals-IsBetween id from to db)
