-- ===== src/Poll/Keeps.antt =====
-- internal/poll/poll.go: what the steps of a tick keep, put together the way the steps are.
use scootless.Base.{Bool, true, false, if◌then◌else◌, ◌≡◌, refl, List, [], Result, ok, err, All}
use scootless.Store.Schema.{Db, StoreError}
use scootless.Poll.Walk.{IsClosed}
use scootless.Poll.Run.{Run, TickError, M, resume, ◌>>=◌, write, wrote, for_each}

module _ {ℓ} (P : Run → Type ℓ) where
  -- Whatever the step's outcome, it leads from `P` to `P`.
  abbrev pub Keeps : {A : Type 0} → M A → Type ℓ
  Keeps act = (s : Run) → P s → P (act s).1

  keeps-resume :
      {A B : Type 0} (next : A → M B) (r : Result TickError A × Run)
      → ((a : A) → Keeps (next a))
      → P r.1
      → P (resume next r).1
  keeps-resume next (ok a, s) k h = k a s h
  keeps-resume next (err e, s) k h = h

  pub Keeps-bind :
      {A B : Type 0} (act : M A) (next : A → M B)
      → Keeps act
      → ((a : A) → Keeps (next a))
      → Keeps (act >>= next)
  Keeps-bind act next k l s h = keeps-resume next (act s) l (k s h)

  pub Keeps-for_each {κ} :
      {A : Type κ} (body : A → M (Unit {0})) (xs : List A)
      → All (λ a. Keeps (body a)) xs
      → Keeps (for_each body xs)
  unfolding for_each
  Keeps-for_each body [] k = λ s h. h
  Keeps-for_each body (List.◌∷◌ a xs) k =
      Keeps-bind (body a) (λ _. for_each body xs) k.0 λ _. Keeps-for_each body xs k.1

  -- Each outcome of a statement leads from `P` to `P`: one that failed wrote nothing.
  pub Keeps-write :
      (statement : Db → Result StoreError Db)
      → ((s : Run) (new : Db) → P s → statement s.db ≡ ok new → P (record s { db = new }))
      → Keeps (write statement)
  Keeps-write statement k s h = written (statement s.db) refl
    where
      written : (r : Result StoreError Db) → statement s.db ≡ r → P (wrote r s).1
      written (ok new) e = k s new h e
      written (err why) e = h

  pub Keeps-if :
      {A : Type 0} (b : Bool) (act other : M A)
      → Keeps act
      → Keeps other
      → Keeps (if b then act else other)
  Keeps-if true act other k l = k
  Keeps-if false act other k l = l

pub Keeps-IsClosed : (P : Run → Type 0) → IsClosed (λ act. Keeps P act)
Keeps-IsClosed P = record {
  done = λ s h. h;
  bind = λ act next k l. Keeps-bind P act (λ _. next) k λ _. l;
  given = λ step k s h. k s s h;
}
