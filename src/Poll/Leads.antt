-- ===== src/Poll/Leads.antt =====
-- internal/poll/poll.go: what the steps of a tick lead to where they succeed, and how they may fail.
use mathlib.Core.List.{Memᴰ}
use mathlib.Core.List.Memᴰ
use scootless.Base.{◌≡◌, sym, Bool, true, false, if◌then◌else◌, List, [], ◌∷◌, Result, ok, err, All}
use scootless.Store.Schema.{Db, StoreError}
use scootless.Poll.Walk.{IsClosed}
use scootless.Poll.Run.{Run, TickError, M, resume, ◌>>=◌, write, for_each}

module _ (E : TickError → Type 0) where
  -- The value was returned in a state where `Q` holds, or the error is one of `E`.
  abbrev pub Ends : {A : Type 0} → (Run → Type 0) → Result TickError A × Run → Type 0
  Ends Q (ok a, s) = Q s
  Ends Q (err e, s) = E e

  abbrev pub Leads : {A : Type 0} → (Run → Type 0) → (Run → Type 0) → M A → Type 0
  Leads P Q act = (s : Run) → P s → Ends Q (act s)

  Leads-resume :
      {A B : Type 0} (Q R : Run → Type 0) (next : A → M B) (r : Result TickError A × Run)
      → ((a : A) → Leads Q R (next a))
      → Ends Q r
      → Ends R (resume next r)
  Leads-resume Q R next (ok a, s) l h = l a s h
  Leads-resume Q R next (err e, s) l h = h

  pub Leads-bind :
      {A B : Type 0} (P Q R : Run → Type 0) (act : M A) (next : A → M B)
      → Leads P Q act
      → ((a : A) → Leads Q R (next a))
      → Leads P R (act >>= next)
  Leads-bind P Q R act next k l s h = Leads-resume Q R next (act s) l (k s h)

  pub Leads-for_each {ℓ} :
      {A : Type ℓ} (P : Run → Type 0) (body : A → M (Unit {0})) (xs : List A)
      → All (λ a. Leads P P (body a)) xs
      → Leads P P (for_each body xs)
  unfolding for_each
  Leads-for_each P body [] k = λ s h. h
  Leads-for_each P body (a ∷ xs) k =
      Leads-bind P P P (body a) (λ _. for_each body xs) k.0 λ _. Leads-for_each P body xs k.1

  -- One of the rounds leads from `P` to `Q`, and the others keep either.
  pub Leads-for_each_some {ℓ} :
      {A : Type ℓ} (P Q : Run → Type 0) (body : A → M (Unit {0})) (x : A) (xs : List A)
      → Memᴰ x xs
      → All (λ a. Leads P P (body a)) xs
      → All (λ a. Leads Q Q (body a)) xs
      → Leads P Q (body x)
      → Leads P Q (for_each body xs)
  unfolding for_each
  Leads-for_each_some P Q body x [] m k l h = absurd (Memᴰ.not-nil m)
  Leads-for_each_some P Q body x (a ∷ xs) (Memᴰ.head e) k l h =
      Leads-bind P Q Q (body a) (λ _. for_each body xs) (rw (sym e) h)
        λ _. Leads-for_each Q body xs l.1
  Leads-for_each_some P Q body x (a ∷ xs) (Memᴰ.tail m) k l h =
      Leads-bind P P Q (body a) (λ _. for_each body xs) k.0
        λ _. Leads-for_each_some P Q body x xs m k.1 l.1 h

  -- A statement that cannot fail where `P` holds.
  pub Leads-write :
      (P Q : Run → Type 0) (statement : Db → Result StoreError Db)
      → ((s : Run) → P s → (new : Db) × (statement s.db ≡ ok new) × Q (record s { db = new }))
      → Leads P Q (write statement)
  Leads-write P Q statement k s h = let (new, e, after) = k s h in rw e after

  pub Leads-if :
      {A : Type 0} (P Q : Run → Type 0) (b : Bool) (act other : M A)
      → Leads P Q act
      → Leads P Q other
      → Leads P Q (if b then act else other)
  Leads-if P Q true act other k l = k
  Leads-if P Q false act other k l = l

  pub Leads-IsClosed : (P : Run → Type 0) → IsClosed (λ act. Leads P P act)
  Leads-IsClosed P = record {
    done = λ s h. h;
    bind = λ act next k l. Leads-bind P P P act (λ _. next) k λ _. l;
    given = λ step k s h. k s s h;
  }
