-- ===== src/Poll/Aims.antt =====
-- internal/poll/poll.go: what is asked of a tick for one watch, and that firing a watch keeps it.
use mathlib.Core.List.{Memᴰ}
use scootless.Base.{
  Option, All, ◌≢◌, ℕ, ◌≡◌, refl, ◌∙◌, true, false, String, List, [], ◌∷◌, ◌++◌, any, contains,
  ◌==◌, string_eq, eq_iff, eq_refl, arith, Bool-cases, inl, inr, ◌⊎◌,
}
use scootless.Base.Table.{update_where, All-update_where, Memᴰ-update_where}
use scootless.Float.{Float64}
use scootless.Entur.Vehicles.{Vehicle}
use scootless.Store.Schema.{WatchRow, unknown_kind}
use scootless.Store.Watches.{can_fire, fire_row, has_id}

-- The charge of a vehicle is one that JSON can write.
abbrev pub IsWritable : (Option Float64 → Type 0) → Vehicle → Type 0
IsWritable Finite v = Finite v.fuel_pct

-- What is asked of a tick for one watch: nothing, that it can still fire or was reported, that it was
-- reported, or that its row still stands or it was reported, while every watch is of a known kind.
pub data Aim : Type 0 where
  free : Aim
  awaited reported : String → Aim
  standing : WatchRow → Aim

abbrev pub HasKind : WatchRow → Type 0
HasKind r = (k : String) → r.kind ≢ unknown_kind k

abbrev pub Met : Aim → List WatchRow → List String → Type 0
Met free rows fired = Unit
Met (awaited id) rows fired = (any (can_fire id) rows ≡ true) ⊎ (contains fired id ≡ true)
Met (reported id) rows fired = contains fired id ≡ true
Met (standing r) rows fired = All HasKind rows × (Memᴰ r rows ⊎ (contains fired r.id ≡ true))

pub contains-snoc : (ids : List String) (id : String) → contains (ids ++ id ∷ []) id ≡ true
contains-snoc [] id = ground (arith, eq_refl id)
contains-snoc (x ∷ ids) id = ground (arith, contains-snoc ids id)

contains-append :
    (ids : List String) (x id : String)
    → contains ids id ≡ true
    → contains (ids ++ x ∷ []) id ≡ true
contains-append [] x id h = cc
contains-append (y ∷ ids) x id h = ground (arith, contains-append ids x id)

-- Firing one watch does not touch another.
can_fire-other :
    (id other : String) (now : ℕ) (rows : List WatchRow)
    → (id == other) ≡ false
    → any (can_fire other) (update_where (can_fire id) (fire_row now) rows)
      ≡ any (can_fire other) rows
can_fire-other id other now [] h = refl
can_fire-other id other now (r ∷ rows) h =
    ground (
      arith,
      can_fire-other id other now rows h,
      eq_iff r.id id,
      eq_iff r.id other,
      eq_iff id other,
    )

kinds-fired :
    (id : String) (now : ℕ) (rows : List WatchRow)
    → All HasKind rows
    → All HasKind (update_where (can_fire id) (fire_row now) rows)
kinds-fired id now rows =
    All-update_where HasKind (can_fire id) (fire_row now) (λ r known. known) rows

standing-fired :
    (r : WatchRow) (id : String) (now : ℕ) (rows : List WatchRow) (fired : List String)
    → Memᴰ r rows ⊎ (contains fired r.id ≡ true)
    → Memᴰ r (update_where (can_fire id) (fire_row now) rows)
      ⊎ (contains (fired ++ id ∷ []) r.id ≡ true)
standing-fired r id now rows fired (inr h) = inr (contains-append fired id r.id h)
standing-fired r id now rows fired (inl there) = elim (Bool-cases (r.id == id)) [
  | inl e ↦ inr (rw ((eq_iff r.id id).0 e) (contains-snoc fired id))
  | inr e ↦ inl (Memᴰ-update_where (can_fire id) (fire_row now) r rows (ground arith) there)
]

pub Met-fired :
    (aim : Aim) (id : String) (now : ℕ) (rows : List WatchRow) (fired : List String)
    → Met aim rows fired
    → Met aim (update_where (can_fire id) (fire_row now) rows) (fired ++ id ∷ [])
Met-fired free id now rows fired h = tt
Met-fired (awaited other) id now rows fired (inr h) = inr (contains-append fired id other h)
Met-fired (awaited other) id now rows fired (inl h) = elim (Bool-cases (id == other)) [
  | inl e ↦ inr (rw ((eq_iff id other).0 e) (contains-snoc fired other))
  | inr e ↦ inl (can_fire-other id other now rows e ∙ h)
]
Met-fired (reported other) id now rows fired h = contains-append fired id other h
Met-fired (standing r) id now rows fired (kinds, h) =
    (kinds-fired id now rows kinds, standing-fired r id now rows fired h)

-- A watch that could fire is still there after it fired, so that its event can refer to it.
pub has_watch-fired :
    (id : String) (now : ℕ) (rows : List WatchRow)
    → any (can_fire id) rows ≡ true
    → any (has_id id) (update_where (can_fire id) (fire_row now) rows) ≡ true
has_watch-fired id now [] h = h
has_watch-fired id now (r ∷ rows) h = ground (arith, has_watch-fired id now rows)
