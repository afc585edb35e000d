-- ===== src/Store/Saved.antt =====
-- internal/store/store.go: what `SaveFence` leaves for `Fence` to find.
use scootless.Base.{
  ◌≡◌, refl, sym, ap, true, String, List, [], ◌∷◌, Option, none, some, ok, err, ◌==◌, string_eq,
  eq_iff, eq_refl, eq_symm, inl, inr, Bool-cases, arith,
}
use scootless.Base.Table.{find?, upsert}
use scootless.Store.Schema.{Db, Fence, no_rows}
use scootless.Store.Fences.{fence, save_fence}

abbrev saved : Fence → Fence → Fence
saved f g = record g { name = f.name; at = f.at; radius_m = f.radius_m }

saved_lem : (f g : Fence) → (f.id == g.id) ≡ true → saved f g ≡ f
saved_lem f g e = ap (λ id. record f { id = id }) (sym ((eq_iff f.id g.id).0 e))

find?-saved :
    (f : Fence) (rows : List Fence)
    → find? (λ g. g.id == f.id) (upsert (λ g. f.id == g.id) (saved f) f rows) ≡ some f
find?-saved f [] = rw (eq_refl f.id)
find?-saved f (g ∷ rows) = elim (Bool-cases (f.id == g.id)) [
  | inl e ↦ rw (e, eq_symm g.id f.id, e, saved_lem f g e)
  | inr e ↦ rw (e, eq_symm g.id f.id, e) (find?-saved f rows)
]

-- A fence that was saved is the one that its identifier finds.
pub fence-save_fence : (f : Fence) (db : Db) → fence f.id (save_fence f db) ≡ ok f
unfolding fence save_fence
fence-save_fence f db =
    ap (λ o. elim o [ none ↦ err no_rows | some g ↦ ok g ]) (find?-saved f db.fences)

-- What is found has the identifier that was asked for.
find?-hit :
    (id : String) (rows : List Fence) (f : Fence)
    → find? (λ g. g.id == id) rows ≡ some f
    → f.id ≡ id
find?-hit id [] f e = absurd (ground arith)
find?-hit id (g ∷ rows) f e = elim (Bool-cases (g.id == id)) [
  | inl hit ↦ let same : g ≡ f = ground arith in rw (sym same) ((eq_iff g.id id).0 hit)
  | inr miss ↦ find?-hit id rows f (rw miss at e)
]

found-id :
    (id : String) (o : Option Fence) (f : Fence) (rows : List Fence)
    → find? (λ g. g.id == id) rows ≡ o
    → elim o [ none ↦ err no_rows | some g ↦ ok g ] ≡ ok f
    → f.id ≡ id
found-id id none f rows e h = absurd (ground arith)
found-id id (some g) f rows e h =
    let same : g ≡ f = ground arith in rw (sym same) (find?-hit id rows g e)

pub fence-id : (id : String) (db : Db) (f : Fence) → fence id db ≡ ok f → f.id ≡ id
unfolding fence
fence-id id db f e = found-id id (find? (λ g. g.id == id) db.fences) f db.fences refl e
