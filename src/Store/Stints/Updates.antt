-- ===== src/Store/Stints/Updates.antt =====
-- internal/store/presence.go: rows of a stint, and what an update or an upsert keeps of them.
use scootless.Base.{
  ℕ, ◌≡◌, Bool, true, false, ◌&&◌, String, List, [], ◌∷◌, map, Option, none, some, ◌==◌, string_eq,
  nat_eq, any, keep, arith, Bool-cases, Option-cases, inl, inr, ◌∙◌, sym, any_intro, any-keep,
  any-map, max,
}
use scootless.Base.Table.{update_where, upsert}
use scootless.Store.Schema.{PresenceRow}
use scootless.Store.Samples.{maximum}
use scootless.Store.Presence.{is_open, open_stint, is_stint}

abbrev pub Rows : Type 0
Rows = List PresenceRow

abbrev pub is_some : Option ℕ → Bool
is_some none = false
is_some (some n) = true

-- The row belongs to a stint of the vehicle that counts as still open at the cut-off.
abbrev pub is_present : String → ℕ → String → PresenceRow → Bool
is_present fence_id cutoff id r = is_open fence_id cutoff r && r.vehicle_id == id

pub maximum-in : (k : ℕ) (ns : List ℕ) → maximum ns ≡ some k → any (λ n. n == k) ns ≡ true
unfolding maximum
maximum-in k [] e = ground arith
maximum-in k (n ∷ ns) e = elim (Option-cases (maximum ns)) [
  | inl f ↦ ground arith
  | inr (j, f) ↦ ground (arith, maximum-in j ns f)
]

pub update-keeps :
    (p hit : PresenceRow → Bool) (change : PresenceRow → PresenceRow) (rows : Rows)
    → ((r : PresenceRow) → p r ≡ true → p (change r) ≡ true)
    → any p rows ≡ true
    → any p (update_where hit change rows) ≡ true
update-keeps p hit change [] keeps a = a
update-keeps p hit change (r ∷ rows) keeps a =
    ground (arith, keeps r, update-keeps p hit change rows keeps)

pub update-reaches :
    (p hit : PresenceRow → Bool) (change : PresenceRow → PresenceRow) (rows : Rows)
    → ((r : PresenceRow) → hit r ≡ true → p (change r) ≡ true)
    → any hit rows ≡ true
    → any p (update_where hit change rows) ≡ true
update-reaches p hit change [] keeps a = a
update-reaches p hit change (r ∷ rows) keeps a =
    ground (arith, keeps r, update-reaches p hit change rows keeps)

pub upsert-keeps :
    (p hit : PresenceRow → Bool) (change : PresenceRow → PresenceRow) (fresh : PresenceRow)
    (rows : Rows)
    → ((r : PresenceRow) → p r ≡ true → p (change r) ≡ true)
    → any p rows ≡ true
    → any p (upsert hit change fresh rows) ≡ true
upsert-keeps p hit change fresh [] keeps a = ground arith
upsert-keeps p hit change fresh (r ∷ rows) keeps a =
    ground (arith, keeps r, upsert-keeps p hit change fresh rows keeps)

pub upsert-reaches :
    (p hit : PresenceRow → Bool) (change : PresenceRow → PresenceRow) (fresh : PresenceRow)
    (rows : Rows)
    → ((r : PresenceRow) → hit r ≡ true → p (change r) ≡ true)
    → p fresh ≡ true
    → any p (upsert hit change fresh rows) ≡ true
upsert-reaches p hit change fresh [] keeps a = ground arith
upsert-reaches p hit change fresh (r ∷ rows) keeps a =
    ground (arith, keeps r, upsert-reaches p hit change fresh rows keeps)

-- A row of the open stint that `open_stint` names.
pub row_of_stint :
    (fence_id : String) (cutoff : ℕ) (rows : Rows) (id : String) (first : ℕ)
    → open_stint fence_id cutoff rows id ≡ some first
    → any (is_stint fence_id id first) rows ≡ true
unfolding open_stint
row_of_stint fence_id cutoff rows id first e =
    any_intro (λ r. is_present fence_id cutoff id r && r.first_seen == first)
      (is_stint fence_id id first) (λ r h. ground arith) rows
      (sym (any-keep (λ r. r.first_seen == first) (is_present fence_id cutoff id) rows)
        ∙ sym (any-map (λ (r : PresenceRow). r.first_seen) (λ n. n == first) _)
        ∙ maximum-in first _ e)

pub maximum-some : (n : ℕ) (ns : List ℕ) → (k : ℕ) × (maximum (n ∷ ns) ≡ some k)
unfolding maximum
maximum-some n ns = elim (Option-cases (maximum ns)) [
  | inl f ↦ (n, ground arith)
  | inr (j, f) ↦ (max n j, ground arith)
]

-- A vehicle with a row that counts as open has an open stint.
pub open_stint-some :
    (fence_id : String) (cutoff : ℕ) (rows : Rows) (id : String)
    → any (is_present fence_id cutoff id) rows ≡ true
    → (first : ℕ) × (open_stint fence_id cutoff rows id ≡ some first)
unfolding open_stint
open_stint-some fence_id cutoff [] id h = absurd (ground arith)
open_stint-some fence_id cutoff (r ∷ rows) id h =
    elim (Bool-cases (is_present fence_id cutoff id r)) [
      | inl hit ↦
          rw (hit, open_stint)
            (maximum-some r.first_seen
              (map (λ (x : PresenceRow). x.first_seen) (keep (is_present fence_id cutoff id) rows)))
      | inr miss ↦ rw (miss, open_stint) (open_stint-some fence_id cutoff rows id (ground arith))
    ]
