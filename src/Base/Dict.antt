-- ===== src/Base/Dict.antt =====
-- Go maps whose keys are texts.
use mathlib.Core.Path.{◌≡◌, refl}
use mathlib.Core.List.{List, [], ◌∷◌}
use mathlib.Core.Option.{Option, none, some}
use Prim.Native.String.{String}
use native.Mathlib.Omega.{arith}
use scootless.Base.Tests.{◌==◌, string_eq, if◌then◌else◌}
use text.Mathlib.TextEquality.{eq_iff}

-- A Go map from texts, as an association list: `out[key] = value`.
unfoldable pub put {ℓ} : {A : Type ℓ} → String → A → List (String × A) → List (String × A)
put key value [] = (key, value) ∷ []
put key value ((k, v) ∷ out) = if k == key then (k, value) ∷ out else (k, v) ∷ put key value out

unfoldable pub get {ℓ} : {A : Type ℓ} → String → List (String × A) → Option A
get key [] = none
get key ((k, v) ∷ out) = if k == key then some v else get key out

module _ {ℓ} {A : Type ℓ} where
  pub get-put :
      (j k : String) (a : A) (m : List (String × A))
      → get j (put k a m) ≡ (if k == j then some a else get j m)
  unfolding get put
  get-put j k a [] = refl
  get-put j k a ((i, v) ∷ m) = ground (arith, eq_iff k j, eq_iff i k, eq_iff i j, get-put j k a m)
