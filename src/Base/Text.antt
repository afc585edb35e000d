-- ===== src/Base/Text.antt =====
-- Go's package strings and `strconv.Atoi`, on texts as lists of characters.
use Prim.Native.Char.{Char, code}
use Prim.Native.Nat.{ℕ, ◌+◌, ◌-◌, ◌*◌}
use Prim.Native.String.{String}
use mathlib.Core.Path.{◌≡◌, refl}
use mathlib.Core.Bool.{Bool, true, false, ◌&&◌, ◌||◌}
use mathlib.Core.List.{List, [], ◌∷◌}
use mathlib.Core.Option.{Option, none, some}
use scootless.Base.Tests.{ltb, leb, ◌==◌, nat_eq, string_eq, if◌then◌else◌}
use scootless.Base.Int.{ℤ, pos, negsuc}

-- `unicode.IsSpace`
is_space : Char → Bool
is_space c =
    let n = code c in
    leb 9 n && leb n 13
    || n == 32
    || n == 133
    || n == 160
    || n == 5760
    || leb 8192 n && leb n 8202
    || n == 8232
    || n == 8233
    || n == 8239
    || n == 8287
    || n == 12288

trim_left : (Char → Bool) → String → String
trim_left p String.[] = String.[]
trim_left p (String.◌∷◌ c s) = if p c then trim_left p s else String.◌∷◌ c s

unfoldable pub trim_right : (Char → Bool) → String → String
trim_right p String.[] = String.[]
trim_right p (String.◌∷◌ c s) =
    let rest = trim_right p s in if p c && rest == "" then String.[] else String.◌∷◌ c rest

-- `strings.Trim`, the characters to cut off given as a test.
unfoldable pub trim : (Char → Bool) → String → String
unfolding trim_left trim_right
trim p s = trim_left p (trim_right p s)

-- `strings.TrimSpace`
unfoldable pub trim_space : String → String
unfolding trim is_space
trim_space s = trim is_space s

-- What follows a prefix, where the text has it.
pub after_prefix : String → String → Option String
after_prefix String.[] s = some s
after_prefix (String.◌∷◌ c p) String.[] = none
after_prefix (String.◌∷◌ c p) (String.◌∷◌ d s) = if code c == code d then after_prefix p s else none

abbrev pub or_else {ℓ} : {A : Type ℓ} → A → Option A → A
or_else a none = a
or_else a (some b) = b

abbrev pub is_some {ℓ} : {A : Type ℓ} → Option A → Bool
is_some none = false
is_some (some a) = true

-- `strings.HasPrefix` and `strings.TrimPrefix`
unfoldable pub has_prefix : String → String → Bool
unfolding after_prefix
has_prefix s p = is_some (after_prefix p s)

unfoldable pub trim_prefix : String → String → String
unfolding after_prefix
trim_prefix s p = or_else s (after_prefix p s)

-- `strings.TrimSuffix`
unfoldable pub trim_suffix : String → String → String
trim_suffix String.[] suffix = String.[]
trim_suffix (String.◌∷◌ c s) suffix =
    let rest = trim_suffix s suffix in
    if String.◌∷◌ c s == suffix then String.[] else String.◌∷◌ c rest

-- `strings.Cut` at a character; `none` where it does not occur.
unfoldable pub cut : ℕ → String → Option (String × String)
cut sep String.[] = none
cut sep (String.◌∷◌ c s) = if code c == sep then some (String.[], s) else before (cut sep s)
  where
    before : Option (String × String) → Option (String × String)
    before none = none
    before (some (k, v)) = some (String.◌∷◌ c k, v)

-- `strings.Split` at a character.
unfoldable pub split : ℕ → String → List String
split sep String.[] = String.[] ∷ []
split sep (String.◌∷◌ c s) = if code c == sep then String.[] ∷ split sep s else first (split sep s)
  where
    first : List String → List String
    first [] = String.◌∷◌ c String.[] ∷ []
    first (x ∷ xs) = String.◌∷◌ c x ∷ xs

digits : ℕ → String → Option ℕ
digits n String.[] = some n
digits n (String.◌∷◌ c s) =
    if leb b'0' (code c) && leb (code c) b'9' then digits (n * 10 + (code c - b'0')) s else none

abbrev magnitude : String → Option ℕ
unfolding digits
magnitude String.[] = none
magnitude (String.◌∷◌ c s) = digits 0 (String.◌∷◌ c s)

abbrev positive : Option ℕ → Option ℤ
positive none = none
positive (some n) = if ltb n 9223372036854775808 then some (pos n) else none

abbrev minus : ℕ → ℤ
minus n = if n == 0 then pos 0 else negsuc (n - 1)

abbrev negative : Option ℕ → Option ℤ
negative none = none
negative (some n) = if leb n 9223372036854775808 then some (minus n) else none

-- `strconv.Atoi`
unfoldable pub atoi : String → Option ℤ
unfolding digits
atoi String.[] = none
atoi (String.◌∷◌ c s) =
    if code c == b'-'
    then negative (magnitude s)
    else if code c == b'+'
    then positive (magnitude s)
    else positive (magnitude (String.◌∷◌ c s))

atoi_examples : (atoi "-42" ≡ some (negsuc 41)) × (atoi "+7" ≡ some (pos 7)) × (atoi "4x" ≡ none)
unfolding atoi
atoi_examples = (refl, refl, refl)

split_example : split b',' "a,,b " ≡ "a" ∷ "" ∷ "b " ∷ []
unfolding split
split_example = refl

trim_space_example : trim_space "  a b\t" ≡ "a b"
unfolding trim_space
trim_space_example = refl

cut_example : cut b'=' "K=v=w" ≡ some ("K", "v=w")
unfolding cut
cut_example = refl

trim_suffix_example : trim_suffix "http://x//" "/" ≡ "http://x/"
unfolding trim_suffix
trim_suffix_example = refl
