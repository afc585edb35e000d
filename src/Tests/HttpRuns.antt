-- ===== src/Tests/HttpRuns.antt =====
-- internal/api: the gate, the windows and the sentence at concrete requests.
use scootless.Base.{
  ◌≡◌, ◌↔◌, ◌+◌, ◌-◌, ◌/◌, ◌^◌, arith, refl, true, false, String, List, [], ◌∷◌, none, some, err,
  string_eq, nat_eq, if◌then◌else◌,
}
use scootless.Base.Int.{ℤ, pos, negsuc, ltb_ℤ, pos_part, neg_part}
use scootless.Float.{Math}
use scootless.Tests.Data.{flat, flat-IsNumber, flat-IsLinear, watched, noon}
use scootless.Tests.DaemonRuns.{server, moment, removal}
use scootless.Entur.Operators.{bad_radius}
use scootless.Store.Nearest.{Nearest}
use scootless.Http.{Request}
use scootless.Http.Handlers.{code, vehicles}
use scootless.Http.Gate.{origin_allowed, handler}
use scootless.Http.Access.{preflight_code, from_browser, handler-refused, handler-origin}
use scootless.Http.Summary.{summarise}
use mathlib.Core.List.{Perm}
use scootless.Entur.Operators.{Operator, operators}
use scootless.Http.Spoken.{
  Standing, standings, IsSpoken, said, IsSmall, IsFaithful, summarise-IsSpoken,
}

abbrev show : ℤ → String
show n = "7"

abbrev guess : Request
guess = record removal { authorization = "Bearer guess" }

handler-refused_example : (handler flat show server moment guess watched).1 ≡ (
  (if from_browser guess then preflight_code (origin_allowed server "") else code 401),
  watched,
)
unfolding handler
handler-refused_example = handler-refused flat show server moment guess watched refl refl refl

abbrev preflight : Request
preflight = record removal {
  method = "OPTIONS";
  origin = "http://pad";
  preflight_method = "DELETE";
  authorization = "";
}

handler-origin_example :
    let (headers, outcome) = handler flat show server moment preflight watched in
    ((o : String)
      → (headers.allow_origin ≡ some o)
        ↔ (("http://pad" ≡ o) × (false ≡ false) × (origin_allowed server "http://pad" ≡ true)))
    × (headers.vary ≡ true)
    × (from_browser preflight ≡ true
        → outcome ≡ (preflight_code (origin_allowed server "http://pad"), watched))
handler-origin_example = handler-origin flat show server moment preflight watched

abbrev asked : Request
asked = record removal { method = "GET"; query = ("fence", "home") ∷ [] }

-- Whole numbers of either sign, each moved up by one so large that those of 53 bits are positive.
abbrev shifted : Math
shifted = record flat {
  sub = λ a b. record { bits = a.bits + 18014398509481984 - b.bits };
  decimal = λ digits places. record { bits = 18014398509481984 + digits / 10 ^ places };
  of_int = λ n. record { bits = 18014398509481984 + pos_part n - neg_part n };
  infinity = record { bits = 72057594037927936 };
}

shifted-IsFaithful : IsFaithful shifted
shifted-IsFaithful = record {
  whole_number = λ n. flat-IsNumber (shifted.of_int n);
  minus_number = λ n. flat-IsNumber (shifted.sub (shifted.decimal 0 0) (shifted.of_int n));
  infinity_number = flat-IsNumber shifted.infinity;
  whole_less = whole_less;
  minus_less = minus_less;
  below_infinity = below;
}
  where
    whole_less :
        (a b : ℤ)
        → IsSmall a
        → IsSmall b
        → ltb_ℤ a b ≡ true
        → shifted.less (shifted.of_int a) (shifted.of_int b) ≡ true
    whole_less (pos a) (pos b) h k e = ground arith
    whole_less (pos a) (negsuc b) h k e = ground arith
    whole_less (negsuc a) (pos b) h k e = ground arith
    whole_less (negsuc a) (negsuc b) h k e = ground arith

    minus_less :
        (a b : ℤ)
        → IsSmall a
        → IsSmall b
        → ltb_ℤ a b ≡ true
        → shifted.less
            (shifted.sub (shifted.decimal 0 0) (shifted.of_int b))
            (shifted.sub (shifted.decimal 0 0) (shifted.of_int a))
          ≡ true
    minus_less (pos a) (pos b) h k e = ground arith
    minus_less (pos a) (negsuc b) h k e = ground arith
    minus_less (negsuc a) (pos b) h k e = ground arith
    minus_less (negsuc a) (negsuc b) h k e = ground arith

    below : (a : ℤ) → IsSmall a → shifted.less (shifted.of_int a) shifted.infinity ≡ true
    below (pos a) h = ground arith
    below (negsuc a) h = ground arith

abbrev readings : List (String × Nearest)
readings =
    ("voi", record { operator = "voi"; at = noon; distance_m = some (pos 173); vehicle_id = "v" })
    ∷ ("bolt", record { operator = "bolt"; at = noon; distance_m = none; vehicle_id = "" })
    ∷ []

summarise-IsSpoken_example :
    let known = standings [] (("ryde", 2) ∷ []) readings operators in
    (ordered : List (Operator × Standing)) × Perm ordered known
    × IsSpoken ordered
    × (summarise shifted show [] (("ryde", 2) ∷ []) readings ("bolt" ∷ [])
        ≡ said show shifted ("bolt" ∷ []) known ordered)
unfolding standings
summarise-IsSpoken_example =
    summarise-IsSpoken shifted show [] (("ryde", 2) ∷ []) readings ("bolt" ∷ [])
      (record { asymm = flat-IsLinear.asymm; step = flat-IsLinear.step }) shifted-IsFaithful
      (refl, (refl, (tt, tt)))

summarise_test :
    summarise flat show [] (("ryde", 2) ∷ []) readings ("bolt" ∷ [])
    ≡ "7 Ryde available, 7 m to nearest Voi, Bolt feed is down - unknown"
unfolding summarise
summarise_test = refl

-- A radius of zero passes for a parameter; the client refuses it, and the answer blames the
-- upstream.
vehicles_test :
    vehicles flat server
      (λ q. err (bad_radius q.radius_m))
      (record asked { query = ("lat", "1") ∷ ("lon", "1") ∷ ("radius", "0") ∷ [] })
    ≡ code 502
unfolding vehicles
vehicles_test = refl
