-- ===== src/Config/Settings.antt =====
-- What the settings that load promises: internal/config/config.go.
use scootless.Base.{
  true, false, not, ◌||◌, String, List, [], ◌∷◌, Option, none, some, ok, ◌>>=◌, >>=-eq-ok,
  require-eq-ok, ok-subst, ◌==◌, string_eq, bool_eq, bool_beq_iff, ◌≡◌, refl, sym, ap, ◌∙◌, arith,
  if◌then◌else◌,
}
use mathlib.Core.Path.{fun_ext}
use scootless.Base.Int.{ℤ, pos, ltb_ℤ, leb_ℤ, ◌≤ℤ◌}
use scootless.Base.Dict.{get, get-put}
use scootless.Base.Text.{trim_space}
use scootless.Float.{Float64, Math}
use scootless.Config.{
  Parsers, Config, Lookup, Values, min_interval, default_config, non_empty, int_val, interval_of,
  long_enough, outside, home_at, home_of, numbers, texts, checked, apply, put_setting, EnvFile,
  read_env_file, environ_setting, overlay, load,
}

-- The settings that the daemon may start from.
pub record IsValid (m : Math) (p : Parsers) (c : Config) : Type 0 where
  pub radius : ltb_ℤ (pos 0) c.radius_m ≡ true
  pub priority : (pos 0 ≤ℤ c.ntfy_priority) × (c.ntfy_priority ≤ℤ pos 5)
  pub ntfy : (c.ntfy_server == "") ≡ (c.ntfy_topic == "")
  pub interval : min_interval ≤ℤ c.interval
  pub home : c.has_home ≡ true → outside p m c.home.lat c.home.lon ≡ false

module _ (m : Math) (p : Parsers) where
  -- What the first steps leave for the last to keep.
  record IsPlaced (c : Config) : Type 0 where
    interval : min_interval ≤ℤ c.interval
    home : c.has_home ≡ true → outside p m c.home.lat c.home.lon ≡ false

  home_of-IsPlaced :
      (lat lon : Option String) (c d : Config)
      → IsPlaced c
      → home_of p m lat lon c ≡ ok d
      → IsPlaced d
  home_of-IsPlaced (some lat) (some lon) c d h e =
      at_place (p.parse_float (trim_space lat)) (p.parse_float (trim_space lon)) e
    where
      at_place : (la lo : Option Float64) → home_at p m la lo c ≡ ok d → IsPlaced d
      at_place none lo e = cc
      at_place (some la) none e = cc
      at_place (some la) (some lo) e =
          let (inside, f) = require-eq-ok (not (outside p m la lo)) _ _ e in
          ok-subst (λ d. IsPlaced d)
            (record { interval = h.interval; home = λ has. ground (arith, inside) }) f
  home_of-IsPlaced none none c d h e = ok-subst (λ d. IsPlaced d) h e
  home_of-IsPlaced (some lat) none c d h e = cc
  home_of-IsPlaced none (some lon) c d h e = cc

  numbers-IsPlaced : (v : Lookup) (c d : Config) → IsPlaced c → numbers p m v c ≡ ok d → IsPlaced d
  numbers-IsPlaced v c d h e =
      let (radius_m, e1, f1) = >>=-eq-ok (int_val v "SCOOTLESS_RADIUS" c.radius_m) _ e in
      let (threshold, e2, f2) = >>=-eq-ok (int_val v "SCOOTLESS_THRESHOLD" c.threshold) _ f1 in
      let (priority, e3, f3) =
        >>=-eq-ok (int_val v "SCOOTLESS_NTFY_PRIORITY" c.ntfy_priority) _ f2 in
      ok-subst (λ d. IsPlaced d) (record { interval = h.interval; home = h.home }) f3

  interval_of-least :
      (old : ℤ) (s : Option String) (d : ℤ)
      → min_interval ≤ℤ old
      → interval_of p old s ≡ ok d
      → min_interval ≤ℤ d
  interval_of-least old none d h e = ok-subst (λ d. min_interval ≤ℤ d) h e
  interval_of-least old (some s) d h e = parsed (p.parse_duration s) e
    where
      parsed : (r : Option ℤ) → long_enough p r ≡ ok d → min_interval ≤ℤ d
      parsed none e = cc
      parsed (some i) e =
          let (long, f) = require-eq-ok (not (ltb_ℤ i min_interval)) _ _ e in
          ok-subst (λ d. min_interval ≤ℤ d) (ground (arith, long)) f

  checked-IsValid : (c d : Config) → IsPlaced c → checked p m c ≡ ok d → IsValid m p d
  unfolding checked
  checked-IsValid c d h e =
      let (radius, e1) = require-eq-ok (not (leb_ℤ c.radius_m (pos 0))) _ _ e in
      let (ntfy, e2) = require-eq-ok ((c.ntfy_server == "") == (c.ntfy_topic == "")) _ _ e1 in
      let (priority, e3) =
        require-eq-ok (not (ltb_ℤ c.ntfy_priority (pos 0) || ltb_ℤ (pos 5) c.ntfy_priority)) _ _
          e2 in
      ok-subst (λ d. IsValid m p d)
        (record {
          radius = ground (arith, radius);
          priority = (ground (arith, priority), ground (arith, priority));
          ntfy = (bool_beq_iff (c.ntfy_server == "") (c.ntfy_topic == "")).0 ntfy;
          interval = h.interval;
          home = h.home;
        })
        e3

  texts-IsPlaced : (v : Lookup) (c : Config) → IsPlaced c → IsPlaced (texts p m v c)
  texts-IsPlaced v c h = record { interval = h.interval; home = h.home }

  apply-IsValid : (v : Lookup) (c d : Config) → IsPlaced c → apply p m v c ≡ ok d → IsValid m p d
  unfolding apply
  apply-IsValid v c d h e =
      let (c1, e1, f1) = >>=-eq-ok (home_of p m (v "SCOOTLESS_LAT") (v "SCOOTLESS_LON") c) _ e in
      let (c2, e2, f2) = >>=-eq-ok (numbers p m v c1) _ f1 in
      let (interval, e3, f3) =
        >>=-eq-ok (interval_of p c2.interval (non_empty v "SCOOTLESS_INTERVAL")) _ f2 in
      let h2 =
        numbers-IsPlaced v c1 c2
          (home_of-IsPlaced (v "SCOOTLESS_LAT") (v "SCOOTLESS_LON") c c1 h e1) e2 in
      let long =
        interval_of-least c2.interval (non_empty v "SCOOTLESS_INTERVAL") interval h2.interval e3 in
      checked-IsValid (texts p m v (record c2 { interval = interval })) d
        (texts-IsPlaced v (record c2 { interval = interval })
          (record { interval = long; home = h2.home }))
        f3

  -- Whatever the file and the environment hold, settings that Load returns without an error have a
  -- positive radius, an ntfy priority from 0 to 5, an ntfy server exactly where they have a topic,
  -- an interval of at least five seconds, and a home, where there is one, whose coordinates no
  -- bound of latitude or longitude is beyond.
  pub load-IsValid :
      (db_path : String) (file : EnvFile) (environ : List String) (c : Config)
      → load p m db_path file environ ≡ ok c
      → IsValid m p c
  unfolding load
  load-IsValid db_path file environ c e =
      let (values, e1, f1) = >>=-eq-ok (read_env_file file) _ e in
      apply-IsValid (λ key. get key (overlay environ values)) (default_config db_path) c
        (record { interval = omega arith; home = λ has. cc }) f1

abbrev pub over : Option String → Option String → Option String
over none old = old
over (some v) old = some v

abbrev value_at : String → Option (String × String) → Option String
value_at key none = none
value_at key (some (k, v)) = if k == key then some v else none

-- The last setting of a key in the environment, where the key is one of the program's.
unfoldable pub environ_value : String → List String → Option String
unfolding environ_setting
environ_value key [] = none
environ_value key (kv ∷ environ) =
    over (environ_value key environ) (value_at key (environ_setting kv))

over_assoc : (a b c : Option String) → over a (over b c) ≡ over (over a b) c
over_assoc none b c = refl
over_assoc (some v) b c = refl

get-put_setting :
    (key : String) (s : Option (String × String)) (values : Values)
    → get key (put_setting s values) ≡ over (value_at key s) (get key values)
get-put_setting key none values = refl
get-put_setting key (some (k, v)) values = ground (arith, get-put key k v values)

get-overlay :
    (key : String) (environ : List String) (values : Values)
    → get key (overlay environ values) ≡ over (environ_value key environ) (get key values)
unfolding overlay environ_value
get-overlay key [] values = refl
get-overlay key (kv ∷ environ) values =
    get-overlay key environ (put_setting (environ_setting kv) values)
    ∙ ap (over (environ_value key environ)) (get-put_setting key (environ_setting kv) values)
    ∙ over_assoc (environ_value key environ) (value_at key (environ_setting kv)) (get key values)

over_agree : (v a b : Option String) → (v ≡ none → a ≡ b) → over v a ≡ over v b
over_agree none a b h = h refl
over_agree (some v) a b h = refl

load_of :
    (p : Parsers) (m : Math) (db_path : String) (file : EnvFile) (environ : List String)
    (values : Values)
    → read_env_file file ≡ ok values
    → load p m db_path file environ
      ≡ apply p m (λ key. get key (overlay environ values)) (default_config db_path)
unfolding load
load_of p m db_path file environ values e =
    ap
      (λ r. r >>= λ values.
        apply p m (λ key. get key (overlay environ values)) (default_config db_path))
      e

-- The environment wins over the file: two files that can be read, and agree on every key that the
-- environment does not set, lead to the same settings or to the same error.
pub load-environment :
    (p : Parsers) (m : Math) (db_path : String) (file other : EnvFile) (environ : List String)
    (values others : Values)
    → read_env_file file ≡ ok values
    → read_env_file other ≡ ok others
    → ((key : String) → environ_value key environ ≡ none → get key values ≡ get key others)
    → load p m db_path file environ ≡ load p m db_path other environ
load-environment p m db_path file other environ values others e f agree =
    load_of p m db_path file environ values e
    ∙ ap (λ v. apply p m v (default_config db_path)) (fun_ext same)
    ∙ sym (load_of p m db_path other environ others f)
  where
    same : (key : String) → get key (overlay environ values) ≡ get key (overlay environ others)
    same key =
        get-overlay key environ values
        ∙ over_agree (environ_value key environ) (get key values) (get key others) (agree key)
        ∙ sym (get-overlay key environ others)
