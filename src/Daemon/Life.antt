-- ===== src/Daemon/Life.antt =====
-- What the daemon starts from, and what its database keeps: cmd/scootlessd/main.go with
-- internal/poll and internal/api.
use scootless.Base.{
  ◌≡◌, refl, sym, ap, ◌∙◌, Bool, true, String, List, [], ◌∷◌, ◌++◌, Option, Result, ok, err,
  >>=-eq-ok, require-eq-ok, ok-subst, ◌==◌, string_eq, inl, inr, Bool-cases,
}
use scootless.Base.Int.{ℤ}
use scootless.Float.{Math}
use scootless.Store.Schema.{Db, Fence}
use scootless.Store.Fences.{fence}
use scootless.Store.Saved.{fence-save_fence}
use scootless.Store.History.{run, run-append}
use scootless.Store.History.Keys.{HasKeys, run-HasKeys}
use scootless.Store.History.Links.{HasLinks}
use scootless.Store.History.Linked.{run-HasLinks}
use scootless.Poll.Run.{Poller, Run}
use scootless.Poll.Loop.{round}
use scootless.Poll.Passes.{tick-run}
use scootless.Config.{Config, ConfigError, EnvFile, Parsers, load}
use scootless.Config.Settings.{IsValid, load-IsValid}
use scootless.Api.Calls.{Called}
use scootless.Http.{Server}
use scootless.Http.Effects.{handler-Called}
use scootless.Daemon.{
  Flags, home_fence, with_path, loaded, opened, prepare, Event, ticked, requested, happen, serve,
}

Called-trans : (a b c : Db) → Called a b → Called b c → Called a c
Called-trans a b c (xs, e) (ys, f) = (xs ++ ys, f ∙ ap (run ys) e ∙ sym (run-append xs ys a))

module _ (m : Math) (whole : ℤ → String) (p : Poller) (s : Server) where
  Called-happen : (e : Event) (state : Run) → Called state.db (happen m whole p s e state).db
  unfolding happen round
  Called-happen (ticked now fetch) state = (tick-run m (record p { fetch = fetch }) now state).0
  Called-happen (requested w r) state = handler-Called m s whole w r state.db

  Called-serve :
      (events : List Event) (state : Run) → Called state.db (serve m whole p s events state).db
  unfolding serve run
  Called-serve [] state = ([], refl)
  Called-serve (e ∷ events) state =
      let next = happen m whole p s e state in
      Called-trans state.db next.db (serve m whole p s events next).db (Called-happen e state)
        (Called-serve events next)

  -- Whatever ticks and requests follow one another, whatever the upstream answers and whatever
  -- fails, a database whose primary and foreign keys hold when the daemon begins to serve keeps
  -- them.
  pub serve-HasLinks :
      (events : List Event) (state : Run)
      → HasKeys state.db
      → HasLinks state.db
      → let after = serve m whole p s events state in HasKeys after.db × HasLinks after.db
  serve-HasLinks events state k l =
      let (calls, e) = Called-serve events state in
      rw e (run-HasKeys calls state.db k, run-HasLinks calls state.db l)

loaded-ok : (r : Result ConfigError Config) (c : Config) → loaded r ≡ ok c → r ≡ ok c
loaded-ok (ok d) c e = ok-subst (λ c. ◌≡◌ {A = Result ConfigError Config} (ok d) (ok c)) refl e
loaded-ok (err x) c e = cc

with_path-IsValid :
    {m : Math} {p : Parsers} (flags : Flags) (c : Config)
    → IsValid m p c
    → IsValid m p (with_path flags c)
with_path-IsValid flags c v = elim (Bool-cases (flags.db_path == "")) [
  | inl e ↦ rw e v
  | inr e ↦ rw e (record {
    radius = v.radius;
    priority = v.priority;
    ntfy = v.ntfy;
    interval = v.interval;
    home = v.home;
  })
]

-- A daemon that begins to serve has settings that are in range and a location, and the fence of
-- that location, with the configured radius, which is positive, is in its database as home.
pub prepare-home :
    (p : Parsers) (m : Math) (open_db : String → Option Db) (saves : Fence → Db → Bool)
    (flags : Flags) (default_path : String) (file : EnvFile) (environ : List String) (c : Config)
    (db : Db)
    → prepare p m open_db saves flags default_path file environ ≡ ok (c, db)
    → IsValid m p c
      × (c.has_home ≡ true)
      × (fence "home" db
          ≡ ok (record { id = "home"; name = "home"; at = c.home; radius_m = c.radius_m }))
unfolding prepare
prepare-home p m open_db saves flags default_path file environ c db e =
    let (c0, e0, f0) = >>=-eq-ok (loaded (load p m default_path file environ)) _ e in
    let c1 = with_path flags c0 in
    let (has, f1) = require-eq-ok c1.has_home _ _ f0 in
    let (old, e2, f2) = >>=-eq-ok (opened (open_db c1.db_path)) _ f1 in
    let (done, f3) = require-eq-ok (saves (home_fence c1) old) _ _ f2 in
    let valid = with_path-IsValid flags c0 (
      load-IsValid m p default_path file environ c0
        (loaded-ok (load p m default_path file environ) c0 e0)) in
    ok-subst
      (λ (c, db). IsValid m p c × (c.has_home ≡ true) × (fence "home" db ≡ ok (home_fence c)))
      (valid, has, fence-save_fence (home_fence c1) old) f3
