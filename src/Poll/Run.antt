-- ===== src/Poll/Run.antt =====
-- internal/poll/poll.go: the types of a tick, and its monad. A step that fails keeps what was done
-- before it: the database is not rolled back, and `Tick` returns the report so far.
use scootless.Base.{ℕ, Bool, false, String, List, [], Option, Result, ok, err}
use scootless.Base.Int.{ℤ}
use scootless.Entur.Operators.{EnturError}
use scootless.Entur.Vehicles.{Vehicle, Query, Fetched}
use scootless.Store.Schema.{Db, Fence, Watch, Kind, StoreError}

-- `Fetcher`: what the client gives for each query of this tick.
abbrev pub Fetcher : Type 0
Fetcher = Query → Result EnturError Fetched

pub record Notification : Type 0 where
  pub watch : Watch
  pub watch_id : String
  pub kind : Kind
  pub fired_at : ℕ
  pub fence : Fence
  pub count : ℕ
  pub vehicles : List Vehicle

pub record Report : Type 0 where
  pub at : ℕ
  pub queries : ℕ
  pub fences : ℕ
  pub arrivals : ℕ
  pub expired : ℕ
  pub fired : List String
  pub truncated : Bool
  pub nearest_queries : ℕ
  pub dark : List String

abbrev pub empty_report : ℕ → Report
empty_report now = record {
  at = now;
  queries = 0;
  fences = 0;
  arrivals = 0;
  expired = 0;
  fired = [];
  truncated = false;
  nearest_queries = 0;
  dark = [];
}

-- What a tick reads and writes: the database, `nearestAt`, the notifications handed to `dispatch`'s
-- deliveries in order, and the report.
pub record Run : Type 0 where
  pub db : Db
  pub nearest_at : List (String × ℕ)
  pub deliveries : List Notification
  pub rep : Report

-- The settings of a `Poller`. `encode` is `json.Marshal` of a notification.
pub record Poller : Type 0 where
  pub fetch : Fetcher
  pub has_sink : Bool
  pub stale : ℤ
  pub reach_m : ℤ
  pub nearest_interval : ℤ
  pub encode : Notification → Option String

pub data TickError : Type 0 where
  upstream : List EnturError → TickError
  store_failed : StoreError → TickError
  bad_kind : String → TickError
  encoding : TickError

abbrev pub M : Type 0 → Type 0
M A = Run → Result TickError A × Run

abbrev pub resume : {A B : Type 0} → (A → M B) → Result TickError A × Run → Result TickError B × Run
resume next (ok a, s) = next a s
resume next (err e, s) = (err e, s)

infixl 5 ◌>>=◌ ◌>>◌
abbrev pub ◌>>=◌ : {A B : Type 0} → M A → (A → M B) → M B
◌>>=◌ step next s = resume next (step s)

abbrev pub ◌>>◌ : {B : Type 0} → M (Unit {0}) → M B → M B
step >> next = step >>= λ _. next

abbrev pub pure : {A : Type 0} → A → M A
pure a s = (ok a, s)

abbrev pub throw : {A : Type 0} → TickError → M A
throw e s = (err e, s)

abbrev pub get : M Run
get s = (ok s, s)

abbrev pub modify : (Run → Run) → M (Unit {0})
modify f s = (ok tt, f s)

abbrev pub modify_rep : (Report → Report) → M (Unit {0})
modify_rep f s = (ok tt, record s { rep = f s.rep })

abbrev pub wrote : Result StoreError Db → M (Unit {0})
wrote (ok db) s = (ok tt, record s { db = db })
wrote (err e) s = (err (store_failed e), s)

-- A statement of the store that writes.
abbrev pub write : (Db → Result StoreError Db) → M (Unit {0})
write statement s = wrote (statement s.db) s

-- A loop over a slice.
unfoldable pub for_each {ℓ} : {A : Type ℓ} → (A → M (Unit {0})) → List A → M (Unit {0})
for_each body [] = pure tt
for_each body (List.◌∷◌ a as') = body a >> for_each body as'
