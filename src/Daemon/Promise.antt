-- ===== src/Daemon/Promise.antt =====
-- From the request that arms a watch to the tick that tells of it: internal/api, internal/store and
-- internal/poll under cmd/scootlessd/main.go.
use mathlib.Core.List.{Memᴰ}
use mathlib.Core.List.Memᴰ
use mathlib.Core.Path.{subst}
use scootless.Base.{
  ℕ, ◌≡◌, ◌≢◌, refl, sym, ap, ◌∙◌, arith, true, String, List, [], ◌∷◌, ◌++◌, Option, none, some, ok,
  All, any, ◌==◌, string_eq, ltb,
}
use scootless.Float.{Float64, Math}
use scootless.Entur.Vehicles.{Query, Fetched}
use scootless.Store.Schema.{Db, Fence, Watch, appearance, armed, unix}
use scootless.Store.Fences.{fences}
use scootless.Store.Watches.{row_of, is_live}
use scootless.Poll.Select.{Group, group_fences}
use scootless.Poll.Run.{Fetcher, Poller, Notification, Run}
use scootless.Poll.Tick.{group_query}
use scootless.Poll.Rounds.{TellsOf}
use scootless.Poll.Aims.{IsWritable, HasKind}
use scootless.Poll.Reports.{has_come}
use scootless.Http.{Server, Request, blank}
use scootless.Http.Handlers.{Answer}
use scootless.Http.Routes.{Moment, arm}
use scootless.Http.Arms.{post_watch, may_enter, handler-arm}
use scootless.Daemon.{Event, ticked, requested, happen, serve}
use scootless.Daemon.Telling.{IsCalm, serve-tells}
use scootless.Base.Int.{ℤ}
use scootless.Api.{Outcome, CreateWatchReq, created, create_watch_handler}
use scootless.Api.Arming.{create_watch_handler-IsArmed, created-shape}

row-live :
    (t : ℕ) (w : Watch)
    → w.state ≡ armed
    → ltb (unix t) (unix w.expires_at) ≡ true
    → is_live t (row_of w) ≡ true
row-live t w state early = rw (state, early) refl

row-stored :
    (w : Watch) (db mid : Db)
    → db ≡ record mid { watches = mid.watches ++ row_of w ∷ [] }
    → Memᴰ (row_of w) db.watches
row-stored w db mid shape = rw shape (Memᴰ.append_right mid.watches (Memᴰ.head refl))

-- What a request that is posted to the watches leaves.
arm-shape :
    (m : Math) (ask : Fetcher) (at : ℕ) (fence_random random : String)
    (body : Option CreateWatchReq) (w : Watch) (db new : Db)
    → create_watch_handler m ask blank at fence_random random body db ≡ (created w, new)
    → (mid : Db) × (new ≡ record mid { watches = mid.watches ++ row_of w ∷ [] }) × (w.state ≡ armed)
unfolding create_watch_handler
arm-shape m ask at fence_random random none w db new e = absurd (ground arith)
arm-shape m ask at fence_random random (some req) w db new e =
    let a = create_watch_handler-IsArmed m ask blank at fence_random random req w db new e in
    (a.mid, created-shape w a.mid new a.stored, ap (λ (v : Watch). v.state) a.shape)

posted-db :
    (m : Math) (whole : ℤ → String) (p : Poller) (server : Server) (moment : Moment) (q : Request)
    (w : Watch) (new : Db) (s : Run)
    → may_enter server (post_watch q) ≡ true
    → arm m whole server moment (post_watch q) s.db ≡ (created w, new)
    → happen m whole p server (requested moment (post_watch q)) s ≡ record s { db = new }
unfolding happen
posted-db m whole p server moment q w new s enters e =
    ap (λ (a : Answer × Db). record s { db = a.1 })
      (handler-arm m whole server moment q s.db enters)
    ∙ ap (λ (a : Outcome). record s { db = a.1 }) e

-- A client that posts an appearance watch and has it created is told of it: the sink is handed a
-- notification of the watch, where after ticks before it expired and requests that only read, a tick
-- before it expires finds that the query that serves its fence is answered with a vehicle that is in
-- the fence, counts for the watch and was not there when it was armed. That holds whatever the upstream
-- answers in the other ticks and to other queries, and whatever happens later. The watches are of known
-- kinds, and what is answered up to then can be encoded.
pub arm-told :
    (m : Math) (whole : ℤ → String) (p : Poller) (server : Server) (moment : Moment) (q : Request)
    (w : Watch) (new : Db) (events later : List Event) (now : ℕ) (fetch : Fetcher) (s : Run)
    (f : Fence) (g : Group) (res : Fetched) (Finite : Option Float64 → Type 0)
    → may_enter server (post_watch q) ≡ true
    → arm m whole server moment (post_watch q) s.db ≡ (created w, new)
    → w.kind ≡ appearance
    → p.has_sink ≡ true
    → ((n : Notification) → All (IsWritable Finite) n.vehicles → p.encode n ≢ none)
    → ((q : Query) (res : Fetched) → fetch q ≡ ok res → All (IsWritable Finite) res.vehicles)
    → All HasKind new.watches
    → All (IsCalm Finite (row_of w)) events
    → ltb (unix now) (unix w.expires_at) ≡ true
    → (w.fence_id == f.id) ≡ true
    → Memᴰ g (group_fences m (fences new))
    → Memᴰ f g.fences
    → fetch (group_query m p now g) ≡ ok res
    → any (has_come m w f) res.vehicles ≡ true
    → let day = requested moment (post_watch q) ∷ events ++ ticked now fetch ∷ later in
      TellsOf w.id s (serve m whole p server day s)
unfolding serve arm
arm-told m whole p server moment q w new events later now fetch s f g res Finite enters e kind sink
      encodes answers kinds calm live here served served_by up come =
    let (mid, shape, state) =
      arm-shape m moment.fetch moment.now moment.fence_random moment.random q.watch_body w s.db new
        e in
    subst (λ t. TellsOf w.id s (serve m whole p server (events ++ ticked now fetch ∷ later) t))
      (sym (posted-db m whole p server moment q w new s enters e))
      (serve-tells m whole p server events later now fetch (record s { db = new }) (row_of w) f g
        res Finite sink encodes answers kinds (row-stored w new mid shape) kind calm
        (row-live now w state live) here served served_by up come)
