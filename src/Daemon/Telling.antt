-- ===== src/Daemon/Telling.antt =====
-- The daemon at work, internal/poll beside internal/api: a watch whose vehicle comes is told of.
use mathlib.Core.List.{Memᴰ, append-nil}
use scootless.Base.{
  ℕ, ◌≡◌, ◌≢◌, sym, Option, true, false, String, List, [], ◌∷◌, ◌++◌, map, refl, none, ok, All, any,
  contains, ◌==◌, string_eq, inl, inr,
}
use scootless.Base.Int.{ℤ}
use scootless.Float.{Float64, Math}
use scootless.Entur.Vehicles.{Query, Fetched}
use scootless.Store.Schema.{Fence, WatchRow, appearance}
use scootless.Store.Fences.{fences}
use scootless.Store.Watches.{scan_watch, is_live}
use scootless.Poll.Select.{Group, group_fences}
use scootless.Poll.Run.{Run, Poller, Fetcher, Notification}
use scootless.Poll.Tick.{group_query}
use scootless.Poll.Loop.{round, poll_run}
use scootless.Poll.Told.{told_of}
use scootless.Poll.Aims.{IsWritable, HasKind}
use scootless.Poll.Reports.{has_come, tick-reports}
use scootless.Poll.Rounds.{
  armed_watches-row, armed_watches-kinds, tick-stands, fences-same, live-overdue, told-round, Grows,
  TellsOf, TellsOf-Grows, Grows-TellsOf, Grows-trans,
}
use scootless.Http.{Server}
use scootless.Http.Reads.{writes, handler-reads}
use scootless.Daemon.{Event, ticked, requested, happen, serve}

-- A tick that comes before the watch expires and is answered in numbers that JSON can write, or a
-- request that only reads.
abbrev pub IsCalm : (Option Float64 → Type 0) → WatchRow → Event → Type 0
IsCalm Finite r (ticked t fetch) =
    (is_live t r ≡ true)
    × ((q : Query) (res : Fetched) → fetch q ≡ ok res → All (IsWritable Finite) res.vehicles)
IsCalm Finite r (requested w q) = writes q ≡ false

module _ (m : Math) (whole : ℤ → String) (p : Poller) (server : Server)
    (Finite : Option Float64 → Type 0) (sink : p.has_sink ≡ true)
    (encodes : (n : Notification) → All (IsWritable Finite) n.vehicles → p.encode n ≢ none) where
  -- Whatever happens, what is told of comes after what was told of.
  Grows-serve : (events : List Event) (s : Run) → Grows s (serve m whole p server events s)
  unfolding serve happen
  Grows-serve [] s = ([], sym (append-nil (told_of s)))
  Grows-serve (ticked now fetch ∷ events) s =
      let t = round m p now fetch s in
      Grows-trans s t (serve m whole p server events t)
        (t.rep.fired, told-round m p now fetch s sink) (Grows-serve events t)
  Grows-serve (requested w q ∷ events) s =
      Grows-serve events (happen m whole p server (requested w q) s)

  -- A watch that a tick reports is told of, whatever happens later.
  told-later :
      (now : ℕ) (fetch : Fetcher) (later : List Event) (s : Run) (id : String)
      → let t = round m p now fetch s in
        contains t.rep.fired id ≡ true → TellsOf id s (serve m whole p server later t)
  told-later now fetch later s id h =
      let t = round m p now fetch s in
      TellsOf-Grows id s t (serve m whole p server later t)
        (t.rep.fired, told-round m p now fetch s sink, h) (Grows-serve later t)

  module _ (r : WatchRow) (f : Fence) (g : Group) (res : Fetched) (now : ℕ) (fetch : Fetcher)
      (answers : (q : Query) (res : Fetched)
        → fetch q ≡ ok res
        → All (IsWritable Finite) res.vehicles)
      (later : List Event) (kind : r.kind ≡ appearance) (live : is_live now r ≡ true)
      (here : (r.fence_id == f.id) ≡ true) (served_by : Memᴰ f g.fences)
      (up : fetch (group_query m p now g) ≡ ok res)
      (come : any (has_come m (scan_watch r) f) res.vehicles ≡ true) where
    tells :
        (events : List Event) (s : Run)
        → All HasKind s.db.watches
        → Memᴰ r s.db.watches
        → All (IsCalm Finite r) events
        → Memᴰ g (group_fences m (fences s.db))
        → TellsOf r.id s (serve m whole p server (events ++ ticked now fetch ∷ later) s)
    unfolding serve happen round
    tells [] s kinds there calm at = told-later now fetch later s r.id (
        (tick-reports m (record p { fetch = fetch }) now s (scan_watch r) f g res Finite sink
          encodes answers (armed_watches-kinds now s.db kinds)
          (armed_watches-row now r s.db live there) kind here at served_by up come).0)
    tells (ticked t first ∷ events) s kinds there ((early, known), calm) at =
        let next = round m p t first s in
        let (same, (kinds', h)) =
          tick-stands m (record p { fetch = first }) t Finite encodes known s r kinds
            (live-overdue t r early) there in
        elim h [
          | inl still ↦
              Grows-TellsOf r.id s next
                (serve m whole p server (events ++ ticked now fetch ∷ later) next)
                (next.rep.fired, told-round m p t first s sink)
                (tells events next kinds' still calm (rw (fences-same next.db s.db same) at))
          | inr fired ↦ told-later t first (events ++ ticked now fetch ∷ later) s r.id fired
        ]
    tells (requested w q ∷ events) s kinds there (reads, calm) at =
        let same = handler-reads m whole server w q s.db reads in
        tells events (happen m whole p server (requested w q) s) (rw same kinds) (rw same there)
          calm (rw same at)

-- The rounds of `Run` are what a daemon does that nobody asks for anything.
poll_run-serve :
    (m : Math) (whole : ℤ → String) (p : Poller) (server : Server) (rounds : List (ℕ × Fetcher))
    (s : Run)
    → poll_run m p rounds s
      ≡ serve m whole p server (map (λ (now, fetch). ticked now fetch) rounds) s
unfolding poll_run serve happen
poll_run-serve m whole p server [] s = refl
poll_run-serve m whole p server ((now, fetch) ∷ rounds) s =
    poll_run-serve m whole p server rounds (round m p now fetch s)

pub serve-tells :
    (m : Math) (whole : ℤ → String) (p : Poller) (server : Server) (events later : List Event)
    (now : ℕ) (fetch : Fetcher) (s : Run) (r : WatchRow) (f : Fence) (g : Group) (res : Fetched)
    (Finite : Option Float64 → Type 0)
    → p.has_sink ≡ true
    → ((n : Notification) → All (IsWritable Finite) n.vehicles → p.encode n ≢ none)
    → ((q : Query) (res : Fetched) → fetch q ≡ ok res → All (IsWritable Finite) res.vehicles)
    → All HasKind s.db.watches
    → Memᴰ r s.db.watches
    → r.kind ≡ appearance
    → All (IsCalm Finite r) events
    → is_live now r ≡ true
    → (r.fence_id == f.id) ≡ true
    → Memᴰ g (group_fences m (fences s.db))
    → Memᴰ f g.fences
    → fetch (group_query m p now g) ≡ ok res
    → any (has_come m (scan_watch r) f) res.vehicles ≡ true
    → TellsOf r.id s (serve m whole p server (events ++ ticked now fetch ∷ later) s)
serve-tells m whole p server events later now fetch s r f g res Finite sink encodes answers kinds
      there kind calm live here at served_by up come =
    tells m whole p server Finite sink encodes r f g res now fetch answers later kind live here
      served_by up come events s kinds there calm at
