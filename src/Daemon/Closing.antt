-- ===== src/Daemon/Closing.antt =====
-- cmd/scootlessd/main.go: the order in which the daemon closes what it opened.
use scootless.Base.{
  ◌≡◌, refl, Bool, true, false, not, ◌&&◌, List, [], ◌∷◌, ◌++◌, Result, ok, err, any,
}
use scootless.Store.Schema.{Db}
use scootless.Poll.Run.{Report, TickError}
use scootless.Config.{Config}
use scootless.Notify.{Options, Connection}
use scootless.Daemon.{Exit, bad_config, no_location, no_database, not_saved}
use scootless.Daemon.Command.{
  Act, ticks, polls, serves_api, shuts_down_api, waits, stops_signals, closes_store, Switches, Stop,
  cancelled, other, closers, logs, log_start, log_tick, run, run_open, Returned,
}

-- An act from which notifications come.
abbrev pub notifies : Act → Bool
notifies ticks = true
notifies polls = true
notifies _ = false

abbrev pub is_serving : Act → Bool
is_serving serves_api = true
is_serving _ = false

-- No act comes after the one that shuts the API down, where the API was served.
abbrev pub is_shut : Bool → List Act → Bool
is_shut serving [] = not serving
is_shut serving (shuts_down_api ∷ []) = true
is_shut serving (serves_api ∷ acts) = is_shut true acts
is_shut serving (_ ∷ acts) = is_shut serving acts

module _ (connect : Options → Connection) (c : Config) where
  -- The acts up to the wait, and what is known of them.
  abbrev Closes : Switches → List Act × Returned → Type 0
  Closes w r =
      (front : List Act) × (r.0
        ≡ front ++ (waits ∷ (closers connect c ++ (stops_signals ∷ closes_store ∷ []))))
      × (any notifies front ≡ true)
      × (any is_serving front ≡ (not w.once && not w.no_http))
      × (is_shut false front ≡ true)

  abbrev starting : Act
  starting = logs "starting" (log_start c)

  abbrev polling : Act
  polling = logs "polling; send SIGINT or SIGTERM to stop" []

  run_open-Closes :
      (once no_http : Bool) (tick_result : Result TickError Report) (stop : Stop)
      → let w : Switches = record { once = once; no_http = no_http } in
        Closes w (run_open connect w tick_result stop c)
  unfolding run_open
  run_open-Closes true n (ok rep) stop =
      (starting ∷ ticks ∷ waits ∷ logs "tick" (log_tick rep) ∷ [], refl, refl, refl, refl)
  run_open-Closes true n (err e) stop = (starting ∷ ticks ∷ [], refl, refl, refl, refl)
  run_open-Closes false true r cancelled =
      (starting ∷ polling ∷ polls ∷ logs "stopped" [] ∷ [], refl, refl, refl, refl)
  run_open-Closes false true r other = (starting ∷ polling ∷ polls ∷ [], refl, refl, refl, refl)
  run_open-Closes false false r cancelled = (
    starting ∷ serves_api ∷ polling ∷ polls ∷ logs "stopped" [] ∷ shuts_down_api ∷ [],
    refl,
    refl,
    refl,
    refl,
  )
  run_open-Closes false false r other =
      (starting ∷ serves_api ∷ polling ∷ polls ∷ shuts_down_api ∷ [], refl, refl, refl, refl)

-- How a run ends, by what its start came to.
abbrev IsReleased :
    (Options → Connection) → Switches → Result Exit (Config × Db) → List Act → Type 0
IsReleased connect w (ok (c, db)) acts =
    (front : List Act) × (acts
      ≡ front ++ (waits ∷ (closers connect c ++ (stops_signals ∷ closes_store ∷ []))))
    × (any notifies front ≡ true)
    × (any is_serving front ≡ (not w.once && not w.no_http))
    × (is_shut false front ≡ true)
IsReleased connect w (err not_saved) acts = acts ≡ stops_signals ∷ closes_store ∷ []
IsReleased connect w (err _) acts = acts ≡ []

-- A run whose fence was saved ends by waiting for the deliveries, then closing the connection of the
-- broker, where there is one, and then the database. Before that it has ticked or polled, and has
-- shut down the API, which it served exactly where it polled and was not told to leave it out. A run
-- whose fence was not saved closes the database and does nothing else, and one that ended before it
-- opened the database does nothing.
pub run-closes :
    (connect : Options → Connection) (w : Switches) (tick_result : Result TickError Report)
    (stop : Stop) (start : Result Exit (Config × Db))
    → IsReleased connect w start (run connect w tick_result stop start).0
unfolding run
run-closes connect w tick_result stop (ok (c, db)) =
    run_open-Closes connect c w.once w.no_http tick_result stop
run-closes connect w tick_result stop (err (bad_config e)) = refl
run-closes connect w tick_result stop (err no_location) = refl
run-closes connect w tick_result stop (err no_database) = refl
run-closes connect w tick_result stop (err not_saved) = refl
