-- ===== src/Poll/Firing.antt =====
-- internal/poll/poll.go: when `evaluate` fires a watch, and what it does then.
use scootless.Base.{
  ℕ, ◌≡◌, refl, Bool, true, false, not, ◌&&◌, String, List, [], ◌∷◌, ◌++◌, none, some, any, keep,
  length, arith, if◌then◌else◌, Bool-cases, Result-cases, inl, inr, ok, ◌==◌, string_eq, contains,
  eq_symm, eq_refl, ◌⊎◌, ◌≢◌, count_if,
}
use scootless.Base.Table.{update_where}
use scootless.Base.Int.{pos, leb_ℤ}
use scootless.Entur.Vehicles.{Vehicle}
use scootless.Store.Schema.{Db, Fence, Watch, WatchRow, Kind, appearance, scarcity, unknown_kind}
use scootless.Store.Watches.{mark_fired, record_event, can_fire, fire_row}
use scootless.Poll.Select.{wants, matches, dark_for, first_dark, first_dark_of}
use scootless.Poll.Run.{Run, Poller}
use scootless.Poll.Evaluate.{evaluate, verdict, fire, newcomers, notification, is_empty}

-- The vehicle counts for the watch: one of its operators, and range enough.
abbrev pub counts_for : Watch → Vehicle → Bool
counts_for w v = wants w v && leb_ℤ w.min_range_m v.range_m

-- Some operator that the watch relies on is dark.
abbrev relies_on_dark : Watch → List String → Bool
relies_on_dark w dark = elim w.operator_keys [
  | [] ↦ not (is_empty dark)
  | k ∷ keys ↦ any (λ o. contains dark o) (k ∷ keys)
]

-- When a watch is meant to fire, told from the vehicles inside the fence and the dark operators.
abbrev pub should_fire : Watch → List Vehicle → List String → Bool
should_fire w inside dark = elim w.kind [
  | appearance ↦ any (λ v. counts_for w v && not (contains w.baseline v.id)) inside
  | scarcity ↦
      not (relies_on_dark w dark) && leb_ℤ (pos (count_if (counts_for w) inside)) w.threshold
  | unknown_kind k ↦ false
]

-- The vehicles that a firing reports.
abbrev pub reported : Watch → List Vehicle → List Vehicle
reported w inside = elim w.kind [
  | appearance ↦ keep (λ v. counts_for w v && not (contains w.baseline v.id)) inside
  | scarcity ↦ keep (counts_for w) inside
  | unknown_kind k ↦ []
]

pub matches-keep : (vs : List Vehicle) (w : Watch) → matches vs w ≡ keep (counts_for w) vs
unfolding matches
matches-keep [] w = refl
matches-keep (v ∷ vs) w = ground (arith, matches-keep vs w)

pub newcomers-keep :
    (w : Watch) (vs : List Vehicle)
    → newcomers w (keep (counts_for w) vs)
      ≡ keep (λ v. counts_for w v && not (contains w.baseline v.id)) vs
newcomers-keep w [] = refl
newcomers-keep w (v ∷ vs) = ground (arith, newcomers-keep w vs)

pub keep-empty : (p : Vehicle → Bool) (vs : List Vehicle) → is_empty (keep p vs) ≡ not (any p vs)
keep-empty p [] = refl
keep-empty p (v ∷ vs) = ground (arith, keep-empty p vs)

length-keep : (p : Vehicle → Bool) (vs : List Vehicle) → length (keep p vs) ≡ count_if p vs
length-keep p [] = refl
length-keep p (v ∷ vs) = ground (arith, length-keep p vs)

first_dark-cases :
    (k : String) (dark : List String)
    → contains dark "" ≡ false
    → ((first_dark k dark ≡ none) × (contains dark k ≡ false))
      ⊎ ((d : String) × (first_dark k dark ≡ some d)
          × (contains dark k ≡ true)
          × ((d == "") ≡ false))
first_dark-cases k [] h = inl (refl, refl)
first_dark-cases k (d ∷ dark) h = elim (Bool-cases (k == d)) [
  | inl hit ↦ inr (d, ground arith, ground (arith, eq_symm k d), ground arith)
  | inr miss ↦ elim (first_dark-cases k dark (ground arith)) [
    | inl (e, c) ↦ inl (ground arith, ground (arith, eq_symm k d))
    | inr (x, e, c, real) ↦ inr (x, ground arith, ground arith, real)
  ]
]

first_dark_of-relies :
    (keys dark : List String)
    → contains dark "" ≡ false
    → (first_dark_of keys dark == "") ≡ not (any (λ o. contains dark o) keys)
unfolding first_dark_of
first_dark_of-relies [] dark h = eq_refl ""
first_dark_of-relies (k ∷ keys) dark h = elim (first_dark-cases k dark h) [
  | inl (e, c) ↦ rw (e, first_dark_of, c) (first_dark_of-relies keys dark h)
  | inr (d, e, c, real) ↦ rw (e, first_dark_of, c) real
]

List-cases :
    (xs : List String) → (xs ≡ []) ⊎ ((k : String) × (keys : List String) × (xs ≡ k ∷ keys))
List-cases [] = inl refl
List-cases (k ∷ keys) = inr (k, keys, refl)

none_dark : (keys : List String) → any (λ o. contains {A = String} [] o) keys ≡ false
none_dark [] = refl
none_dark (k ∷ keys) = none_dark keys

-- `darkFor` returns the empty text exactly where the watch relies on no dark operator.
dark_for-relies :
    (w : Watch) (dark : List String)
    → contains dark "" ≡ false
    → (dark_for w dark == "") ≡ not (relies_on_dark w dark)
unfolding dark_for first_dark_of
dark_for-relies w [] h = elim (List-cases w.operator_keys) [
  | inl e ↦ rw (e, dark_for) refl
  | inr (k, keys, e) ↦ rw (e, dark_for) ground (arith, none_dark (k ∷ keys))
]
dark_for-relies w (d ∷ dark) h = elim (List-cases w.operator_keys) [
  | inl e ↦ rw (e, dark_for) ground arith
  | inr (k, keys, e) ↦ rw (e, dark_for) (first_dark_of-relies (k ∷ keys) (d ∷ dark) h)
]

Kind-cases : (k : Kind) → (k ≡ appearance) ⊎ (k ≡ scarcity) ⊎ ((t : String) × (k ≡ unknown_kind t))
Kind-cases appearance = inl refl
Kind-cases scarcity = inr (inl refl)
Kind-cases (unknown_kind t) = inr (inr (t, refl))

-- The decision of `evaluate` is `should_fire`, and the vehicles that it reports are `reported`.
verdict-should_fire :
    (w : Watch) (inside : List Vehicle) (dark : List String)
    → ((k : String) → w.kind ≢ unknown_kind k)
    → contains dark "" ≡ false
    → verdict w (matches inside w) dark
      ≡ ok (if should_fire w inside dark then some (reported w inside) else none)
unfolding verdict
verdict-should_fire w inside dark known h = elim (Kind-cases w.kind) [
  | inl e ↦
      rw (e, verdict) ground
        (
          arith,
          matches-keep inside w,
          newcomers-keep w inside,
          keep-empty (λ v. counts_for w v && not (contains w.baseline v.id)) inside,
        )
  | inr (inl e) ↦
      rw (e, verdict) ground
        (arith, matches-keep inside w, dark_for-relies w dark h, length-keep (counts_for w) inside)
  | inr (inr (k, e)) ↦ absurd (known k e)
]

-- For a watch of a known kind, and no dark operator with the empty name: where it should not fire,
-- `evaluate` changes nothing and says so.
pub evaluate-holds_back :
    (p : Poller) (w : Watch) (f : Fence) (now : ℕ) (inside : List Vehicle) (dark : List String)
    (s : Run)
    → ((k : String) → w.kind ≢ unknown_kind k)
    → contains dark "" ≡ false
    → should_fire w inside dark ≡ false
    → evaluate p w f now inside dark s ≡ (ok false, s)
unfolding evaluate
evaluate-holds_back p w f now inside dark s known h no_fire =
    rw (verdict-should_fire w inside dark known h, no_fire, evaluate) refl

fired-has_watch :
    (id : String) (at : ℕ) (rows : List WatchRow)
    → any (can_fire id) rows ≡ true
    → any (λ (r : WatchRow). r.id == id) (update_where (can_fire id) (fire_row at) rows) ≡ true
fired-has_watch id at [] h = h
fired-has_watch id at (r ∷ rows) h = ground (arith, fired-has_watch id at rows)

-- An event can be recorded for a watch that has just been marked.
recorded_after :
    (id payload : String) (at : ℕ) (db marked_db : Db)
    → mark_fired id at db ≡ ok marked_db
    → (last : Db) × (record_event id at payload marked_db ≡ ok last)
unfolding mark_fired record_event
recorded_after id payload at db marked_db e =
    let shape : marked_db
        ≡ record db { watches = update_where (can_fire id) (fire_row at) db.watches } =
      ground arith in
    elim (Result-cases (record_event id at payload marked_db)) [
      | inl (why, f) ↦ absurd (ground (arith, fired-has_watch id at db.watches, shape))
      | inr done ↦ done
    ]

-- For a watch of a known kind, and no dark operator with the empty name: where it should fire,
-- marking it succeeds and its notification encodes, `evaluate` leaves the watch marked and one
-- event for it, hands one notification to the sink where there is one, and says that it fired. That
-- holds of a watch that repeats as of another, however lately it fired before.
pub evaluate-fires :
    (p : Poller) (w : Watch) (f : Fence) (now : ℕ) (inside : List Vehicle) (dark : List String)
    (payload : String) (marked_db : Db) (s : Run)
    → ((k : String) → w.kind ≢ unknown_kind k)
    → contains dark "" ≡ false
    → should_fire w inside dark ≡ true
    → mark_fired w.id now s.db ≡ ok marked_db
    → let note = notification p w f now (keep (counts_for w) inside) (reported w inside) in
      p.encode note ≡ some payload
      → (last : Db) × (record_event w.id now payload marked_db ≡ ok last)
        × (evaluate p w f now inside dark s ≡ (
          ok true,
          record s {
            db = last;
            deliveries = if p.has_sink then s.deliveries ++ note ∷ [] else s.deliveries;
          },
        ))
unfolding evaluate fire
evaluate-fires p w f now inside dark payload marked_db s known h should won enc =
    let (last, e) = recorded_after w.id payload now s.db marked_db won in
    (
      last,
      e,
      elim (Bool-cases p.has_sink) [
        | inl sink ↦
            rw
              (
                verdict-should_fire w inside dark known h,
                should,
                evaluate,
                fire,
                matches-keep inside w,
                won,
                enc,
                e,
                sink,
              )
              refl
        | inr bare ↦
            rw
              (
                verdict-should_fire w inside dark known h,
                should,
                evaluate,
                fire,
                matches-keep inside w,
                won,
                enc,
                e,
                bare,
              )
              refl
      ],
    )

-- For a watch of a known kind, and no dark operator with the empty name: where no row of it is
-- armed any more, `evaluate` fires nothing and changes nothing.
evaluate-late :
    (p : Poller) (w : Watch) (f : Fence) (now : ℕ) (inside : List Vehicle) (dark : List String)
    (s : Run)
    → ((k : String) → w.kind ≢ unknown_kind k)
    → contains dark "" ≡ false
    → any (can_fire w.id) s.db.watches ≡ false
    → evaluate p w f now inside dark s ≡ (ok false, s)
unfolding evaluate fire mark_fired
evaluate-late p w f now inside dark s known h gone = elim (Bool-cases (should_fire w inside dark)) [
  | inl should ↦
      rw (verdict-should_fire w inside dark known h, should, gone, evaluate, fire, mark_fired) refl
  | inr held ↦ evaluate-holds_back p w f now inside dark s known h held
]
