-- ===== src/Notify/Fanout.antt =====
-- A Multi of sinks: internal/notify/ntfy.go.
use mathlib.Core.List.{append_assoc}
use scootless.Base.{List, [], ◌∷◌, ◌++◌, Option, none, some, ◌≡◌, ◌↔◌, refl, sym, ap, ◌∙◌}
use scootless.Poll.Run.{Notification}
use scootless.Notify.{
  SinkError, Sink, join_errors, sink_result, with_failure, sent_by, failures, publish_multi,
}

pub sent_by-append :
    (join : List SinkError → SinkError) (xs ys : List (Option Sink)) (n : Notification)
    → sent_by join (xs ++ ys) n ≡ sent_by join xs n ++ sent_by join ys n
unfolding sent_by
sent_by-append join [] ys n = refl
sent_by-append join (x ∷ xs) ys n =
    ap (λ ms. (sink_result join x n).0 ++ ms) (sent_by-append join xs ys n)
    ∙ sym (append_assoc (sink_result join x n).0 (sent_by join xs n) (sent_by join ys n))

with_failure-append :
    (join : List SinkError → SinkError) (e : Option SinkError) (xs ys : List SinkError)
    → with_failure join e (xs ++ ys) ≡ with_failure join e xs ++ ys
with_failure-append join none xs ys = refl
with_failure-append join (some e) xs ys = refl

failures-append :
    (join : List SinkError → SinkError) (xs ys : List (Option Sink)) (n : Notification)
    → failures join (xs ++ ys) n ≡ failures join xs n ++ failures join ys n
unfolding failures
failures-append join [] ys n = refl
failures-append join (x ∷ xs) ys n =
    ap (with_failure join (sink_result join x n).1) (failures-append join xs ys n)
    ∙ with_failure-append join (sink_result join x n).1 (failures join xs n) (failures join ys n)

-- Errors stand apart: none of three is there exactly when none of them is.
join_errors-append :
    (join : List SinkError → SinkError) (xs ys : List SinkError) (e : Option SinkError)
    → (join_errors join (xs ++ with_failure join e ys) ≡ none)
      ↔ ((join_errors join xs ≡ none) × (e ≡ none) × (join_errors join ys ≡ none))
join_errors-append join [] ys none = (λ h. (refl, refl, h), λ h. h.2)
join_errors-append join [] [] (some e) = (λ h. cc, λ h. cc)
join_errors-append join [] (y ∷ ys) (some e) = (λ h. cc, λ h. cc)
join_errors-append join (x ∷ []) [] none = (λ h. cc, λ h. cc)
join_errors-append join (x ∷ []) (y ∷ ys) none = (λ h. cc, λ h. cc)
join_errors-append join (x ∷ []) ys (some e) = (λ h. cc, λ h. cc)
join_errors-append join (x ∷ x' ∷ xs) ys e = (λ h. cc, λ h. cc)

-- Each sink of a Multi is called and sends what it sends alone, whichever of the sinks fail; the
-- Multi returns no error exactly when that sink and the sinks before and after it return none.
pub publish_multi-delivers :
    (join : List SinkError → SinkError) (front back : List (Option Sink)) (s : Sink)
    (n : Notification)
    → let all = publish_multi join (front ++ some s ∷ back) n in
      let before = publish_multi join front n in
      let after = publish_multi join back n in
      (all.0 ≡ before.0 ++ ((s n).0 ++ after.0))
      × ((all.1 ≡ none) ↔ ((before.1 ≡ none) × ((s n).1 ≡ none) × (after.1 ≡ none)))
unfolding publish_multi
publish_multi-delivers join front back s n = (
  sent_by-append join front (some s ∷ back) n,
  rw (failures-append join front (some s ∷ back) n)
      (join_errors-append join (failures join front n) (failures join back n) (s n).1),
)
