-- ===== src/Daemon/Posts.antt =====
-- From a tick to the phone: internal/poll, internal/notify and cmd/scootlessd/main.go together.
use scootless.Base.{
  ℕ, map, ◌≡◌, refl, ap, ◌∙◌, Bool, true, false, String, ◌<>◌, List, [], ◌∷◌, ◌++◌, Option, none,
  some, Result, ok, err, ◌==◌, string_eq, Bool-cases, inl, inr,
}
use scootless.Float.{Math}
use scootless.Poll.Run.{Notification, Poller, Run}
use scootless.Poll.Tick.{tick}
use scootless.Poll.Told.{tick-told}
use scootless.Config.{Config, Parsers}
use scootless.Config.Settings.{IsValid}
use scootless.Notify.{
  Format, SinkError, Options, Connection, Post, Response, Message, mqtt, posted, logged, Mqtt, dial,
  payload_of, ntfy_url, publish_body, publish_fired, sent_by, log_sink, ntfy_post,
}
use scootless.Daemon.{broker_sinks, mqtt_sinks, options_of, ntfy_of, build_sink, delivered}
use scootless.Daemon.Delivery.{build_sink-sent}
use scootless.Daemon.Posted.{post_for, ntfy_post_lem}

-- The posts among messages.
abbrev pub posts_of : List Message → List Post
posts_of [] = []
posts_of (posted p ∷ ms) = p ∷ posts_of ms
posts_of (_ ∷ ms) = posts_of ms

posts_of-append : (xs ys : List Message) → posts_of (xs ++ ys) ≡ posts_of xs ++ posts_of ys
posts_of-append [] ys = refl
posts_of-append (mqtt t q r b ∷ xs) ys = posts_of-append xs ys
posts_of-append (posted p ∷ xs) ys = ap (λ ps. p ∷ ps) (posts_of-append xs ys)
posts_of-append (logged w k f c v ∷ xs) ys = posts_of-append xs ys

module _ (m : Math) (f : Format) (join : List SinkError → SinkError)
    (connect : Options → Connection) (well_formed : String → Bool) (http : Post → Response) where
  mqtt_sinks-posts :
      (r : Result SinkError Mqtt) (n : Notification)
      → posts_of (sent_by join (mqtt_sinks m f join connect well_formed http r) n) ≡ []
  unfolding sent_by publish_fired
  mqtt_sinks-posts (err e) n = refl
  mqtt_sinks-posts (ok q) n = body (f.marshal (payload_of m n))
    where
      body :
          (o : Option String)
          → posts_of ((publish_body q (q.prefix <> "/watch/" <> n.watch_id <> "/fired") o).0 ++ [])
            ≡ []
      body none = refl
      body (some b) = refl

  broker_sinks-posts :
      (c : Config) (n : Notification)
      → posts_of (sent_by join (broker_sinks m f join connect well_formed http c) n) ≡ []
  unfolding sent_by
  broker_sinks-posts c n = elim (Bool-cases (c.mqtt_broker == "")) [
    | inl e ↦ rw e refl
    | inr e ↦ rw e (mqtt_sinks-posts (dial connect (options_of c)) n)
  ]

  build_sink-post :
      (p : Parsers) (c : Config) (n : Notification)
      → IsValid m p c
      → (c.ntfy_server == "") ≡ false
      → well_formed (ntfy_url m f (ntfy_of m f join connect well_formed http c)) ≡ true
      → posts_of (build_sink m f join connect well_formed http c n).0 ≡ post_for m f c n ∷ []
  build_sink-post p c n valid server taken =
      let front = sent_by join (broker_sinks m f join connect well_formed http c) n in
      let post = ntfy_post m f (ntfy_of m f join connect well_formed http c) (payload_of m n) in
      ap posts_of (build_sink-sent m f join connect well_formed http p c n valid server taken)
      ∙ posts_of-append front (posted post ∷ (log_sink n).0)
      ∙ ap (λ ps. ps ++ post ∷ []) (broker_sinks-posts c n)
      ∙ ap (λ q. q ∷ []) (ntfy_post_lem m f join connect well_formed http c n)

  -- What was started to be delivered is what is posted, whatever becomes of the broker.
  pub delivered-posts :
      (p : Parsers) (c : Config) (ns : List Notification)
      → IsValid m p c
      → (c.ntfy_server == "") ≡ false
      → well_formed (ntfy_url m f (ntfy_of m f join connect well_formed http c)) ≡ true
      → posts_of (delivered (build_sink m f join connect well_formed http c) ns)
        ≡ map (post_for m f c) ns
  unfolding delivered
  delivered-posts p c [] valid server taken = refl
  delivered-posts p c (n ∷ ns) valid server taken =
      let sink = build_sink m f join connect well_formed http c in
      posts_of-append (sink n).0 (delivered sink ns)
      ∙ ap (λ ps. ps ++ posts_of (delivered sink ns)) (build_sink-post p c n valid server taken)
      ∙ ap (λ ps. post_for m f c n ∷ ps) (delivered-posts p c ns valid server taken)

  -- With settings that Load accepts and an ntfy server among them, the posts of the deliveries that
  -- a tick, failed or not, leaves behind are, in order, one for each notification that was there
  -- before and one for each watch that the tick reports as fired, whatever becomes of the broker and
  -- of the posts. Each goes to the server's topic, with the title, the text and the other fields
  -- that the notification and the settings call for. The URL of the topic is one that
  -- http.NewRequest takes.
  pub tick-posts :
      (p : Parsers) (c : Config) (poller : Poller) (now : ℕ) (s : Run)
      → IsValid m p c
      → (c.ntfy_server == "") ≡ false
      → well_formed (ntfy_url m f (ntfy_of m f join connect well_formed http c)) ≡ true
      → poller.has_sink ≡ true
      → let after = (tick m poller now s).1 in
        (posts_of (delivered (build_sink m f join connect well_formed http c) after.deliveries)
          ≡ map (post_for m f c) after.deliveries)
        × (map (λ (n : Notification). n.watch_id) after.deliveries
            ≡ map (λ (n : Notification). n.watch_id) s.deliveries ++ after.rep.fired)
  tick-posts p c poller now s valid server taken sink = (
    delivered-posts p c (tick m poller now s).1.deliveries valid server taken,
    tick-told m poller now s sink,
  )
