-- ===== src/Daemon/Delivery.antt =====
-- That a configured phone is told: cmd/scootlessd/main.go with internal/config and internal/notify.
use mathlib.Core.List.{append-nil, append_assoc}
use scootless.Base.{
  ◌≡◌, refl, sym, ap, ◌∙◌, Bool, true, false, String, List, [], ◌∷◌, ◌++◌, Option, some, ◌==◌,
  string_eq, arith,
}
use scootless.Base.Int.{ℤ, pos, ◌≤ℤ◌}
use scootless.Float.{Math}
use scootless.Poll.Run.{Notification}
use scootless.Config.{Config, Parsers}
use scootless.Config.Settings.{IsValid}
use scootless.Notify.{
  Format, Sink, SinkError, Options, Connection, Post, Response, Message, posted, Payload,
  payload_of, ntfy_url, ntfy_post, post_payload, publish_ntfy, priority_of, log_sink, sent_by,
  publish_multi,
}
use scootless.Notify.Fanout.{sent_by-append}
use scootless.Daemon.{broker_sinks, ntfy_of, with_log, build_sink}

priority_of-bounds :
    (n : ℤ) (p : Payload)
    → (pos 0 ≤ℤ n) × (n ≤ℤ pos 5)
    → (pos 1 ≤ℤ priority_of n p) × (priority_of n p ≤ℤ pos 5)
priority_of-bounds n p h = (ground arith, ground arith)

module _ (m : Math) (f : Format) (join : List SinkError → SinkError)
    (connect : Options → Connection) (well_formed : String → Bool) (http : Post → Response) where
  publish_ntfy-posts :
      (c : Config) (n : Notification)
      → (c.ntfy_server == "") ≡ false
      → (c.ntfy_topic == "") ≡ false
      → let s = ntfy_of m f join connect well_formed http c in
        well_formed (ntfy_url m f s) ≡ true
        → (publish_ntfy m f s n).0 ≡ posted (ntfy_post m f s (payload_of m n)) ∷ []
  unfolding publish_ntfy post_payload ntfy_post
  publish_ntfy-posts c n server topic taken = rw (server, topic, taken)

  with_log-sent :
      (sinks : List (Option Sink)) (s : Sink) (n : Notification)
      → (with_log m f join connect well_formed http (sinks ++ some s ∷ []) n).0
        ≡ sent_by join sinks n ++ ((s n).0 ++ (log_sink n).0)
  unfolding publish_multi
  with_log-sent [] s n = refl
  with_log-sent (x ∷ sinks) s n =
      sent_by-append join ((x ∷ sinks) ++ some s ∷ []) (some log_sink ∷ []) n
      ∙ ap (λ ms. ms ++ (log_sink n).0)
          (sent_by-append join (x ∷ sinks) (some s ∷ []) n
            ∙ ap (λ ms. sent_by join (x ∷ sinks) n ++ ms) (append-nil (s n).0))
      ∙ append_assoc (sent_by join (x ∷ sinks) n) (s n).0 (log_sink n).0

  pub build_sink-sent :
      (p : Parsers) (c : Config) (n : Notification)
      → IsValid m p c
      → (c.ntfy_server == "") ≡ false
      → well_formed (ntfy_url m f (ntfy_of m f join connect well_formed http c)) ≡ true
      → (build_sink m f join connect well_formed http c n).0
        ≡ sent_by join (broker_sinks m f join connect well_formed http c) n
          ++ (posted (ntfy_post m f (ntfy_of m f join connect well_formed http c) (payload_of m n))
              ∷ (log_sink n).0)
  unfolding build_sink
  build_sink-sent p c n valid server taken =
      let brokers = broker_sinks m f join connect well_formed http c in
      let s = ntfy_of m f join connect well_formed http c in
      let told : (build_sink m f join connect well_formed http c n).0
          ≡ sent_by join brokers n ++ ((publish_ntfy m f s n).0 ++ (log_sink n).0) =
        rw server (with_log-sent brokers (publish_ntfy m f s) n) in
      told
      ∙ ap (λ ms. sent_by join brokers n ++ (ms ++ (log_sink n).0))
          (publish_ntfy-posts c n server (sym valid.ntfy ∙ server) taken)

  -- With settings that Load accepts and an ntfy server among them, a notification is posted to that
  -- server's topic and logged, whether or not there is a broker, it can be reached and it takes the
  -- message; the post has a priority from 1 to 5. The URL of the topic is one that http.NewRequest
  -- takes.
  build_sink-posts :
      (p : Parsers) (c : Config) (n : Notification)
      → IsValid m p c
      → (c.ntfy_server == "") ≡ false
      → well_formed (ntfy_url m f (ntfy_of m f join connect well_formed http c)) ≡ true
      → let s = ntfy_of m f join connect well_formed http c in
        let post = ntfy_post m f s (payload_of m n) in
        (front : List Message) × ((build_sink m f join connect well_formed http c n).0
          ≡ front ++ (posted post ∷ (log_sink n).0))
        × (post.url ≡ ntfy_url m f s)
        × ((pos 1 ≤ℤ post.priority) × (post.priority ≤ℤ pos 5))
  unfolding ntfy_post
  build_sink-posts p c n valid server taken = (
    sent_by join (broker_sinks m f join connect well_formed http c) n,
    build_sink-sent p c n valid server taken,
    refl,
    priority_of-bounds c.ntfy_priority (payload_of m n) valid.priority,
  )
