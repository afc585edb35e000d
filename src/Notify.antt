-- ===== src/Notify.antt =====
-- internal/notify/notify.go and ntfy.go: what a fired watch tells its subscribers, and the sinks. A
-- sink gives what it sent, and the error it returned, if any; what a broker or a server answers is
-- a function.
pub mod Payloads
pub use Payloads.*
pub mod Fanout
pub mod Wire
use scootless.Base.{
  ℕ, suc, ◌-◌, Bool, true, false, not, ◌&&◌, ◌||◌, String, ◌<>◌, List, [], ◌∷◌, ◌++◌, map, Option,
  none, some, Result, ok, err, ◌==◌, string_eq, nat_eq, if◌then◌else◌, leb, length,
}
use scootless.Base.Int.{ℤ, pos, negsuc, ltb_ℤ}
use scootless.Base.Text.{trim_suffix, trim_right, or_else}
use scootless.Float.{Float64, Math}
use scootless.Geo.{compass}
use scootless.Entur.Vehicles
use scootless.Store.Schema
use scootless.Store.Schema.{Kind, appearance, scarcity, unknown_kind}
use scootless.Poll.Run.{Notification}
use Prim.Native.Char.{code}

-- What comes first: the token of a message, the end of the context, or ten seconds.
pub data Ack : Type 0 where
  acked : Option String → Ack
  context_done no_ack : Ack

-- `MQTT`: the broker gives an answer to each message.
pub record Mqtt : Type 0 where
  pub broker : Message → Ack
  pub prefix : String

-- `New`
new_mqtt : (Message → Ack) → String → Mqtt
unfolding trim_suffix
new_mqtt broker prefix = record {
  broker = broker;
  prefix = trim_suffix (if prefix == "" then "scootless" else prefix) "/";
}

abbrev ack_error : Ack → Option SinkError
ack_error (acked none) = none
ack_error (acked (some e)) = some (broker_error e)
ack_error context_done = some cancelled
ack_error no_ack = some timed_out

-- `publish`
abbrev publish_mqtt : Mqtt → String → String → List Message × Option SinkError
publish_mqtt q topic body =
    (mqtt topic 1 false body ∷ [], ack_error (q.broker (mqtt topic 1 false body)))

abbrev pub publish_body : Mqtt → String → Option String → List Message × Option SinkError
publish_body q topic none = ([], some encoding)
publish_body q topic (some body) = publish_mqtt q topic body

-- `Options`, of which the log is left out.
pub record Options : Type 0 where
  pub broker : String
  pub client_id : String
  pub username : String
  pub password : String
  pub prefix : String

-- The outcome of connecting within fifteen seconds.
pub data Connection : Type 0 where
  no_answer : Connection
  refused_by : String → Connection
  connected : (Message → Ack) → Connection

abbrev dialled : Options → Connection → Result SinkError Mqtt
unfolding new_mqtt
dialled o no_answer = err timed_out
dialled o (refused_by e) = err (broker_error e)
dialled o (connected broker) = ok (new_mqtt broker o.prefix)

-- `Dial`
unfoldable pub dial : (Options → Connection) → Options → Result SinkError Mqtt
unfolding new_mqtt
dial connect o = if o.broker == "" then err no_broker else dialled o (connect o)

-- `LogSink`
abbrev pub log_sink : Sink
log_sink n =
    (logged n.watch_id (kind_text n.kind) n.fence.name n.count (length n.vehicles) ∷ [], none)

-- What an ntfy server answers.
pub data Response : Type 0 where
  failed : String → Response
  replied : ℕ → Response

-- `Ntfy`. `well_formed` is whether `http.NewRequest` takes the URL.
pub record Ntfy : Type 0 where
  pub server : String
  pub topic : String
  pub token : String
  pub priority : ℤ
  pub well_formed : String → Bool
  pub http : Post → Response

-- `priority`
abbrev pub priority_of : ℤ → Payload → ℤ
priority_of priority p =
    if p.kind == "scarcity" then pos 3 else if ltb_ℤ (pos 0) priority then priority else pos 4

-- `firstAppLink`
unfoldable pub first_app_link : List Vehicle → Option String
first_app_link [] = none
first_app_link (v ∷ vs) =
    let rest = first_app_link vs in if v.app_link == "" then rest else some v.app_link

abbrev response_error : Response → Option SinkError
response_error (failed e) = some (unreachable e)
response_error (replied status) = if leb 300 status then some (refused status) else none

module _ (m : Math) (f : Format) where
  -- `ntfyTitle`
  abbrev ntfy_title : Payload → List Vehicle → String
  ntfy_title p [] = "Scooters running low"
  ntfy_title p (v ∷ vs) =
      if p.kind == "scarcity"
      then f.whole (pos p.count) <> " left near " <> p.fence.name
      else v.operator <> " " <> f.whole v.distance_m <> " m away"

  abbrev battery : Option Float64 → String
  battery none = ""
  battery (some b) = " · " <> f.fixed 0 b <> "%"

  abbrev body_line : Vehicle → String
  body_line v =
      v.operator
      <> " · "
      <> f.whole v.distance_m
      <> " m "
      <> or_else "" v.bearing
      <> " · "
      <> f.fixed 1 v.range_km
      <> " km range"
      <> battery v.battery_pct

  -- The loop of `ntfyBody`, with the lines that may still be written.
  unfoldable pub body_lines : ℕ → List Vehicle → String
  body_lines left [] = ""
  body_lines ℕ.zero (v ∷ vs) = "and " <> f.whole (pos (length (v ∷ vs))) <> " more"
  body_lines (suc left) (v ∷ vs) = body_line v <> "\n" <> body_lines left vs

  -- `ntfyBody`
  unfoldable pub ntfy_body : Payload → List Vehicle → String
  unfolding body_lines trim_right
  ntfy_body p [] =
      f.whole (pos p.count) <> " within " <> f.whole p.fence.radius_m <> " m of " <> p.fence.name
  ntfy_body p (v ∷ vs) = trim_right (λ c. code c == 10) (body_lines 5 (v ∷ vs))

  unfoldable pub ntfy_url : Ntfy → String
  unfolding trim_suffix
  ntfy_url s = trim_suffix s.server "/" <> "/" <> s.topic

  unfoldable pub ntfy_post : Ntfy → Payload → Post
  unfolding ntfy_body ntfy_url first_app_link
  ntfy_post s p = record {
    url = ntfy_url s;
    title = ntfy_title p p.vehicles;
    tags = "scooter";
    priority = priority_of s.priority p;
    authorization = if s.token == "" then none else some ("Bearer " <> s.token);
    click = first_app_link p.vehicles;
    body = ntfy_body p p.vehicles;
  }

  unfoldable pub post_payload : Ntfy → Payload → List Message × Option SinkError
  unfolding ntfy_post
  post_payload s p =
      let post = ntfy_post s p in
      if s.server == "" || s.topic == ""
      then ([], some not_configured)
      else if s.well_formed post.url
      then (posted post ∷ [], response_error (s.http post))
      else ([], some bad_request)

  -- `Ntfy.Publish`
  unfoldable pub publish_ntfy : Ntfy → Sink
  unfolding post_payload payload_of
  publish_ntfy s n = post_payload s (payload_of m n)

  -- `MQTT.Publish`
  unfoldable pub publish_fired : Mqtt → Sink
  unfolding payload_of
  publish_fired q n =
      publish_body q (q.prefix <> "/watch/" <> n.watch_id <> "/fired") (f.marshal (payload_of m n))

  -- `MQTT.Sample`
  unfoldable pub publish_sample :
      Mqtt → String → List (String × ℕ) → ℕ → List Message × Option SinkError
  publish_sample q fence_id counts at =
      publish_body q (q.prefix <> "/fence/" <> fence_id <> "/sample")
        (f.marshal_sample fence_id counts at)

-- `errors.Join` is a parameter.
module _ (join : List SinkError → SinkError) where
  -- `joinErrors`
  abbrev pub join_errors : List SinkError → Option SinkError
  join_errors [] = none
  join_errors (e ∷ []) = some e
  join_errors (e ∷ e' ∷ es) = some (join (e ∷ e' ∷ es))

  -- What one sink of a `Multi` sends, and how it fails; a nil sink is skipped.
  abbrev pub sink_result : Option Sink → Notification → List Message × Option SinkError
  sink_result none n = ([], none)
  sink_result (some s) n = s n

  abbrev pub with_failure : Option SinkError → List SinkError → List SinkError
  with_failure none es = es
  with_failure (some e) es = e ∷ es

  -- All sinks are called at once; their messages stand in the order of the sinks.
  unfoldable pub sent_by : List (Option Sink) → Notification → List Message
  sent_by [] n = []
  sent_by (s ∷ sinks) n = (sink_result s n).0 ++ sent_by sinks n

  pub failures : List (Option Sink) → Notification → List SinkError
  failures [] n = []
  failures (s ∷ sinks) n = with_failure (sink_result s n).1 (failures sinks n)

  -- `Multi.Publish`
  unfoldable pub publish_multi : List (Option Sink) → Sink
  unfolding sent_by failures
  publish_multi sinks n = (sent_by sinks n, join_errors (failures sinks n))
