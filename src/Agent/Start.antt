-- ===== src/Agent/Start.antt =====
-- nats-agent/agent.go: `Run` with `connectNATS`, `ensureDLQStream`, `subscribe` and
-- `waitForInflight`, and the health check of `startHTTPServer`. What runs between the subscription
-- and the end is in Agent/Slots.antt and Agent/Processing.antt; here it is the way in which it ends.
-- Subscriptions `S` of package nats.go are a parameter.
pub mod Closed
use serverless_gpu_linode.Common.Int.{ℤ, pos_part}
use serverless_gpu_linode.Common.{
  ℕ, String, Bool, not, [], ◌∷◌, Option, none, some, Result, ok, err, if◌then◌else◌,
}
use serverless_gpu_linode.Connection.{Nats, connect_nats}
use serverless_gpu_linode.JetStream.{JetStream, StreamConfig, limits_policy}
use serverless_gpu_linode.Agent.Heartbeat.{adjust_heartbeat}
use serverless_gpu_linode.Settings.Workers.{Settings}

-- The subject, the consumer and the stream of a pull subscription.
pub record Subscriptions (W S : Type 0) : Type 0 where
  pub pull_subscribe : W → String → String → String → W × Result String S
  pub drain : W → S → W × Option String
  pub unsubscribe : W → S → W

pub data RunError : Type 0 where
  connect_failed dlq_stream_failed subscribe_failed consume_failed : String → RunError
  drain_timeout_exceeded : ℤ → RunError

-- How the wait of `Run` ends: a signal, or the end of the consume loop with its error; the Boolean
-- says whether the workers are done before `DrainTimeout`.
pub data Ending : Type 0 where
  signalled : Bool → Ending
  consumed : Option String → Bool → Ending

-- `waitForInflight`.
unfoldable pub wait_for_inflight : Settings → Bool → Option RunError
wait_for_inflight cfg done = if done then none else some (drain_timeout_exceeded cfg.drain_timeout)

-- `/health` of `startHTTPServer`: the status and the text.
unfoldable pub health : Bool → ℕ × String
health is_connected = if not is_connected then (503, "nats-disconnected") else (200, "ok")

module _ {W : Type 0} (js : JetStream W) where
  abbrev pub dlq_stream_config : Settings → StreamConfig
  dlq_stream_config cfg = record {
    name = cfg.dlq_stream;
    subjects = cfg.dlq_subject ∷ [];
    retention = limits_policy;
  }

  -- A stream that there is, or that has appeared where creating it fails, is accepted as it is.
  unfoldable pub ensure_dlq_stream : W → Settings → W × Option String
  ensure_dlq_stream w cfg =
      let (w₁, r₁) = js.stream_info w cfg.dlq_stream in
      elim r₁ [
        | ok _ ↦ (w₁, none)
        | err _ ↦
            let (w₂, r₂) = js.add_stream w₁ (dlq_stream_config cfg) in
            elim r₂ [
              | none ↦ (w₂, none)
              | some e ↦
                  let (w₃, r₃) = js.stream_info w₂ cfg.dlq_stream in
                  elim r₃ [ ok _ ↦ (w₃, none) | err _ ↦ (w₃, some e) ]
            ]
      ]

  -- The subscription, with the interval of the heartbeats.
  unfoldable pub subscribe :
      {S : Type 0} → Subscriptions W S → W → Settings → W × Result String (S × ℕ)
  unfolding adjust_heartbeat
  subscribe subs w cfg =
      let interval : ℕ = pos_part cfg.heartbeat_interval in
      let (w₁, r₁) = subs.pull_subscribe w cfg.subject cfg.consumer_name cfg.stream_name in
      elim r₁ [
        | err e ↦ (w₁, err e)
        | ok sub ↦
            let (w₂, r₂) = js.consumer_info w₁ cfg.stream_name cfg.consumer_name in
            elim r₂ [
              | err _ ↦ (w₂, ok (sub, adjust_heartbeat interval none))
              | ok ci ↦ (w₂, ok (sub, adjust_heartbeat interval (some ci.config.ack_wait)))
            ]
      ]

module _ {W C S : Type 0} (nats : Nats W C (JetStream W)) (subs : Subscriptions W S) where
  -- `connectNATS`.
  abbrev pub connect_agent : W → Settings → W × Result String (C × JetStream W)
  connect_agent w cfg = connect_nats nats w cfg.nats_url none

  -- The end of `Run`, with its deferred calls.
  unfoldable pub stop : W → Settings → C → S → Ending → W × Option RunError
  unfolding wait_for_inflight
  stop w cfg nc sub (signalled done) =
      let (w₁, _) = subs.drain w sub in
      (nats.close (subs.unsubscribe w₁ sub) nc, wait_for_inflight cfg done)
  stop w cfg nc sub (consumed none done) =
      (nats.close (subs.unsubscribe w sub) nc, wait_for_inflight cfg done)
  stop w cfg nc sub (consumed (some e) done) =
      (nats.close (subs.unsubscribe w sub) nc, some (consume_failed e))

  unfoldable pub run_agent : W → Settings → Ending → W × Option RunError
  unfolding connect_nats ensure_dlq_stream subscribe stop
  run_agent w cfg ending =
      let (w₁, r₁) = connect_agent w cfg in
      elim r₁ [
        | err e ↦ (w₁, some (connect_failed e))
        | ok (nc, js) ↦
            let (w₂, r₂) = ensure_dlq_stream js w₁ cfg in
            elim r₂ [
              | some e ↦ (nats.close w₂ nc, some (dlq_stream_failed e))
              | none ↦
                  let (w₃, r₃) = subscribe js subs w₂ cfg in
                  elim r₃ [
                    | err e ↦ (nats.close w₃ nc, some (subscribe_failed e))
                    | ok (sub, _) ↦ stop w₃ cfg nc sub ending
                  ]
            ]
      ]
