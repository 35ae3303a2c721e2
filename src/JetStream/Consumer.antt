-- ===== src/JetStream/Consumer.antt =====
-- What `ensureConsumer` (orchestrator/orchestrator.go) leaves at a server that nothing else changes
-- meanwhile. What it relies on of package nats.go, beside what `ensureStream` does: asking for a
-- consumer changes nothing, one that was created or updated without an error has the configuration
-- that was sent, if its `AckWait` and its limit of deliveries are set (the server puts its own values
-- in the place of zero), a creation that failed has created nothing, and a call for one stream or consumer
-- leaves the other streams as they are.
use mathlib.Core.Path.{subst}
use serverless_gpu_linode.Common.{
  ◌≡◌, ◌≢◌, ◌<◌, sym, ap, inl, inr, String, false, Option, none, some, ok, err, arith, Result-cases,
  Option-cases, Bool-cases, str_eq_iff,
}
use serverless_gpu_linode.Orchestrator.{Config}
use serverless_gpu_linode.JetStream.{
  ack_explicit, StreamConfig, ConsumerConfig, ConsumerInfo, JetStream, EnsureError, create_consumer,
  ensure_consumer, consumer_needs_update, desired_consumer_config,
}
use serverless_gpu_linode.JetStream.Ensure.{IsDocumented}

module _ {W : Type 0} (js : JetStream W) where
  pub record IsServer : Type 0 where
    pub streams : IsDocumented js
    pub creates_or_not :
        (w : W) (cfg : StreamConfig) {e x : String}
        → (js.stream_info w cfg.name).1 ≡ err e
        → (js.add_stream w cfg).1 ≡ some x
        → (y : String) × ((js.stream_info (js.add_stream w cfg).0 cfg.name).1 ≡ err y)
    pub adds_apart :
        (w : W) (cfg : StreamConfig) (other : String)
        → other ≢ cfg.name
        → (js.stream_info (js.add_stream w cfg).0 other).1 ≡ (js.stream_info w other).1
    pub updates_apart :
        (w : W) (cfg : StreamConfig) (other : String)
        → other ≢ cfg.name
        → (js.stream_info (js.update_stream w cfg).0 other).1 ≡ (js.stream_info w other).1
    pub reads_consumer : (w : W) (stream name : String) → (js.consumer_info w stream name).0 ≡ w
    pub adds_consumer :
        (w : W) (stream : String) (cfg : ConsumerConfig)
        → 0 < cfg.ack_wait
        → 0 < cfg.max_deliver
        → (js.add_consumer w stream cfg).1 ≡ none
        → (ci : ConsumerInfo) × ((js.consumer_info
              (js.add_consumer w stream cfg).0
              stream
              cfg.durable).1
            ≡ ok ci)
          × (ci.config ≡ cfg)
    pub updates_consumer :
        (w : W) (stream : String) (cfg : ConsumerConfig)
        → 0 < cfg.ack_wait
        → 0 < cfg.max_deliver
        → (js.update_consumer w stream cfg).1 ≡ none
        → (ci : ConsumerInfo) × ((js.consumer_info
              (js.update_consumer w stream cfg).0
              stream
              cfg.durable).1
            ≡ ok ci)
          × (ci.config ≡ cfg)
    pub creates_consumer_or_not :
        (w : W) (stream : String) (cfg : ConsumerConfig) {e x : String}
        → (js.consumer_info w stream cfg.durable).1 ≡ err e
        → (js.add_consumer w stream cfg).1 ≡ some x
        → (y : String) × ((js.consumer_info (js.add_consumer w stream cfg).0 stream cfg.durable).1
            ≡ err y)
    pub adds_consumer_apart :
        (w : W) (stream : String) (cfg : ConsumerConfig) (other : String)
        → (js.stream_info (js.add_consumer w stream cfg).0 other).1 ≡ (js.stream_info w other).1
    pub updates_consumer_apart :
        (w : W) (stream : String) (cfg : ConsumerConfig) (other : String)
        → (js.stream_info (js.update_consumer w stream cfg).0 other).1 ≡ (js.stream_info w other).1

  -- The server has the consumer, with the settings that are compared.
  pub record HasConsumer (w : W) (cfg : Config) : Type 0 where
    pub info : ConsumerInfo
    pub there : (js.consumer_info w cfg.stream_name cfg.consumer_name).1 ≡ ok info
    pub explicit : info.config.ack_policy ≡ ack_explicit
    pub ack_wait : info.config.ack_wait ≡ cfg.consumer_ack_wait
    pub max_deliver : info.config.max_deliver ≡ cfg.consumer_max_deliver
    pub filter : info.config.filter_subject ≡ cfg.subject

  module _ (server : IsServer) where
    up_to_date :
        (ci : ConsumerConfig) (cfg : Config)
        → consumer_needs_update ci (desired_consumer_config cfg) ≡ false
        → (ci.ack_policy ≡ ack_explicit)
          × (ci.ack_wait ≡ cfg.consumer_ack_wait)
          × (ci.max_deliver ≡ cfg.consumer_max_deliver)
          × (ci.filter_subject ≡ cfg.subject)
    unfolding desired_consumer_config
    up_to_date ci cfg h = ground (arith, str_eq_iff ci.filter_subject cfg.subject)

    sent :
        (w : W) (cfg : Config) (ci : ConsumerInfo)
        → (js.consumer_info w cfg.stream_name cfg.consumer_name).1 ≡ ok ci
        → ci.config ≡ desired_consumer_config cfg
        → HasConsumer w cfg
    unfolding desired_consumer_config
    sent w cfg ci there same = record {
      info = ci;
      there = there;
      explicit = ap (λ c. c.ack_policy) same;
      ack_wait = ap (λ c. c.ack_wait) same;
      max_deliver = ap (λ c. c.max_deliver) same;
      filter = ap (λ c. c.filter_subject) same;
    }

    -- What is promised of an answer.
    abbrev pub ConsumerPromised : Config → W × Option EnsureError → Type 0
    ConsumerPromised cfg a = a.1 ≡ none → HasConsumer a.0 cfg

    create_consumer-HasConsumer :
        (w : W) (cfg : Config) {e : String}
        → 0 < cfg.consumer_ack_wait
        → 0 < cfg.consumer_max_deliver
        → (js.consumer_info w cfg.stream_name cfg.consumer_name).1 ≡ err e
        → ConsumerPromised cfg (create_consumer js w cfg)
    unfolding create_consumer desired_consumer_config
    create_consumer-HasConsumer w cfg waits limits missing h =
        let desired : ConsumerConfig = desired_consumer_config cfg in
        elim (Option-cases (js.add_consumer w cfg.stream_name desired).1) [
          | inl added ↦
              let (ci, there, same) =
                server.adds_consumer w cfg.stream_name desired waits limits added in
              let e : (create_consumer js w cfg).0 ≡ (js.add_consumer w cfg.stream_name desired).0 =
                ground (arith, added) in
              subst (λ v. HasConsumer v cfg) (sym e) (sent _ cfg ci there same)
          | inr (x, failed) ↦
              let (y, gone) =
                server.creates_consumer_or_not w cfg.stream_name desired missing failed in
              absurd (ground (arith, failed, gone, h))
        ]

    pub ensure_consumer-HasConsumer :
        (w : W) (cfg : Config)
        → 0 < cfg.consumer_ack_wait
        → 0 < cfg.consumer_max_deliver
        → ConsumerPromised cfg (ensure_consumer js w cfg)
    unfolding ensure_consumer desired_consumer_config
    ensure_consumer-HasConsumer w cfg waits limits h =
        let desired : ConsumerConfig = desired_consumer_config cfg in
        let same_world = server.reads_consumer w cfg.stream_name cfg.consumer_name in
        elim (Result-cases (js.consumer_info w cfg.stream_name cfg.consumer_name).1) [
          | inr (x, missing) ↦
              let e : ensure_consumer js w cfg ≡ create_consumer js w cfg =
                ground (arith, same_world, missing) in
              subst (ConsumerPromised cfg) (sym e)
                (create_consumer-HasConsumer w cfg waits limits missing) h
          | inl (ci, there) ↦ elim (Bool-cases (consumer_needs_update ci.config desired)) [
            | inr fits ↦
                let e : (ensure_consumer js w cfg).0 ≡ w =
                  ground (arith, same_world, there, fits) in
                let (policy, wait, deliver, filter) = up_to_date ci.config cfg fits in
                subst (λ v. HasConsumer v cfg) (sym e)
                  (record {
                    info = ci;
                    there = there;
                    explicit = policy;
                    ack_wait = wait;
                    max_deliver = deliver;
                    filter = filter;
                  })
            | inl stale ↦ elim (Option-cases (js.update_consumer w cfg.stream_name desired).1) [
              | inl updated ↦
                  let (after, now, same) =
                    server.updates_consumer w cfg.stream_name desired waits limits updated in
                  let e : (ensure_consumer js w cfg).0
                      ≡ (js.update_consumer w cfg.stream_name desired).0 =
                    ground (arith, same_world, there, stale, updated) in
                  subst (λ v. HasConsumer v cfg) (sym e) (sent _ cfg after now same)
              | inr (x, failed) ↦ absurd (ground (arith, same_world, there, stale, failed, h))
            ]
          ]
        ]

    pub ensure_consumer_apart :
        (w : W) (cfg : Config) (other : String)
        → (js.stream_info (ensure_consumer js w cfg).0 other).1 ≡ (js.stream_info w other).1
    unfolding ensure_consumer create_consumer
    ensure_consumer_apart w cfg other =
        let desired = desired_consumer_config cfg in
        ground (
          arith,
          server.reads_consumer w cfg.stream_name cfg.consumer_name,
          server.reads_consumer (js.add_consumer w cfg.stream_name desired).0 cfg.stream_name
              cfg.consumer_name,
          server.adds_consumer_apart w cfg.stream_name desired other,
          server.updates_consumer_apart w cfg.stream_name desired other,
        )
