-- ===== src/JetStream/Resources.antt =====
-- What `ensureJetStreamResources` (orchestrator/orchestrator.go) leaves at a server that nothing else
-- changes meanwhile.
use serverless_gpu_linode.Common.{
  ◌≡◌, ◌≢◌, ◌<◌, ◌∙◌, sym, ap, inl, inr, String, List, [], ◌∷◌, none, arith,
}
use serverless_gpu_linode.Orchestrator.{Config}
use serverless_gpu_linode.JetStream.{
  RetentionPolicy, limits_policy, work_queue_policy, StreamConfig, JetStream, create_stream,
  ensure_stream, ensure_consumer, ensure_jetstream_resources,
}
use serverless_gpu_linode.JetStream.Ensure.{HasStream, ensure_stream_ok}
use serverless_gpu_linode.JetStream.Consumer.{
  IsServer, HasConsumer, ensure_consumer-HasConsumer, ensure_consumer_apart,
}

module _ {W : Type 0} (js : JetStream W) (server : IsServer js) where
  ensure_stream-HasStream :
      (w : W) (name : String) (subjects : List String) (retention : RetentionPolicy)
      → (ensure_stream js w name subjects retention).1 ≡ none
      → HasStream js (ensure_stream js w name subjects retention).0 name subjects retention
  ensure_stream-HasStream w name subjects retention h =
      elim (ensure_stream_ok js server.streams w name subjects retention h) [
        | inl has ↦ has
        | inr (e, x, si, missing, failed, there) ↦
            let (y, gone) = server.creates_or_not w _ missing failed in absurd (cc)
      ]

  ensure_stream_apart :
      (w : W) (name : String) (subjects : List String) (retention : RetentionPolicy)
      (other : String)
      → other ≢ name
      → (js.stream_info (ensure_stream js w name subjects retention).0 other).1
        ≡ (js.stream_info w other).1
  unfolding ensure_stream create_stream
  ensure_stream_apart w name subjects retention other apart =
      let cfg : StreamConfig = record { name = name; subjects = subjects; retention = retention } in
      ground (
        arith,
        server.streams.reads w name,
        server.streams.reads (js.add_stream w cfg).0 name,
        server.adds_apart w cfg other apart,
        server.updates_apart w cfg other apart,
      )

  stages :
      (w : W) (cfg : Config)
      → (ensure_jetstream_resources js w cfg).1 ≡ none
      → let a = ensure_stream js w cfg.stream_name (cfg.subject ∷ []) work_queue_policy in
        let b = ensure_stream js a.0 cfg.dlq_stream (cfg.dlq_subject ∷ []) limits_policy in
        (a.1 ≡ none)
        × (b.1 ≡ none)
        × (ensure_jetstream_resources js w cfg ≡ ensure_consumer js b.0 cfg)
  unfolding ensure_jetstream_resources
  stages w cfg h = ground arith

  moved :
      (v u : W) (name : String) (subjects : List String) (retention : RetentionPolicy)
      → (js.stream_info u name).1 ≡ (js.stream_info v name).1
      → HasStream js v name subjects retention
      → HasStream js u name subjects retention
  moved v u name subjects retention e (si, there, subjects_same, retention_same) =
      (si, e ∙ there, subjects_same, retention_same)

  -- At a server that nothing else changes: if the streams have different names, the
  -- `AckWait` and the limit of deliveries are set, and `ensureJetStreamResources` reports no error, then the server has the stream of the jobs, with
  -- exactly their subject and as a work queue, the dead-letter stream with exactly its subject, and
  -- the consumer, with explicit acknowledgement and the `AckWait`, the limit of deliveries and the
  -- subject of the settings; what is done for one is not undone for another.
  pub ensure_jetstream_resources_ok :
      (w : W) (cfg : Config)
      → cfg.stream_name ≢ cfg.dlq_stream
      → 0 < cfg.consumer_ack_wait
      → 0 < cfg.consumer_max_deliver
      → (ensure_jetstream_resources js w cfg).1 ≡ none
      → let w' = (ensure_jetstream_resources js w cfg).0 in
        HasStream js w' cfg.stream_name (cfg.subject ∷ []) work_queue_policy
        × HasStream js w' cfg.dlq_stream (cfg.dlq_subject ∷ []) limits_policy
        × HasConsumer js w' cfg
  ensure_jetstream_resources_ok w cfg apart waits limits h =
      let (first, second, last) = stages w cfg h in
      let w₁ = (ensure_stream js w cfg.stream_name (cfg.subject ∷ []) work_queue_policy).0 in
      let w₂ = (ensure_stream js w₁ cfg.dlq_stream (cfg.dlq_subject ∷ []) limits_policy).0 in
      let keeps = ensure_consumer_apart js server w₂ cfg in
      let jobs =
        ensure_stream-HasStream w cfg.stream_name (cfg.subject ∷ []) work_queue_policy first in
      let dlq =
        ensure_stream-HasStream w₁ cfg.dlq_stream (cfg.dlq_subject ∷ []) limits_policy second in
      let kept =
        ensure_stream_apart w₁ cfg.dlq_stream (cfg.dlq_subject ∷ []) limits_policy cfg.stream_name
          apart in
      rw last (
        moved w₁ _ cfg.stream_name (cfg.subject ∷ []) work_queue_policy
            (keeps cfg.stream_name ∙ kept) jobs,
        moved w₂ _ cfg.dlq_stream (cfg.dlq_subject ∷ []) limits_policy (keeps cfg.dlq_stream) dlq,
        ensure_consumer-HasConsumer js server w₂ cfg waits limits (sym (ap (λ a. a.1) last) ∙ h),
      )
