-- ===== src/JetStream.antt =====
-- orchestrator/orchestrator.go, what it asks of JetStream: `getQueueStats`, `sameSubjects`,
-- `ensureStream`, `ensureConsumer` and `ensureJetStreamResources`. The context of package nats.go
-- is a parameter; a call takes the world and gives it back. The server's counts are below 2^63, so
-- that `int(…)` keeps them.
pub mod Ensure
pub mod Consumer
pub mod Resources
use serverless_gpu_linode.Common.{
  ℕ, String, Bool, true, false, not, ◌&&◌, ◌||◌, List, [], ◌∷◌, Option, none, some, Result, ok, err,
  ◌==◌, if◌then◌else◌, str_eq,
}
use serverless_gpu_linode.Orchestrator.{Config, QueueStats}

pub data RetentionPolicy : Type 0 where
  limits_policy interest_policy work_queue_policy : RetentionPolicy

abbrev pub same_retention : RetentionPolicy → RetentionPolicy → Bool
same_retention limits_policy limits_policy = true
same_retention interest_policy interest_policy = true
same_retention work_queue_policy work_queue_policy = true
same_retention _ _ = false

pub data AckPolicy : Type 0 where
  ack_none ack_all ack_explicit : AckPolicy

abbrev pub same_ack_policy : AckPolicy → AckPolicy → Bool
same_ack_policy ack_none ack_none = true
same_ack_policy ack_all ack_all = true
same_ack_policy ack_explicit ack_explicit = true
same_ack_policy _ _ = false

-- `Storage` is `FileStorage` in every configuration that is sent.
pub record StreamConfig : Type 0 where
  pub name : String
  pub subjects : List String
  pub retention : RetentionPolicy

pub record ConsumerConfig : Type 0 where
  pub durable : String
  pub ack_policy : AckPolicy
  pub ack_wait : ℕ
  pub max_deliver : ℕ
  pub filter_subject : String

pub record ConsumerInfo : Type 0 where
  pub config : ConsumerConfig
  pub num_pending : ℕ
  pub num_ack_pending : ℕ

pub record StreamInfo : Type 0 where
  pub config : StreamConfig
  pub msgs : ℕ

pub record JetStream (W : Type 0) : Type 0 where
  pub stream_info : W → String → W × Result String StreamInfo
  pub add_stream : W → StreamConfig → W × Option String
  pub update_stream : W → StreamConfig → W × Option String
  pub consumer_info : W → String → String → W × Result String ConsumerInfo
  pub add_consumer : W → String → ConsumerConfig → W × Option String
  pub update_consumer : W → String → ConsumerConfig → W × Option String

-- The errors: a setting that is missing, or a call that failed, with the name and the cause.
pub data EnsureError : Type 0 where
  stream_name_required subject_required consumer_name_required : EnsureError
  dlq_stream_required dlq_subject_required : EnsureError
  create_stream_failed update_stream_failed : String → String → EnsureError
  create_consumer_failed update_consumer_failed : String → String → EnsureError

-- The loop of `sameSubjects`; where the lengths differ it is not run, and the answer is false.
unfoldable pub same_subjects : List String → List String → Bool
same_subjects [] [] = true
same_subjects (a ∷ as') (b ∷ bs) =
    let later = same_subjects as' bs in if str_eq a b then later else false
same_subjects _ _ = false

unfoldable pub desired_consumer_config : Config → ConsumerConfig
desired_consumer_config cfg = record {
  durable = cfg.consumer_name;
  ack_policy = ack_explicit;
  ack_wait = cfg.consumer_ack_wait;
  max_deliver = cfg.consumer_max_deliver;
  filter_subject = cfg.subject;
}

abbrev pub consumer_needs_update : ConsumerConfig → ConsumerConfig → Bool
consumer_needs_update current desired =
    not (same_ack_policy current.ack_policy desired.ack_policy)
    || (not (current.ack_wait == desired.ack_wait)
        || (not (current.max_deliver == desired.max_deliver)
            || not (str_eq current.filter_subject desired.filter_subject)))

module _ {W : Type 0} (js : JetStream W) where
  -- A stream that is missing is created; where that fails, one that has appeared is accepted.
  create_stream : W → StreamConfig → W × Option EnsureError
  create_stream w cfg =
      let (w₁, r₁) = js.add_stream w cfg in
      elim r₁ [
        | none ↦ (w₁, none)
        | some e ↦
            let (w₂, r₂) = js.stream_info w₁ cfg.name in
            elim r₂ [ ok _ ↦ (w₂, none) | err _ ↦ (w₂, some (create_stream_failed cfg.name e)) ]
      ]

  unfoldable pub ensure_stream : W → String → List String → RetentionPolicy → W × Option EnsureError
  unfolding create_stream same_subjects
  ensure_stream w name subjects retention =
      let cfg : StreamConfig = record { name = name; subjects = subjects; retention = retention } in
      let (w₁, r₁) = js.stream_info w name in
      elim r₁ [
        | err _ ↦ create_stream w₁ cfg
        | ok si ↦
            if same_retention si.config.retention retention
              && same_subjects si.config.subjects subjects
            then (w₁, none)
            else (let (w₂, r₂) = js.update_stream w₁ cfg in
                elim r₂ [ none ↦ (w₂, none) | some e ↦ (w₂, some (update_stream_failed name e)) ])
      ]

  create_consumer : W → Config → W × Option EnsureError
  unfolding desired_consumer_config
  create_consumer w cfg =
      let (w₁, r₁) = js.add_consumer w cfg.stream_name (desired_consumer_config cfg) in
      elim r₁ [
        | none ↦ (w₁, none)
        | some e ↦
            let (w₂, r₂) = js.consumer_info w₁ cfg.stream_name cfg.consumer_name in
            elim r₂ [
              | ok _ ↦ (w₂, none)
              | err _ ↦ (w₂, some (create_consumer_failed cfg.consumer_name e))
            ]
      ]

  unfoldable pub ensure_consumer : W → Config → W × Option EnsureError
  unfolding create_consumer desired_consumer_config
  ensure_consumer w cfg =
      let desired : ConsumerConfig = desired_consumer_config cfg in
      let (w₁, r₁) = js.consumer_info w cfg.stream_name cfg.consumer_name in
      elim r₁ [
        | err _ ↦ create_consumer w₁ cfg
        | ok ci ↦
            if not (consumer_needs_update ci.config desired)
            then (w₁, none)
            else (let (w₂, r₂) = js.update_consumer w₁ cfg.stream_name desired in
                elim r₂ [
                  | none ↦ (w₂, none)
                  | some e ↦ (w₂, some (update_consumer_failed cfg.consumer_name e))
                ])
      ]

  unfoldable pub ensure_jetstream_resources : W → Config → W × Option EnsureError
  unfolding ensure_stream ensure_consumer
  ensure_jetstream_resources w cfg =
      if str_eq cfg.stream_name ""
      then (w, some stream_name_required)
      else (if str_eq cfg.subject ""
          then (w, some subject_required)
          else (if str_eq cfg.consumer_name ""
              then (w, some consumer_name_required)
              else (if str_eq cfg.dlq_stream ""
                  then (w, some dlq_stream_required)
                  else (if str_eq cfg.dlq_subject ""
                      then (w, some dlq_subject_required)
                      else (let (w₁, r₁) =
                            ensure_stream w cfg.stream_name (cfg.subject ∷ []) work_queue_policy in
                          elim r₁ [
                            | some e ↦ (w₁, some e)
                            | none ↦
                                let (w₂, r₂) =
                                  ensure_stream w₁ cfg.dlq_stream (cfg.dlq_subject ∷ [])
                                    limits_policy in
                                elim r₂ [ some e ↦ (w₂, some e) | none ↦ ensure_consumer w₂ cfg ]
                          ])))))

  -- It never fails: without the consumer it falls back on the stream, and without that, or on a
  -- stream that keeps processed messages, on zero.
  unfoldable pub get_queue_stats : W → Config → W × QueueStats
  get_queue_stats w cfg =
      let (w₁, r₁) = js.consumer_info w cfg.stream_name cfg.consumer_name in
      elim r₁ [
        | ok ci ↦ (w₁, record { pending = ci.num_pending; acks_pending = ci.num_ack_pending })
        | err _ ↦
            let (w₂, r₂) = js.stream_info w₁ cfg.stream_name in
            elim r₂ [
              | err _ ↦ (w₂, record { pending = 0; acks_pending = 0 })
              | ok si ↦
                  if not (same_retention si.config.retention work_queue_policy)
                  then (w₂, record { pending = 0; acks_pending = 0 })
                  else (w₂, record { pending = si.msgs; acks_pending = 0 })
            ]
      ]
