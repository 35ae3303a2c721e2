-- ===== src/Tests/Streams.antt =====
-- A server of streams and consumers, and what the orchestrator leaves there.
use serverless_gpu_linode.Common.{
  ◌≡◌, ◌≢◌, ◌∙◌, ap, refl, String, [], ◌∷◌, Option, none, some, Result, ok, err, arith,
  if◌then◌else◌, str_eq, str_eq_iff,
}
use serverless_gpu_linode.JetStream.{
  StreamConfig, StreamInfo, ConsumerConfig, ConsumerInfo, JetStream, work_queue_policy,
  limits_policy, ensure_stream, ensure_consumer, same_subjects, ensure_jetstream_resources,
}
use serverless_gpu_linode.JetStream.Ensure.{HasStream}
use serverless_gpu_linode.JetStream.Consumer.{IsServer, HasConsumer}
use serverless_gpu_linode.JetStream.Resources.{ensure_jetstream_resources_ok}
use serverless_gpu_linode.Tests.Lifetimes.{cfg}

record Server : Type 0 where
  streams : String → Option StreamConfig
  consumers : String → String → Option ConsumerConfig

abbrev put {ℓ} : {A : Type ℓ} → (String → A) → String → A → String → A
put f key value other = if str_eq other key then value else f other

abbrev describe_stream : Option StreamConfig → Result String StreamInfo
describe_stream none = err "stream not found"
describe_stream (some cfg) = ok (record { config = cfg; msgs = 0 })

abbrev describe_consumer : Option ConsumerConfig → Result String ConsumerInfo
describe_consumer none = err "consumer not found"
describe_consumer (some cfg) = ok (record { config = cfg; num_pending = 0; num_ack_pending = 0 })

abbrev put_stream : Server → StreamConfig → Server × Option String
put_stream w cfg = (record w { streams = put w.streams cfg.name (some cfg) }, none)

abbrev put_consumer : Server → String → ConsumerConfig → Server × Option String
put_consumer w stream cfg = (
  record w { consumers = put w.consumers stream (put (w.consumers stream) cfg.durable (some cfg)) },
  none,
)

abbrev many_streams : JetStream Server
many_streams = record {
  stream_info = λ w name. (w, describe_stream (w.streams name));
  add_stream = put_stream;
  update_stream = put_stream;
  consumer_info = λ w stream name. (w, describe_consumer (w.consumers stream name));
  add_consumer = put_consumer;
  update_consumer = put_consumer;
}

put_there {ℓ} :
    {A : Type ℓ} (f : String → A) (key : String) (value : A) → put f key value key ≡ value
put_there f key value = ground (arith, str_eq_iff key key)

put_apart {ℓ} :
    {A : Type ℓ} (f : String → A) (key : String) (value : A) (other : String)
    → other ≢ key
    → put f key value other ≡ f other
put_apart f key value other apart = ground (arith, str_eq_iff other key)

stream_there :
    (w : Server) (cfg : StreamConfig)
    → describe_stream ((put_stream w cfg).0.streams cfg.name)
      ≡ ok (record { config = cfg; msgs = 0 })
stream_there w cfg = ap describe_stream (put_there w.streams cfg.name (some cfg))

stream_apart :
    (w : Server) (cfg : StreamConfig) (other : String)
    → other ≢ cfg.name
    → describe_stream ((put_stream w cfg).0.streams other) ≡ describe_stream (w.streams other)
stream_apart w cfg other apart =
    ap describe_stream (put_apart w.streams cfg.name (some cfg) other apart)

consumer_there :
    (w : Server) (stream : String) (cfg : ConsumerConfig)
    → describe_consumer ((put_consumer w stream cfg).0.consumers stream cfg.durable)
      ≡ ok (record { config = cfg; num_pending = 0; num_ack_pending = 0 })
consumer_there w stream cfg =
    ap (λ f. describe_consumer (f cfg.durable))
      (put_there w.consumers stream (put (w.consumers stream) cfg.durable (some cfg)))
    ∙ ap describe_consumer (put_there (w.consumers stream) cfg.durable (some cfg))

many_streams-IsServer : IsServer many_streams
many_streams-IsServer = record {
  streams = record {
    reads = λ w name. refl;
    adds = λ w cfg h. (record { config = cfg; msgs = 0 }, stream_there w cfg, refl);
    updates = λ w cfg h. (record { config = cfg; msgs = 0 }, stream_there w cfg, refl);
  };
  creates_or_not = λ w cfg missing failed. absurd (cc);
  adds_apart = stream_apart;
  updates_apart = stream_apart;
  reads_consumer = λ w stream name. refl;
  adds_consumer = λ w stream cfg waits limits h. (
    record { config = cfg; num_pending = 0; num_ack_pending = 0 },
    consumer_there w stream cfg,
    refl,
  );
  updates_consumer = λ w stream cfg waits limits h. (
    record { config = cfg; num_pending = 0; num_ack_pending = 0 },
    consumer_there w stream cfg,
    refl,
  );
  creates_consumer_or_not = λ w stream cfg missing failed. absurd (cc);
  adds_consumer_apart = λ w stream cfg other. refl;
  updates_consumer_apart = λ w stream cfg other. refl;
}

-- The stream of the jobs is there, with another subject.
abbrev outdated : Server
outdated = record {
  streams =
      put (λ name. none) "GPU_JOBS"
        (some (record { name = "GPU_JOBS"; subjects = "OLD" ∷ []; retention = work_queue_policy }));
  consumers = λ stream name. none;
}

ensure_jetstream_resources_ok_example :
    let w' = (ensure_jetstream_resources many_streams outdated cfg).0 in
    HasStream many_streams w' "GPU_JOBS" ("JOBS" ∷ []) work_queue_policy
    × HasStream many_streams w' "GPU_JOBS_DLQ" ("GPU_JOBS.DLQ" ∷ []) limits_policy
    × HasConsumer many_streams w' cfg
unfolding ensure_jetstream_resources ensure_stream ensure_consumer same_subjects str_eq
ensure_jetstream_resources_ok_example =
    ensure_jetstream_resources_ok many_streams many_streams-IsServer outdated cfg
      (λ e. ground (arith, (str_eq_iff "GPU_JOBS" "GPU_JOBS_DLQ").1 e)) (omega arith) (omega arith)
      refl
