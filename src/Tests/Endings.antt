-- ===== src/Tests/Endings.antt =====
-- How the agent ends, and the wait for an instance, at concrete inputs.
use serverless_gpu_linode.Common.{
  ℕ, zero, suc, ◌≡◌, ◌⊎◌, ◌↔◌, refl, String, true, [], ◌∷◌, none, Result, ok, err,
}
use serverless_gpu_linode.Cloud.Linode.{
  Instance, LinodeApi, LinodeClient, timed_out, wait_error, wait_loop,
}
use serverless_gpu_linode.Cloud.Linode.Waiting.{ComesUp, AreDown, polls, wait_loop_answer}
use serverless_gpu_linode.Connection.{connect_nats}
use serverless_gpu_linode.Agent.Start.{Subscriptions, signalled, run_agent}
use serverless_gpu_linode.Agent.Start.Closed.{IsClean, dlq_ensured, subscribed, run_agent_closes}
use serverless_gpu_linode.Tests.Lifetimes.{World, server, nats}
use serverless_gpu_linode.Tests.Services.{agent}

abbrev subscriptions : Subscriptions World World
subscriptions = record {
  pull_subscribe = λ w subject consumer stream. (w, ok tt);
  drain = λ w sub. (w, none);
  unsubscribe = λ w sub. w;
}

connected : (connect_nats nats tt agent.nats_url none).1 ≡ ok (tt, server 3)
unfolding connect_nats
connected = refl

run_agent_closes_example :
    ((u : World) × ((run_agent nats subscriptions tt agent (signalled true)).0 ≡ nats.close u tt))
    × (((run_agent nats subscriptions tt agent (signalled true)).1 ≡ none) ↔ (
        ((dlq_ensured nats subscriptions agent tt tt (server 3) connected).1 ≡ none)
        × ((sub : World) × (interval : ℕ) × ((subscribed nats subscriptions agent tt tt
                (server 3)
                connected).1
              ≡ ok (sub, interval)))
        × IsClean (signalled true)))
run_agent_closes_example =
    run_agent_closes nats subscriptions agent tt tt (server 3) connected (signalled true)

abbrev instance_with : String → ℕ → Instance
instance_with status id = record {
  id = id;
  label = "gpu-node-1-0";
  ipv4 = "10.0.0.7" ∷ [];
  status = status;
  tags = [];
}

abbrev polled : ℕ → ℕ → Result String Instance
polled zero id = err "not found"
polled (suc zero) id = ok (instance_with "booting" id)
polled (suc (suc n)) id = ok (instance_with "running" id)

-- The world is the number of polls; the third one sees the instance run.
abbrev api : LinodeApi ℕ
api = record {
  create_instance = λ w options. (w, err "no capacity");
  get_instance = λ w id. (suc w, polled w id);
  delete_instance = λ w id. (w, none);
  list_instances = λ w. (w, ok []);
}

abbrev client : LinodeClient
client = record {
  image_id = "private/1";
  region = "sg-sin-2";
  instance_type = "g1-gpu-rtx6000-1";
  root_pass = "";
  managed_tags = "serverless-gpu-managed" ∷ [];
}

wait_loop_answer_example :
    ComesUp api client 7 5 0 (wait_loop api client 5 timed_out 0 7)
    ⊎ (AreDown api client 7 5 0
        × (wait_loop api client 5 timed_out 0 7
            ≡ (polls api client 7 5 0, err (wait_error timed_out 7))))
wait_loop_answer_example = wait_loop_answer api client 7 5 timed_out 0
