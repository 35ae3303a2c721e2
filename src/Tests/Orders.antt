-- ===== src/Tests/Orders.antt =====
-- Two orders of the same two nodes, with a disk that keeps how many targets were written.
use serverless_gpu_linode.Common.Assoc.{lookup}
use serverless_gpu_linode.Common.{ℕ, refl, ap, List, [], ◌∷◌, none, some, ok, err, arith, length}
use serverless_gpu_linode.StateMachine.{ready, Node, NodeManager, fresh_node}
use serverless_gpu_linode.StateMachine.Order.{length-perm}
use serverless_gpu_linode.StateMachine.Alike.{Alike}
use serverless_gpu_linode.Cloud.{CloudProvider}
use serverless_gpu_linode.Discovery.{Disk}
use serverless_gpu_linode.Discovery.Order.{Unordered}
use serverless_gpu_linode.JetStream.{JetStream}
use serverless_gpu_linode.Orchestrator.{new_orchestrator}
use serverless_gpu_linode.Monitor.{System, selecting, Turn, loops, runs, run_turns}
use serverless_gpu_linode.Monitor.Order.Runs.{Resembles, run_turns_unordered}
use serverless_gpu_linode.Tests.Lifetimes.{cfg}

abbrev cloud : CloudProvider ℕ
cloud = record {
  create_gpu_node = λ w label. (w, ok 9);
  wait_for_running = λ w id timeout. (w, ok "10.0.0.9");
  destroy_node = λ w id. (w, none);
  list_managed_nodes = λ w.
      (w, ok ((record { linode_id = 8; label = "b"; ipv4 = "10.0.0.8"; status = "running" }) ∷ []));
}

abbrev disk : Disk ℕ
disk = record { write_file = λ w path targets. (length targets, none) }

abbrev js : JetStream ℕ
js = record {
  stream_info = λ w name. (w, err "not found");
  add_stream = λ w cfg. (w, none);
  update_stream = λ w cfg. (w, none);
  consumer_info = λ w stream name. (w, err "not found");
  add_consumer = λ w stream cfg. (w, none);
  update_consumer = λ w stream cfg. (w, none);
}

unordered : Unordered disk
unordered w path ts us p = ap (λ n. (n, none)) (length-perm p)

abbrev at_work : ℕ → Node
at_work id = record (fresh_node id "node" 10) {
  ipv4 = "10.0.0.7";
  state = ready;
  ready_at = some 20;
}

abbrev forwards : NodeManager
forwards = record { nodes = (7, at_work 7) ∷ (8, at_work 8) ∷ []; max_nodes = 2 }

abbrev backwards : NodeManager
backwards = record { nodes = (8, at_work 8) ∷ (7, at_work 7) ∷ []; max_nodes = 2 }

same_nodes : Alike forwards backwards
unfolding lookup
same_nodes = record {
  formed = record {
    distinct = (refl, (refl, tt));
    bounded = omega arith;
    entries = ((refl, refl), ((refl, refl), tt));
  };
  formed' = record {
    distinct = (refl, (refl, tt));
    bounded = omega arith;
    entries = ((refl, refl), ((refl, refl), tt));
  };
  cap = refl;
  same = λ j. ground arith;
}

abbrev with_map : NodeManager → System ℕ
with_map nm = record {
  orchestrator = record (new_orchestrator cfg 0) { nodes = nm; scale_down_since = some 20 };
  phase = selecting;
  goroutines = [];
}

-- The node that the provider does not list is forgotten, and the other one is scaled down.
abbrev turns : List Turn
turns =
    loops 700_000_000_001
    ∷ loops 700_000_000_002
    ∷ loops 700_000_000_003
    ∷ runs 0 700_000_000_004
    ∷ []

run_turns_unordered_example :
    Resembles cloud disk js unordered
      (run_turns cloud disk js (with_map forwards) turns)
      (run_turns cloud disk js (with_map backwards) turns)
run_turns_unordered_example =
    run_turns_unordered cloud disk js unordered (with_map forwards) (with_map backwards) turns
      ((same_nodes, refl), refl, refl)
