-- ===== src/Tests/Fake.antt =====
-- The provider that orchestrator/scaler_test.go tests with (`fakeCloud`), and a disk that keeps the
-- last file written.
use serverless_gpu_linode.Common.{
  ℕ, ◌+◌, ◌+++◌, Bool, false, List, [], ◌∷◌, none, some, ok, err, ◌==◌, if◌then◌else◌, decimal, any,
}
use serverless_gpu_linode.Cloud.{CloudNode, CloudProvider}
use serverless_gpu_linode.Discovery.{PrometheusTarget, Disk}

pub record World : Type 0 where
  pub next_id : ℕ
  pub created : List ℕ
  pub destroyed : List ℕ
  pub fail_create : Bool
  pub fail_destroy : Bool
  pub file : List PrometheusTarget

abbrev pub start_world : World
start_world = record {
  next_id = 1000;
  created = [];
  destroyed = [];
  fail_create = false;
  fail_destroy = false;
  file = [];
}

abbrev pub running_nodes : List ℕ → List ℕ → List CloudNode
running_nodes destroyed [] = []
running_nodes destroyed (id ∷ rest) =
    let later = running_nodes destroyed rest in
    let node : CloudNode = record {
      linode_id = id;
      label = "gpu-node-" +++ decimal id;
      ipv4 = "10.0.0." +++ decimal id;
      status = "running";
    } in
    if any (λ d. d == id) destroyed then later else node ∷ later

abbrev pub fake_cloud : CloudProvider World
fake_cloud = record {
  create_gpu_node = λ w label.
      if w.fail_create
      then (w, err "simulated create failure")
      else (record w { next_id = w.next_id + 1; created = w.next_id ∷ w.created }, ok w.next_id);
  wait_for_running = λ w id timeout. (w, ok ("10.0.0." +++ decimal id));
  destroy_node = λ w id.
      if w.fail_destroy
      then (w, some "simulated destroy failure")
      else (record w { destroyed = id ∷ w.destroyed }, none);
  list_managed_nodes = λ w. (w, ok (running_nodes w.destroyed w.created));
}

abbrev pub fake_disk : Disk World
fake_disk = record { write_file = λ w path targets. (record w { file = targets }, none) }
