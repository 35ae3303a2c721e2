-- ===== src/Tests/Provider.antt =====
-- A provider that numbers its instances from 1 on, and meets what is assumed of the API.
use serverless_gpu_linode.Common.{
  ℕ, ◌+◌, ◌≡◌, refl, true, false, not, List, [], ◌∷◌, none, some, ok, arith, leb, ◌==◌,
  if◌then◌else◌, select, any, err, All, Bool-cases, inl, inr,
}
use mathlib.Core.List.{Mem, mem-cons_self, mem-cons_of_mem}
use serverless_gpu_linode.Cloud.Linode.{Instance, LinodeApi, LinodeClient, Schedule, timed_out}
use serverless_gpu_linode.Discovery.{Disk}
use serverless_gpu_linode.JetStream.{JetStream, ack_explicit}
use serverless_gpu_linode.Monitor.Instances.{Lifetime, unborn, live, gone, Leaves}
use serverless_gpu_linode.Monitor.Instances.Linode.{Serves}

pub record World : Type 0 where
  pub next_id : ℕ
  pub running : List ℕ

abbrev pub lifetime : World → ℕ → Lifetime
lifetime w j =
    if leb w.next_id j then unborn else (if any (λ i. i == j) w.running then live else gone)

abbrev pub instance_of : ℕ → Instance
instance_of id = record {
  id = id;
  label = "gpu-node";
  ipv4 = "10.0.0.1" ∷ [];
  status = "running";
  tags = "team-a" ∷ "serverless-gpu" ∷ [];
}

abbrev pub instances : List ℕ → List Instance
instances [] = []
instances (id ∷ rest) = instance_of id ∷ instances rest

abbrev pub api : LinodeApi World
api = record {
  create_instance = λ w options. (
    record { next_id = w.next_id + 1; running = w.next_id ∷ w.running },
    ok (instance_of w.next_id),
  );
  get_instance = λ w id. (w, ok (instance_of id));
  delete_instance = λ w id.
      if leb w.next_id id
      then (w, some "not found")
      else (record w { running = select (λ i. not (i == id)) w.running }, none);
  list_instances = λ w. (w, ok (instances w.running));
}

abbrev pub client : LinodeClient
client = record {
  image_id = "private/1";
  region = "us-ord";
  instance_type = "g2-gpu-rtx4000a1-s";
  root_pass = "secret";
  managed_tags = "serverless-gpu" ∷ [];
}

abbrev pub runtime : World → ℕ → Schedule
runtime w timeout = record { ticks = 3; ending = timed_out }

abbrev pub disk : Disk World
disk = record { write_file = λ w path targets. (w, none) }

-- Three messages wait.
abbrev pub js : JetStream World
js = record {
  stream_info = λ w name. (w, err "not found");
  add_stream = λ w cfg. (w, none);
  update_stream = λ w cfg. (w, none);
  consumer_info = λ w stream name. (
    w,
    ok (record {
      config = record {
        durable = "gpu-workers";
        ack_policy = ack_explicit;
        ack_wait = 1_200_000_000_000;
        max_deliver = 5;
        filter_subject = "JOBS";
      };
      num_pending = 3;
      num_ack_pending = 0;
    }),
  );
  add_consumer = λ w stream cfg. (w, none);
  update_consumer = λ w stream cfg. (w, none);
}

select-any :
    (id j : ℕ) (ids : List ℕ)
    → any (λ i. i == j) (select (λ i. not (i == id)) ids)
      ≡ (if id == j then false else any (λ i. i == j) ids)
unfolding select any
select-any id j [] = ground arith
select-any id j (i ∷ ids) = ground (arith, select-any id j ids)

listed-running :
    (j : ℕ) (ids : List ℕ)
    → any (λ i. i == j) ids ≡ true
    → (inst : Instance) × Mem inst (instances ids)
      × (inst.id ≡ j)
      × All (λ t. Mem t inst.tags) ("serverless-gpu" ∷ [])
unfolding any
listed-running j [] h = absurd (cc)
listed-running j (i ∷ ids) h = elim (Bool-cases (i == j)) [
  | inl same ↦
      (instance_of i, mem-cons_self, ground arith, (mem-cons_of_mem "team-a" mem-cons_self, tt))
  | inr other ↦
      let (inst, here, id, tags) = listed-running j ids (ground arith) in
      (inst, mem-cons_of_mem (instance_of i) here, id, tags)
]

pub serves : Serves api ("serverless-gpu" ∷ []) lifetime
unfolding any
serves = record {
  creates = λ w options inst e. (ground arith, λ j. ground arith);
  refuses = λ w options e j h. absurd (cc);
  deletes = λ w id j. ground (arith, select-any id j w.running);
  gets = λ w id j. refl;
  lists = λ w j. refl;
  lists_live = λ w j found e h.
      let same : found ≡ instances w.running = cc in
      rw (same) (listed-running j w.running (ground arith));
}

pub quiet : Leaves disk js lifetime
quiet = record {
  asks_stream = λ w stream j. refl;
  asks_consumer = λ w stream consumer j. refl;
  writes = λ w path targets j. refl;
}
