-- ===== src/Monitor/Instances/Linode.antt =====
-- The instances beside the provider of orchestrator/linode.go: `LinodeClient` over the API of package
-- linodego.
use mathlib.Core.List.{Mem, mem-cons, not-mem-nil}
use mathlib.Core.Bool.{Bool-set}
use mathlib.Core.Logic.Or
use serverless_gpu_linode.Common.{
  ℕ, zero, suc, ◌≡◌, refl, String, true, ◌&&◌, ◌||◌, List, [], ◌∷◌, ok, err, ◌==◌, if◌then◌else◌,
  All, any, arith, false, inl, inr, Result-cases, sym,
}
use serverless_gpu_linode.Cloud.{CloudNode}
use serverless_gpu_linode.Cloud.Linode.{
  Instance, InstanceCreateOptions, LinodeApi, LinodeClient, Schedule, WaitEnd, contains_all_tags,
  managed_nodes, create_gpu_node, wait_loop, destroy_node, list_managed_nodes, linode_provider,
}
use serverless_gpu_linode.Cloud.Linode.Tags.{contains_all_tags_iff}
use serverless_gpu_linode.Reconcile.{seen}
use serverless_gpu_linode.StateMachine.Invariant.{IsWellFormed}
use serverless_gpu_linode.Discovery.{Disk}
use serverless_gpu_linode.JetStream.{JetStream}
use serverless_gpu_linode.Monitor.{System, Turn, run_turns}
use serverless_gpu_linode.Monitor.Instances.{
  Lifetime, unborn, live, gone, accepts, holds, is_tracked, Provides, Leaves, accounted, loses,
}
use serverless_gpu_linode.Monitor.Instances.Leaks.{live_instance_is_known}

-- What is assumed of the API: it gives an ID once, to an instance that is live until it is deleted;
-- a call that fails changes no instance; the list has every live instance, with the tags that it was
-- created with; and the other calls touch none.
pub record Serves {W : Type 0} (api : LinodeApi W) (managed_tags : List String)
    (lifetime : W → ℕ → Lifetime) : Type 0 where
  pub creates :
      (w : W) (options : InstanceCreateOptions) (inst : Instance)
      → (api.create_instance w options).1 ≡ ok inst
      → (lifetime w inst.id ≡ unborn)
        × ((j : ℕ)
            → lifetime (api.create_instance w options).0 j
              ≡ (if inst.id == j then live else lifetime w j))
  pub refuses :
      (w : W) (options : InstanceCreateOptions) (e : String) (j : ℕ)
      → (api.create_instance w options).1 ≡ err e
      → lifetime (api.create_instance w options).0 j ≡ lifetime w j
  pub deletes :
      (w : W) (id j : ℕ)
      → lifetime (api.delete_instance w id).0 j
        ≡ (if accepts (api.delete_instance w id).1 && (id == j) then gone else lifetime w j)
  pub gets : (w : W) (id j : ℕ) → lifetime (api.get_instance w id).0 j ≡ lifetime w j
  pub lists : (w : W) (j : ℕ) → lifetime (api.list_instances w).0 j ≡ lifetime w j
  pub lists_live :
      (w : W) (j : ℕ) (instances : List Instance)
      → (api.list_instances w).1 ≡ ok instances
      → lifetime w j ≡ live
      → (inst : Instance) × Mem inst instances
        × (inst.id ≡ j)
        × All (λ t. Mem t inst.tags) managed_tags

-- An instance with the managed tags stays in the list.
managed_nodes-seen :
    (managed : List String) (instances : List Instance) (inst : Instance)
    → Mem inst instances
    → contains_all_tags inst.tags managed ≡ true
    → seen (managed_nodes managed instances) inst.id ≡ true
unfolding managed_nodes any
managed_nodes-seen managed [] inst m h = absurd (not-mem-nil m)
managed_nodes-seen managed (other ∷ rest) inst m h =
    Or.elim (Bool-set _ _) (mem-cons.0 m) (λ e. rw (sym e) (ground arith))
      (λ i. ground (arith, managed_nodes-seen managed rest inst i h))

module _ {W : Type 0} (api : LinodeApi W) (l : LinodeClient) (runtime : W → ℕ → Schedule)
    (lifetime : W → ℕ → Lifetime) (serves : Serves api l.managed_tags lifetime) where
  wait_loop-lifetime :
      (ticks : ℕ) (ending : WaitEnd) (w : W) (id j : ℕ)
      → lifetime (wait_loop api l ticks ending w id).0 j ≡ lifetime w j
  unfolding wait_loop
  wait_loop-lifetime zero ending w id j = refl
  wait_loop-lifetime (suc ticks) ending w id j =
      let w' = (api.get_instance w id).0 in
      ground (arith, serves.gets w id j, wait_loop-lifetime ticks ending w' id j)

  abbrev asked : String → InstanceCreateOptions
  asked label = record {
    label = label;
    region = l.region;
    instance_type = l.instance_type;
    image = l.image_id;
    root_pass = l.root_pass;
    booted = true;
    tags = l.managed_tags;
  }

  linode-creates :
      (w : W) (label : String) (id : ℕ)
      → (create_gpu_node api l w label).1 ≡ ok id
      → (lifetime w id ≡ unborn)
        × ((j : ℕ)
            → lifetime (create_gpu_node api l w label).0 j
              ≡ (if id == j then live else lifetime w j))
  unfolding create_gpu_node
  linode-creates w label id h =
      let options = asked label in
      elim (Result-cases (api.create_instance w options).1) [
        | inl (inst, e) ↦
            let (fresh, after) = serves.creates w options inst e in
            (ground (arith, fresh), λ j. ground (arith, after j))
        | inr (x, e) ↦ absurd (ground arith)
      ]

  linode-refuses :
      (w : W) (label e : String) (j : ℕ)
      → (create_gpu_node api l w label).1 ≡ err e
      → lifetime (create_gpu_node api l w label).0 j ≡ lifetime w j
  unfolding create_gpu_node
  linode-refuses w label e j h =
      let options = asked label in
      elim (Result-cases (api.create_instance w options).1) [
        | inl (inst, q) ↦ absurd (ground arith)
        | inr (x, q) ↦ ground (arith, serves.refuses w options x j q)
      ]

  linode-lists_live :
      (w : W) (j : ℕ) (cloud_nodes : List CloudNode)
      → (list_managed_nodes api l w).1 ≡ ok cloud_nodes
      → lifetime w j ≡ live
      → seen cloud_nodes j ≡ true
  unfolding list_managed_nodes
  linode-lists_live w j cloud_nodes h alive = elim (Result-cases (api.list_instances w).1) [
    | inl (instances, e) ↦
        let (inst, here, id, tags) = serves.lists_live w j instances e alive in
        let found =
          managed_nodes-seen l.managed_tags instances inst here
            ((contains_all_tags_iff inst.tags l.managed_tags).1 tags) in
        ground (arith, found, id)
    | inr (x, e) ↦ absurd (ground arith)
  ]

  pub linode-Provides : Provides (linode_provider api l runtime) lifetime
  unfolding destroy_node list_managed_nodes
  linode-Provides = record {
    creates = linode-creates;
    refuses = linode-refuses;
    destroys = λ w id j. ground (arith, serves.deletes w id j);
    waits = λ w id timeout j.
        wait_loop-lifetime (runtime w timeout).ticks (runtime w timeout).ending w id j;
    lists = λ w j. ground (arith, serves.lists w j);
    lists_live = linode-lists_live;
  }

  -- With `LinodeClient` as the provider: if the API gives each ID once and lists every live
  -- instance with the tags that it was created with, no other call touches the instances, the node
  -- manager is well formed and the instance is accounted for at the start, then in every
  -- interleaving of the loop with the goroutines an instance that is live at the end is tracked by
  -- the node manager or held by a goroutine: a `ScaleUp` that has created it and has not yet
  -- tracked or deleted it, or a `waitForNodeReady` that has failed and is about to delete it. The
  -- one exception is a turn that loses sight of it: the deletion after its tracking or its wait has
  -- failed fails too, or its wait ends between the list, on which it does not stand yet, and the
  -- loop's reconciling with that list.
  pub linode_instance_is_known :
      (disk : Disk W) (js : JetStream W) (quiet : Leaves disk js lifetime) (s : System W)
      (ts : List Turn) (j : ℕ)
      → IsWellFormed s.orchestrator.nodes
      → accounted lifetime s j ≡ true
      → loses (linode_provider api l runtime) disk js s ts j ≡ false
      → let s' = run_turns (linode_provider api l runtime) disk js s ts in
        lifetime s'.orchestrator.world j ≡ live
        → (is_tracked s'.orchestrator.nodes j || any (holds j) s'.goroutines) ≡ true
  linode_instance_is_known disk js quiet s ts j v known safe alive =
      live_instance_is_known (linode_provider api l runtime) disk js lifetime linode-Provides quiet
        s ts j v known safe alive
