-- ===== src/Cloud/Linode.antt =====
-- orchestrator/linode.go, the production provider, over the client of package linodego, which is a
-- parameter.
pub mod Tags
pub mod Waiting
use serverless_gpu_linode.Common.{
  ℕ, zero, suc, String, ◌+++◌, Bool, true, false, List, [], ◌∷◌, Option, none, some, Result, ok,
  err, if◌then◌else◌, str_eq, decimal,
}
use serverless_gpu_linode.Cloud.{CloudNode, CloudProvider}

-- The fields of `linodego.Instance` that are read.
pub record Instance : Type 0 where
  pub id : ℕ
  pub label : String
  pub ipv4 : List String
  pub status : String
  pub tags : List String

pub record InstanceCreateOptions : Type 0 where
  pub label : String
  pub region : String
  pub instance_type : String
  pub image : String
  pub root_pass : String
  pub booted : Bool
  pub tags : List String

-- The calls of `linodego.Client` that are made.
pub record LinodeApi (W : Type 0) : Type 0 where
  pub create_instance : W → InstanceCreateOptions → W × Result String Instance
  pub get_instance : W → ℕ → W × Result String Instance
  pub delete_instance : W → ℕ → W × Option String
  pub list_instances : W → W × Result String (List Instance)

-- The client's settings.
pub record LinodeClient : Type 0 where
  pub image_id : String
  pub region : String
  pub instance_type : String
  pub root_pass : String
  pub managed_tags : List String

-- The inner loop of `containsAllTags`.
unfoldable pub has_tag : List String → String → Bool
has_tag [] required = false
has_tag (tag ∷ rest) required =
    let later = has_tag rest required in if str_eq tag required then true else later

unfoldable pub contains_all_tags : List String → List String → Bool
unfolding has_tag
contains_all_tags tags [] = true
contains_all_tags tags (required ∷ rest) =
    let later = contains_all_tags tags rest in if has_tag tags required then later else false

abbrev pub first_ip : List String → String
first_ip [] = ""
first_ip (ip ∷ rest) = ip

abbrev pub cloud_node : Instance → CloudNode
cloud_node inst = record {
  linode_id = inst.id;
  label = inst.label;
  ipv4 = first_ip inst.ipv4;
  status = inst.status;
}

-- The loop of `ListManagedNodes`.
unfoldable pub managed_nodes : List String → List Instance → List CloudNode
managed_nodes managed [] = []
managed_nodes managed (inst ∷ rest) =
    let later = managed_nodes managed rest in
    if contains_all_tags inst.tags managed then cloud_node inst ∷ later else later

-- How a wait ends if the node does not come up: the context is done (with its error), or the
-- deadline passes. A schedule is the number of ticks that the `select` takes before that.
pub data WaitEnd : Type 0 where
  cancelled : String → WaitEnd
  timed_out : WaitEnd

pub record Schedule : Type 0 where
  pub ticks : ℕ
  pub ending : WaitEnd

abbrev pub wait_error : WaitEnd → ℕ → String
wait_error (cancelled e) id = e
wait_error timed_out id = "timeout waiting for node " +++ (decimal id +++ " to reach running state")

module _ {W : Type 0} (api : LinodeApi W) (l : LinodeClient) where
  unfoldable pub create_gpu_node : W → String → W × Result String ℕ
  create_gpu_node w label =
      let (w', r) = api.create_instance w (record {
        label = label;
        region = l.region;
        instance_type = l.instance_type;
        image = l.image_id;
        root_pass = l.root_pass;
        booted = true;
        tags = l.managed_tags;
      }) in
      elim r [
        | ok inst ↦ (w', ok inst.id)
        | err e ↦ (w', err ("failed to create instance: " +++ e))
      ]

  -- The loop of `WaitForRunning`, by the ticks that are left.
  unfoldable pub wait_loop : ℕ → WaitEnd → W → ℕ → W × Result String String
  wait_loop zero ending w id = (w, err (wait_error ending id))
  wait_loop (suc ticks) ending w id =
      let (w', r) = api.get_instance w id in
      let again = wait_loop ticks ending w' id in
      elim r [
        | err e ↦ again
        | ok inst ↦ if str_eq inst.status "running" then (w', ok (first_ip inst.ipv4)) else again
      ]

  unfoldable pub destroy_node : W → ℕ → W × Option String
  destroy_node w id =
      let (w', r) = api.delete_instance w id in
      elim r [
        | none ↦ (w', none)
        | some e ↦ (w', some ("failed to destroy node " +++ (decimal id +++ (": " +++ e))))
      ]

  unfoldable pub list_managed_nodes : W → W × Result String (List CloudNode)
  unfolding managed_nodes
  list_managed_nodes w =
      let (w', r) = api.list_instances w in
      elim r [
        | err e ↦ (w', err ("failed to list instances: " +++ e))
        | ok instances ↦ (w', ok (managed_nodes l.managed_tags instances))
      ]

  -- `LinodeClient` as a provider. `runtime` is the schedule that a wait meets, from the world and
  -- the timeout.
  abbrev pub linode_provider : (W → ℕ → Schedule) → CloudProvider W
  linode_provider runtime = record {
    create_gpu_node = create_gpu_node;
    wait_for_running =
        λ w id timeout. wait_loop (runtime w timeout).ticks (runtime w timeout).ending w id;
    destroy_node = destroy_node;
    list_managed_nodes = list_managed_nodes;
  }
