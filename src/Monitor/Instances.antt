-- ===== src/Monitor/Instances.antt =====
-- The provider's instances beside the nodes that the orchestrator tracks: `monitorLoop` of
-- orchestrator/orchestrator.go and the goroutines of orchestrator/scaler.go. An instance is accounted
-- for if the node manager tracks it or a goroutine holds it.
mod Tracked
mod Survival
mod Goroutines
mod Loop
pub mod Leaks
pub mod Linode
pub mod Recovery
pub mod Started
pub mod Costs
pub mod Budget
use serverless_gpu_linode.Common.{
  ℕ, zero, suc, ◌≡◌, String, Bool, true, false, not, ◌&&◌, ◌||◌, List, [], ◌∷◌, Option, none, some,
  Result, ok, err, ◌==◌, if◌then◌else◌, any,
}
use serverless_gpu_linode.StateMachine.{
  provisioning, NodeManager, NodeError, Node, same_state, get_node, add_node,
}
use serverless_gpu_linode.Cloud.{CloudNode, CloudProvider}
use serverless_gpu_linode.Discovery.{Disk, PrometheusTarget}
use serverless_gpu_linode.Orchestrator.{Orchestrator}
use serverless_gpu_linode.JetStream.{JetStream}
use serverless_gpu_linode.Reconcile.{seen}
use serverless_gpu_linode.Monitor.{
  Goroutine, starts, created, drained, destroyed, answered, discards, clears, cleared, Phase,
  selecting, listed, counted, System, Turn, loops, runs, turn,
}

-- What has become of an ID at the provider.
pub data Lifetime : Type 0 where
  unborn live gone : Lifetime

abbrev pub is_live : Lifetime → Bool
is_live unborn = false
is_live live = true
is_live gone = false

abbrev pub is_gone : Lifetime → Bool
is_gone unborn = false
is_gone live = false
is_gone gone = true

-- Whether a node is tracked, and whether it is tracked as provisioning.
unfoldable pub is_tracked : NodeManager → ℕ → Bool
is_tracked nm j = elim (get_node nm j) [ none ↦ false | some n ↦ true ]

unfoldable pub is_booting : NodeManager → ℕ → Bool
is_booting nm j = elim (get_node nm j) [ none ↦ false | some n ↦ same_state n.state provisioning ]

-- A `ScaleUp` that has created the instance holds it, until it is tracked or deleted, and so does a
-- `waitForNodeReady` that is about to delete it.
abbrev pub holds : ℕ → Goroutine → Bool
holds j (created c) = c.id == j
holds j (discards id) = id == j
holds j (clears id) = id == j
holds j _ = false

-- A `ScaleDown` or a `waitForNodeReady` that has deleted the instance is about to forget the node.
abbrev pub forgets : ℕ → Goroutine → Bool
forgets j (destroyed id active) = id == j
forgets j (cleared id) = id == j
forgets j _ = false

-- The list that is about to be reconciled with does not make the loop forget the node.
abbrev pub survives : Phase → NodeManager → ℕ → Bool
survives (listed cloud_nodes) nm j = seen cloud_nodes j || is_booting nm j
survives selecting nm j = true
survives (counted q) nm j = true

-- The answer to a deletion.
abbrev pub accepts : Option String → Bool
accepts none = true
accepts (some e) = false

module _ {W : Type 0} (cloud : CloudProvider W) where
  -- A step that loses sight of an instance: the deletion after a failed tracking or a failed wait
  -- fails too, or the node becomes ready between the provider's list and the loop's
  -- reconciling with it, on which it does not stand yet.
  unfoldable pub abandons : Orchestrator W → Phase → Goroutine → ℕ → ℕ → Bool
  abandons o p (discards id) now j = id == j && not (accepts (cloud.destroy_node o.world id).1)
  abandons o p (clears id) now j = id == j && not (accepts (cloud.destroy_node o.world id).1)
  abandons o (listed cloud_nodes) (answered id born (ok ip)) now j =
      id == j && not (seen cloud_nodes j)
  abandons o p _ now j = false

  -- The step of the goroutine at a place does.
  unfoldable pub abandons_at : Orchestrator W → Phase → ℕ → List Goroutine → ℕ → ℕ → Bool
  unfolding abandons
  abandons_at o p k [] now j = false
  abandons_at o p zero (g ∷ gs) now j = abandons o p g now j
  abandons_at o p (suc k) (g ∷ gs) now j = abandons_at o p k gs now j

module _ {W : Type 0} (cloud : CloudProvider W) (disk : Disk W) (js : JetStream W) where
  -- One of the turns does.
  unfoldable pub loses : System W → List Turn → ℕ → Bool
  unfolding abandons_at
  loses s [] j = false
  loses s (loops now ∷ ts) j = loses (turn cloud disk js s (loops now)) ts j
  loses s (runs k now ∷ ts) j =
      abandons_at cloud s.orchestrator s.phase k s.goroutines now j
      || loses (turn cloud disk js s (runs k now)) ts j

-- What is assumed of a provider: an ID is given once, to an instance that is live until it is
-- deleted; a call that fails changes no instance; a list has every live instance; and the other calls
-- touch none.
pub record Provides {W : Type 0} (cloud : CloudProvider W) (lifetime : W → ℕ → Lifetime)
    : Type 0 where
  pub creates :
      (w : W) (label : String) (id : ℕ)
      → (cloud.create_gpu_node w label).1 ≡ ok id
      → (lifetime w id ≡ unborn)
        × ((j : ℕ)
            → lifetime (cloud.create_gpu_node w label).0 j
              ≡ (if id == j then live else lifetime w j))
  pub refuses :
      (w : W) (label e : String) (j : ℕ)
      → (cloud.create_gpu_node w label).1 ≡ err e
      → lifetime (cloud.create_gpu_node w label).0 j ≡ lifetime w j
  pub destroys :
      (w : W) (id j : ℕ)
      → lifetime (cloud.destroy_node w id).0 j
        ≡ (if accepts (cloud.destroy_node w id).1 && (id == j) then gone else lifetime w j)
  pub waits :
      (w : W) (id timeout j : ℕ) → lifetime (cloud.wait_for_running w id timeout).0 j ≡ lifetime w j
  pub lists : (w : W) (j : ℕ) → lifetime (cloud.list_managed_nodes w).0 j ≡ lifetime w j
  pub lists_live :
      (w : W) (j : ℕ) (cloud_nodes : List CloudNode)
      → (cloud.list_managed_nodes w).1 ≡ ok cloud_nodes
      → lifetime w j ≡ live
      → seen cloud_nodes j ≡ true

-- The calls of JetStream and of the disk touch no instance.
pub record Leaves {W : Type 0} (disk : Disk W) (js : JetStream W) (lifetime : W → ℕ → Lifetime)
    : Type 0 where
  pub asks_stream :
      (w : W) (stream : String) (j : ℕ) → lifetime (js.stream_info w stream).0 j ≡ lifetime w j
  pub asks_consumer :
      (w : W) (stream consumer : String) (j : ℕ)
      → lifetime (js.consumer_info w stream consumer).0 j ≡ lifetime w j
  pub writes :
      (w : W) (path : String) (targets : List PrometheusTarget) (j : ℕ)
      → lifetime (disk.write_file w path targets).0 j ≡ lifetime w j

abbrev pub implies : Bool → Bool → Bool
implies true c = c
implies false c = true

module _ {W : Type 0} (lifetime : W → ℕ → Lifetime) where
  -- With whether a goroutine holds the instance and whether one is about to forget the node: an
  -- instance that is live is tracked or held, also after the reconciliation that is ahead; one whose
  -- node is about to be forgotten is gone.
  abbrev pub account : Orchestrator W → Phase → Bool → Bool → ℕ → Bool
  account o p held forgotten j =
      implies (is_live (lifetime o.world j))
        ((is_tracked o.nodes j || held) && (survives p o.nodes j || held))
      && implies forgotten (is_gone (lifetime o.world j))

  unfoldable pub accounted : System W → ℕ → Bool
  accounted s j =
      account s.orchestrator s.phase (any (holds j) s.goroutines) (any (forgets j) s.goroutines) j
