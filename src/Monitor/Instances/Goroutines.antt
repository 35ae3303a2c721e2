-- ===== src/Monitor/Instances/Goroutines.antt =====
-- A step of a goroutine of orchestrator/scaler.go: each instance stays accounted for.
use serverless_gpu_linode.Common.{
  ℕ, zero, suc, ◌≡◌, inl, inr, String, Bool, true, false, ◌||◌, List, [], ◌∷◌, ◌++◌, sym, ok, err,
  arith, Result-cases, if◌then◌else◌, any,
}
use serverless_gpu_linode.StateMachine.{
  destroying, ready, NodeManager, add_node, remove_node, transition_node, set_node_ip,
  nodes_by_state, active_count,
}
use serverless_gpu_linode.Cloud.{CloudProvider}
use serverless_gpu_linode.Discovery.{Disk, write_targets_file, collect_targets}
use serverless_gpu_linode.Orchestrator.{Orchestrator}
use serverless_gpu_linode.JetStream.{JetStream}
use serverless_gpu_linode.Scaler.{scale_up_task, scale_down_task, wait_task}
use serverless_gpu_linode.Scaler.Actions.{
  Created, node_label, wait_timeout, scale_up_create, scale_up_add, scale_down_drain,
  scale_down_destroy, scale_down_finish, discard_node, wait_failed_begin, wait_failed_end,
  wait_running,
}
use serverless_gpu_linode.Monitor.{
  Goroutine, starts, created, drained, destroyed, answered, discards, clears, cleared, Phase,
  advance, schedule,
}
use serverless_gpu_linode.Monitor.Instances.{
  Lifetime, holds, forgets, abandons, abandons_at, Provides, Leaves, account,
}
use serverless_gpu_linode.Monitor.Instances.Survival.{
  survives-same, survives-booting, survives-kept, drain-world, drain-is_tracked, drain-is_booting,
}
use serverless_gpu_linode.Monitor.Instances.Tracked.{
  is_tracked-add_node, is_booting-add_node, is_tracked-transition_node, is_tracked-set_node_ip,
  is_booting-set_node_ip, is_booting-transition_node, is_tracked-remove_node,
  is_booting-remove_node,
}

module _ {W : Type 0} (cloud : CloudProvider W) (disk : Disk W) (js : JetStream W)
    (lifetime : W → ℕ → Lifetime) (law : Provides cloud lifetime)
    (quiet : Leaves disk js lifetime) where
  -- The instance is accounted for, whatever the other goroutines hold.
  abbrev Sound : Orchestrator W → Phase → Bool → Bool → ℕ → Type 0
  Sound o p h d j = account lifetime o p h d j ≡ true

  abbrev Step : Orchestrator W → Phase → Goroutine → ℕ → ℕ → Type 0
  Step o p g now j =
      (h d : Bool)
      → Sound o p (h || holds j g) (d || forgets j g) j
      → let (o', new) = advance cloud disk js o g now in
        Sound o' p (h || any (holds j) new) (d || any (forgets j) new) j

  create-Sound :
      (o : Orchestrator W) (p : Phase) (now j : ℕ) → Step o p (starts scale_up_task) now j
  unfolding advance scale_up_create any
  create-Sound o p now j h d v =
      let label = node_label (active_count o.nodes) now in
      elim (Result-cases (cloud.create_gpu_node o.world label).1) [
        | inl (id, e) ↦
            ground (arith, (law.creates o.world label id e).0, (law.creates o.world label id e).1 j)
        | inr (x, e) ↦ ground (arith, law.refuses o.world label x j e)
      ]

  track-Sound :
      (o : Orchestrator W) (p : Phase) (c : Created) (now j : ℕ) → Step o p (created c) now j
  unfolding advance scale_up_add any
  track-Sound o p c now j h d v =
      let nm = (add_node o.nodes c.id c.label now).0 in
      let t = is_tracked-add_node o.nodes c.id j c.label now in
      let b = is_booting-add_node o.nodes c.id j c.label now in
      let same = survives-same p o.nodes nm j in
      let boots = survives-booting p nm j in
      elim (Result-cases (add_node o.nodes c.id c.label now).1) [
        | inl (n, e) ↦ ground (arith, t, b, same, boots)
        | inr (x, e) ↦ ground (arith, t, b, same)
      ]

  drain-Sound :
      (o : Orchestrator W) (p : Phase) (id now j : ℕ) → Step o p (starts (scale_down_task id)) now j
  unfolding advance any
  drain-Sound o p id now j h d v =
      let same = drain-world o id now in
      let t = drain-is_tracked o id now j in
      let kept =
        survives-kept p o.nodes (scale_down_drain o id now).0.nodes j
          (drain-is_booting o id now j) in
      elim (Result-cases (scale_down_drain o id now).1) [
        | inl (active, e) ↦ ground (arith, same, t, kept)
        | inr (x, e) ↦ ground (arith, same, t, kept)
      ]

  destroy-Sound :
      (o : Orchestrator W) (p : Phase) (id active now j : ℕ) → Step o p (drained id active) now j
  unfolding advance scale_down_destroy any
  destroy-Sound o p id active now j h d v = ground (arith, law.destroys o.world id j)

  pub file-same :
      (w : W) (path : String) (nm : NodeManager) (j : ℕ)
      → lifetime (write_targets_file disk w path nm).0 j ≡ lifetime w j
  unfolding write_targets_file
  file-same w path nm j =
      ground (arith, quiet.writes w path (collect_targets (nodes_by_state nm ready)) j)

  finish-Sound :
      (o : Orchestrator W) (p : Phase) (id active now j : ℕ) → Step o p (destroyed id active) now j
  unfolding advance scale_down_finish any
  finish-Sound o p id active now j h d v =
      let nm = remove_node o.nodes id in
      let t = is_tracked-remove_node o.nodes id j in
      let b = is_booting-remove_node o.nodes id j in
      let same = survives-same p o.nodes nm j in
      let file = file-same o.world o.cfg.prometheus_targets_file nm j in
      ground (arith, t, b, same, file)

  wait-Sound :
      (o : Orchestrator W) (p : Phase) (id born now j : ℕ)
      → Step o p (starts (wait_task id born)) now j
  unfolding advance any
  wait-Sound o p id born now j h d v = ground (arith, law.waits o.world id wait_timeout j)

  failed-Sound :
      (o : Orchestrator W) (p : Phase) (id born : ℕ) (e : String) (now j : ℕ)
      → Step o p (answered id born (err e)) now j
  unfolding advance wait_failed_begin any
  failed-Sound o p id born e now j h d v =
      let nm = (transition_node o.nodes id destroying now).0 in
      let t = is_tracked-transition_node o.nodes id j destroying now in
      let b = is_booting-transition_node o.nodes id j destroying now in
      let same = survives-same p o.nodes nm j in ground (arith, t, b, same)

  discard-Sound :
      (o : Orchestrator W) (p : Phase) (id now j : ℕ)
      → abandons cloud o p (discards id) now j ≡ false
      → Step o p (discards id) now j
  unfolding advance discard_node any abandons
  discard-Sound o p id now j safe h d v = ground (arith, law.destroys o.world id j)

  clear-Sound :
      (o : Orchestrator W) (p : Phase) (id now j : ℕ)
      → abandons cloud o p (clears id) now j ≡ false
      → Step o p (clears id) now j
  unfolding advance discard_node any abandons
  clear-Sound o p id now j safe h d v = ground (arith, law.destroys o.world id j)

  cleared-Sound : (o : Orchestrator W) (p : Phase) (id now j : ℕ) → Step o p (cleared id) now j
  unfolding advance wait_failed_end any
  cleared-Sound o p id now j h d v =
      let nm = remove_node o.nodes id in
      let t = is_tracked-remove_node o.nodes id j in
      let b = is_booting-remove_node o.nodes id j in
      let same = survives-same p o.nodes nm j in ground (arith, t, b, same)

  running-Sound :
      (o : Orchestrator W) (p : Phase) (id born : ℕ) (ip : String) (now j : ℕ)
      → abandons cloud o p (answered id born (ok ip)) now j ≡ false
      → Step o p (answered id born (ok ip)) now j
  unfolding advance wait_running any abandons
  running-Sound o p id born ip now j safe h d v =
      let nm₁ = (set_node_ip o.nodes id ip).0 in
      let nm₂ = (transition_node nm₁ id ready now).0 in
      let t₁ = is_tracked-set_node_ip o.nodes id j ip in
      let t₂ = is_tracked-transition_node nm₁ id j ready now in
      let b₁ = is_booting-set_node_ip o.nodes id j ip in
      let b₂ = is_booting-transition_node nm₁ id j ready now in
      let same = survives-same p o.nodes nm₂ j in
      let file = file-same o.world o.cfg.prometheus_targets_file nm₂ j in
      ground (arith, t₁, t₂, b₁, b₂, same, file)

  advance-Sound :
      (o : Orchestrator W) (p : Phase) (g : Goroutine) (now j : ℕ)
      → abandons cloud o p g now j ≡ false
      → Step o p g now j
  advance-Sound o p (starts scale_up_task) now j safe = create-Sound o p now j
  advance-Sound o p (created c) now j safe = track-Sound o p c now j
  advance-Sound o p (starts (scale_down_task id)) now j safe = drain-Sound o p id now j
  advance-Sound o p (drained id active) now j safe = destroy-Sound o p id active now j
  advance-Sound o p (destroyed id active) now j safe = finish-Sound o p id active now j
  advance-Sound o p (starts (wait_task id born)) now j safe = wait-Sound o p id born now j
  advance-Sound o p (answered id born (err e)) now j safe = failed-Sound o p id born e now j
  advance-Sound o p (answered id born (ok ip)) now j safe = running-Sound o p id born ip now j safe
  advance-Sound o p (discards id) now j safe = discard-Sound o p id now j safe
  advance-Sound o p (clears id) now j safe = clear-Sound o p id now j safe
  advance-Sound o p (cleared id) now j safe = cleared-Sound o p id now j

  Sound-same :
      (o : Orchestrator W) (p : Phase) (j : ℕ) {h h' d d' : Bool}
      → h ≡ h'
      → d ≡ d'
      → Sound o p h d j
      → Sound o p h' d' j
  Sound-same o p j e f v = rw (sym e, sym f) v

  -- One goroutine of a list is put last, or first.
  apart : (b c x : Bool) → (b || (if x then true else c)) ≡ ((b || c) || x)
  apart b c x = ground arith

  joined :
      (q : Goroutine → Bool) (b : Bool) (new gs : List Goroutine)
      → ((b || any q gs) || any q new) ≡ (b || any q (new ++ gs))
  unfolding any
  joined q b [] gs = ground arith
  joined q b (g ∷ new) gs = ground (arith, joined q b new gs)

  moved : (b c x : Bool) → (b || (if x then true else c)) ≡ ((b || x) || c)
  moved b c x = ground arith

  pub schedule-Sound :
      (o : Orchestrator W) (p : Phase) (k : ℕ) (gs : List Goroutine) (now j : ℕ) (h d : Bool)
      → abandons_at cloud o p k gs now j ≡ false
      → Sound o p (h || any (holds j) gs) (d || any (forgets j) gs) j
      → let (o', gs') = schedule cloud disk js o k gs now in
        Sound o' p (h || any (holds j) gs') (d || any (forgets j) gs') j
  unfolding schedule abandons_at any
  schedule-Sound o p k [] now j h d safe v = v
  schedule-Sound o p zero (g ∷ gs) now j h d safe v =
      let before =
        Sound-same o p j (apart h (any (holds j) gs) (holds j g))
          (apart d (any (forgets j) gs) (forgets j g)) v in
      Sound-same (advance cloud disk js o g now).0 p j
        (joined (holds j) h (advance cloud disk js o g now).1 gs)
        (joined (forgets j) d (advance cloud disk js o g now).1 gs)
        (advance-Sound o p g now j safe (h || any (holds j) gs) (d || any (forgets j) gs) before)
  schedule-Sound o p (suc k) (g ∷ gs) now j h d safe v =
      let after = schedule cloud disk js o k gs now in
      let before =
        Sound-same o p j (moved h (any (holds j) gs) (holds j g))
          (moved d (any (forgets j) gs) (forgets j g)) v in
      Sound-same after.0 p j (sym (moved h (any (holds j) after.1) (holds j g)))
        (sym (moved d (any (forgets j) after.1) (forgets j g)))
        (schedule-Sound o p k gs now j (h || holds j g) (d || forgets j g) safe before)
