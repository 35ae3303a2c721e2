-- ===== src/Monitor/ColdStart.antt =====
-- The first node, from the tick of `monitorLoop` (orchestrator/orchestrator.go) that finds work and
-- no node, over `ScaleUp`, to the end of `waitForNodeReady` (orchestrator/scaler.go).
use serverless_gpu_linode.Common.{
  ℕ, ◌<◌, ◌≡◌, refl, String, false, List, [], ◌∷◌, Option, none, some, ok, inl, arith,
}
use serverless_gpu_linode.StateMachine.{
  ready, Node, NodeManager, fresh_node, add_node, set_node_ip, transition_node, active_count,
  all_nodes,
}
use serverless_gpu_linode.Cloud.{CloudProvider}
use serverless_gpu_linode.Discovery.{Disk}
use serverless_gpu_linode.Orchestrator.{Config, Orchestrator, QueueStats, pending_work}
use serverless_gpu_linode.JetStream.{JetStream, get_queue_stats}
use serverless_gpu_linode.Reconcile.{reconcile_listed, reconcile_nodes, sync_nodes, drop_stale}
use serverless_gpu_linode.Scaler.{
  scale_up_task, wait_task, evaluate_scale_up, evaluate_scale_down, stop_idle_timer,
}
use serverless_gpu_linode.Scaler.Actions.{
  node_label, wait_timeout, scale_up_create, scale_up_add, wait_running,
}
use serverless_gpu_linode.Scaler.Decision.{IsCooled, evaluate_scale_up_iff, evaluate_scale_up_frame}
use serverless_gpu_linode.Monitor.{
  Goroutine, starts, created, answered, Phase, selecting, listed, counted, System, set_queue,
  monitor, evaluate, schedule, advance, loops, runs, turn, run_turns,
}

-- No node, and one, under a cap.
abbrev pub empty : ℕ → NodeManager
empty top = record { nodes = []; max_nodes = top }

abbrev pub one : ℕ → ℕ → Node → NodeManager
one top id n = record { nodes = (id, n) ∷ []; max_nodes = top }

-- The settings, the nodes, the start of the cooldown and of the idle timer, and where the loop and
-- the goroutines are.
pub record At {W : Type 0} (cfg : Config) (nodes : NodeManager) (last idle : Option ℕ)
    (phase : Phase) (goroutines : List Goroutine) (s : System W) : Type 0 where
  pub configured : s.orchestrator.cfg ≡ cfg
  pub tracked : s.orchestrator.nodes ≡ nodes
  pub last_event : s.orchestrator.last_scale_event ≡ last
  pub idle_since : s.orchestrator.scale_down_since ≡ idle
  pub loop : s.phase ≡ phase
  pub others : s.goroutines ≡ goroutines

module _ {W : Type 0} (cloud : CloudProvider W) (disk : Disk W) (js : JetStream W) where
  -- The answers in a run from `s` on, each in the world in which it is asked for: the list has no
  -- node, the queue has these numbers, the creation gives an ID, and the wait an address.
  pub record Obeys (cfg : Config) (q : QueueStats) (id : ℕ) (ip : String) (s : System W)
      (t₁ t₂ t₃ t₄ t₅ : ℕ) : Type 0 where
    pub lists : (cloud.list_managed_nodes s.orchestrator.world).1 ≡ ok []
    pub queued :
        (get_queue_stats js (run_turns cloud disk js s (loops t₁ ∷ [])).orchestrator.world cfg).1
        ≡ q
    pub creates :
        (cloud.create_gpu_node
          (run_turns cloud disk js s (loops t₁ ∷ loops t₂ ∷ loops t₃ ∷ [])).orchestrator.world
          (node_label 0 t₄)).1
        ≡ ok id
    pub comes_up :
        (cloud.wait_for_running
          (run_turns cloud disk js s
            (loops t₁ ∷ loops t₂ ∷ loops t₃ ∷ runs 0 t₄ ∷ runs 0 t₅ ∷ [])).orchestrator.world
          id
          wait_timeout).1
        ≡ ok ip

  module _ (cfg : Config) (q : QueueStats) (id : ℕ) (ip : String) where
    list_step :
        (m : NodeManager) (last idle : Option ℕ) (s : System W) (now : ℕ)
        → (cloud.list_managed_nodes s.orchestrator.world).1 ≡ ok []
        → At cfg m last idle selecting [] s
        → At cfg m last idle (listed []) [] (turn cloud disk js s (loops now))
    unfolding turn monitor
    list_step m last idle s now none_listed a = ground (arith, none_listed, a)

    reconciled_empty : (top : ℕ) (now : ℕ) → reconcile_nodes (empty top) [] now ≡ (empty top, false)
    unfolding reconcile_nodes sync_nodes drop_stale all_nodes
    reconciled_empty top now = refl

    count_step :
        (top : ℕ) (last idle : Option ℕ) (s : System W) (now : ℕ)
        → (get_queue_stats js s.orchestrator.world cfg).1 ≡ q
        → At cfg (empty top) last idle (listed []) [] s
        → At cfg (empty top) last idle (counted q) [] (turn cloud disk js s (loops now))
    unfolding turn monitor reconcile_listed
    count_step top last idle s now queued a =
        let stats : (get_queue_stats js s.orchestrator.world s.orchestrator.cfg).1 ≡ q =
          rw a.configured queued in
        let same : reconcile_nodes s.orchestrator.nodes [] now ≡ (empty top, false) =
          rw a.tracked (reconciled_empty top now) in
        ground (arith, stats, same, a)

    no_scale_down :
        (top : ℕ) (o : Orchestrator W) (now : ℕ)
        → o.nodes ≡ empty top
        → evaluate_scale_down o (pending_work q) now ≡ (stop_idle_timer o, none)
    unfolding evaluate_scale_down active_count all_nodes
    no_scale_down top o now e = ground arith

    first_scale_up :
        (top : ℕ) (last : Option ℕ) (o : Orchestrator W) (now : ℕ)
        → 0 < pending_work q
        → IsCooled last cfg.cooldown_duration now
        → o.nodes ≡ empty top
        → o.last_scale_event ≡ last
        → o.cfg ≡ cfg
        → (evaluate_scale_up o (pending_work q) now).1 ≡ some scale_up_task
    first_scale_up top last o now work cooled e f g =
        (evaluate_scale_up_iff o (pending_work q) now scale_up_task).1 (
          refl,
          inl (record { work = work; nothing_tracked = ground arith; cooled = rw (f, g) cooled }),
        )

    evaluate_step :
        (top : ℕ) (last idle : Option ℕ) (s : System W) (now : ℕ)
        → 0 < pending_work q
        → IsCooled last cfg.cooldown_duration now
        → At cfg (empty top) last idle (counted q) [] s
        → At cfg
            (empty top)
            last
            none
            selecting
            (starts scale_up_task ∷ [])
            (turn cloud disk js s (loops now))
    unfolding turn monitor evaluate
    evaluate_step top last idle s now work cooled a =
        let o : Orchestrator W = set_queue s.orchestrator q in
        let up = first_scale_up top last o now work cooled a.tracked a.last_event a.configured in
        let o₁ : Orchestrator W = (evaluate_scale_up o (pending_work q) now).0 in
        let frame = evaluate_scale_up_frame o (pending_work q) now in
        let down = no_scale_down top o₁ now (ground (arith, frame, a)) in
        ground (arith, up, frame, down, a)

    create_step :
        (top : ℕ) (last : Option ℕ) (s : System W) (now : ℕ)
        → 0 < cfg.max_nodes
        → (cloud.create_gpu_node s.orchestrator.world (node_label 0 now)).1 ≡ ok id
        → At cfg (empty top) last none selecting (starts scale_up_task ∷ []) s
        → At cfg
            (empty top)
            last
            none
            selecting
            (created (record { id = id; label = node_label 0 now; active = 0 }) ∷ [])
            (turn cloud disk js s (runs 0 now))
    unfolding turn schedule advance scale_up_create active_count
    create_step top last s now room made a = ground (arith, made, a)

    track_step :
        (top : ℕ) (last : Option ℕ) (label : String) (s : System W) (now : ℕ)
        → 0 < top
        → At cfg
            (empty top)
            last
            none
            selecting
            (created (record { id = id; label = label; active = 0 }) ∷ [])
            s
        → At cfg
            (one top id (fresh_node id label now))
            (some now)
            none
            selecting
            (starts (wait_task id now) ∷ [])
            (turn cloud disk js s (runs 0 now))
    unfolding turn schedule advance scale_up_add add_node
    track_step top last label s now room a = ground (arith, a)

    wait_step :
        (m : NodeManager) (last : Option ℕ) (born : ℕ) (s : System W) (now : ℕ)
        → (cloud.wait_for_running s.orchestrator.world id wait_timeout).1 ≡ ok ip
        → At cfg m last none selecting (starts (wait_task id born) ∷ []) s
        → At cfg m last none selecting
            (answered id born (ok ip) ∷ [])
            (turn cloud disk js s (runs 0 now))
    unfolding turn schedule advance
    wait_step m last born s now up a = ground (arith, up, a)

    ready_step :
        (top : ℕ) (last : Option ℕ) (label : String) (born : ℕ) (s : System W) (now : ℕ)
        → At cfg
            (one top id (fresh_node id label born))
            last
            none
            selecting
            (answered id born (ok ip) ∷ [])
            s
        → At cfg
            (one top id
              (record (fresh_node id label born) { ipv4 = ip; state = ready; ready_at = some now }))
            last
            none
            selecting
            []
            (turn cloud disk js s (runs 0 now))
    unfolding turn schedule advance wait_running set_node_ip transition_node
    ready_step top last label born s now a = ground (arith, a)

    -- The node at the end.
    abbrev pub first_node : ℕ → ℕ → ℕ → Node
    first_node started born up = record (fresh_node id (node_label 0 started) born) {
      ipv4 = ip;
      state = ready;
      ready_at = some up;
    }

    -- If nothing is tracked or running, work is pending, the cooldown is over at the evaluation,
    -- the settings and the cap allow a node, and, each when it is asked, the provider lists no node, the
    -- queue has this work, the provider creates an instance and sees it run at an address, then one tick of the loop and the goroutines that come of it end with
    -- exactly that node tracked, ready at its address, the cooldown running since it was tracked, the
    -- idle timer stopped, and no goroutine left.
    pub cold_start_ready :
        (top : ℕ) (last idle : Option ℕ) (s : System W) (t₁ t₂ t₃ t₄ t₅ t₆ t₇ : ℕ)
        → Obeys cfg q id ip s t₁ t₂ t₃ t₄ t₅
        → At cfg (empty top) last idle selecting [] s
        → 0 < top
        → 0 < cfg.max_nodes
        → 0 < pending_work q
        → IsCooled last cfg.cooldown_duration t₃
        → At cfg (one top id (first_node t₄ t₅ t₇)) (some t₅) none selecting [] (
            run_turns cloud disk js s
              (loops t₁ ∷ loops t₂ ∷ loops t₃ ∷ runs 0 t₄ ∷ runs 0 t₅ ∷ runs 0 t₆ ∷ runs 0 t₇ ∷ []))
    unfolding run_turns
    cold_start_ready top last idle s t₁ t₂ t₃ t₄ t₅ t₆ t₇ obeys a allowed room work cooled =
        let label = node_label 0 t₄ in
        let listed' = list_step (empty top) last idle s t₁ obeys.lists a in
        let counted' = count_step top last idle _ t₂ obeys.queued listed' in
        let started = evaluate_step top last idle _ t₃ work cooled counted' in
        let made = create_step top last _ t₄ room obeys.creates started in
        let tracked' = track_step top last label _ t₅ allowed made in
        let up =
          wait_step (one top id (fresh_node id label t₅)) (some t₅) t₅ _ t₆ obeys.comes_up
            tracked' in
        ready_step top (some t₅) label t₅ _ t₇ up
