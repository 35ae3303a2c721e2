-- ===== src/Monitor/ToZero.antt =====
-- The last node, from the tick of `monitorLoop` (orchestrator/orchestrator.go) that finds the queue
-- idle for long enough to the end of `ScaleDown` (orchestrator/scaler.go).
use serverless_gpu_linode.Common.{
  ℕ, ◌+◌, ◌≤◌, ◌≡◌, ◌≢◌, ◌∙◌, refl, true, false, [], ◌∷◌, Option, none, some, ok, arith,
}
use serverless_gpu_linode.StateMachine.{
  draining, Node, NodeManager, get_node, remove_node, transition_node, active_count,
}
use serverless_gpu_linode.Cloud.{CloudProvider, CloudNode}
use serverless_gpu_linode.Discovery.{Disk}
use serverless_gpu_linode.Orchestrator.{Config, Orchestrator, QueueStats}
use serverless_gpu_linode.JetStream.{JetStream, get_queue_stats}
use serverless_gpu_linode.Reconcile.{reconcile_listed, reconcile_nodes}
use serverless_gpu_linode.Scaler.{
  Task, scale_down_task, evaluate_scale_up, evaluate_scale_down, can_scale,
}
use serverless_gpu_linode.Scaler.Actions.{scale_down_drain, scale_down_destroy, scale_down_finish}
use serverless_gpu_linode.Scaler.Decision.{
  IsCooled, evaluate_scale_up_frame, evaluate_scale_down_frame, evaluate_scale_down_iff,
}
use serverless_gpu_linode.Monitor.{
  starts, drained, destroyed, selecting, listed, counted, System, set_queue, monitor, evaluate,
  schedule, advance, loops, runs, turn, run_turns,
}
use serverless_gpu_linode.Monitor.ColdStart.{empty, one, At}
use serverless_gpu_linode.Monitor.Settled.{
  IsSettled, found, reconciled_one, targets, actives, all_are_ready, enters_draining,
  enters_destroying, leaving,
}

module _ {W : Type 0} (cloud : CloudProvider W) (disk : Disk W) (js : JetStream W) where
  -- The answers in a run from `s` on, each in the world in which it is asked for: the list has the
  -- node alone, the queue is empty, and the node is destroyed.
  pub record Winds (cfg : Config) (cn : CloudNode) (s : System W) (t₁ t₂ t₃ t₄ : ℕ) : Type 0 where
    pub lists : (cloud.list_managed_nodes s.orchestrator.world).1 ≡ ok (cn ∷ [])
    pub queued :
        (get_queue_stats js (run_turns cloud disk js s (loops t₁ ∷ [])).orchestrator.world cfg).1
        ≡ record { pending = 0; acks_pending = 0 }
    pub destroys :
        (cloud.destroy_node
          (run_turns cloud disk js s
            (loops t₁ ∷ loops t₂ ∷ loops t₃ ∷ runs 0 t₄ ∷ [])).orchestrator.world
          cn.linode_id).1
        ≡ none

  module _ (cfg : Config) (cn : CloudNode) where
    abbrev idle_queue : QueueStats
    idle_queue = record { pending = 0; acks_pending = 0 }

    list_step :
        (m : NodeManager) (last idle : Option ℕ) (s : System W) (now : ℕ)
        → (cloud.list_managed_nodes s.orchestrator.world).1 ≡ ok (cn ∷ [])
        → At cfg m last idle selecting [] s
        → At cfg m last idle (listed (cn ∷ [])) [] (turn cloud disk js s (loops now))
    unfolding turn monitor
    list_step m last idle s now one_listed a = ground (arith, one_listed, a)

    count_step :
        (top : ℕ) (n : Node) (last idle : Option ℕ) (s : System W) (now : ℕ)
        → (get_queue_stats js s.orchestrator.world cfg).1 ≡ idle_queue
        → IsSettled cn n
        → At cfg (one top cn.linode_id n) last idle (listed (cn ∷ [])) [] s
        → At cfg
            (one top cn.linode_id n)
            last
            idle
            (counted idle_queue)
            []
            (turn cloud disk js s (loops now))
    unfolding turn monitor reconcile_listed
    count_step top n last idle s now queued w a =
        let stats : (get_queue_stats js s.orchestrator.world s.orchestrator.cfg).1 ≡ idle_queue =
          rw a.configured queued in
        let same : reconcile_nodes s.orchestrator.nodes (cn ∷ []) now
            ≡ (one top cn.linode_id n, false) =
          rw a.tracked (reconciled_one cn top n now w) in
        ground (arith, stats, same, a)

    no_scale_up : (o : Orchestrator W) (now : ℕ) → (evaluate_scale_up o 0 now).1 ≡ none
    unfolding evaluate_scale_up
    no_scale_up o now = ground arith

    starts_down :
        (top : ℕ) (n : Node) (last : Option ℕ) (since : ℕ) (o : Orchestrator W) (now : ℕ)
        → IsSettled cn n
        → o.nodes ≡ one top cn.linode_id n
        → o.cfg ≡ cfg
        → o.last_scale_event ≡ last
        → o.scale_down_since ≡ some since
        → cn.linode_id ≢ 0
        → cfg.min_nodes ≡ 0
        → since + cfg.scale_to_zero_idle_duration ≤ now
        → IsCooled last cfg.cooldown_duration now
        → (evaluate_scale_down o 0 now).1 ≡ some (scale_down_task cn.linode_id)
    starts_down top n last since o now w e f g i nonzero floor waited cooled =
        let target = targets cn top n w in
        let active = actives cn top n w in
        let all = all_are_ready cn top n w in
        (evaluate_scale_down_iff o 0 now (scale_down_task cn.linode_id)).1 (
          rw (e, target) refl,
          rw (e, target) nonzero,
          record {
            idle = refl;
            sustained = rw (i, e, f) (ground (arith, active, waited));
            all_ready = rw e all;
            some_node = rw e (omega arith);
            above_floor = rw (e, f, floor) (omega arith);
            cooled = rw (f, g) cooled;
          },
        )

    timer_stopped :
        (o : Orchestrator W) (now : ℕ) {t : Task}
        → (evaluate_scale_down o 0 now).1 ≡ some t
        → (evaluate_scale_down o 0 now).0.scale_down_since ≡ none
    unfolding evaluate_scale_down
    timer_stopped o now h = ground arith

    evaluate_step :
        (top : ℕ) (n : Node) (last : Option ℕ) (since : ℕ) (s : System W) (now : ℕ)
        → IsSettled cn n
        → cn.linode_id ≢ 0
        → cfg.min_nodes ≡ 0
        → since + cfg.scale_to_zero_idle_duration ≤ now
        → IsCooled last cfg.cooldown_duration now
        → At cfg (one top cn.linode_id n) last (some since) (counted idle_queue) [] s
        → At cfg
            (one top cn.linode_id n)
            last
            none
            selecting
            (starts (scale_down_task cn.linode_id) ∷ [])
            (turn cloud disk js s (loops now))
    unfolding turn monitor evaluate
    evaluate_step top n last since s now w nonzero floor waited cooled a =
        let o : Orchestrator W = set_queue s.orchestrator idle_queue in
        let up = no_scale_up o now in
        let o₁ : Orchestrator W = (evaluate_scale_up o 0 now).0 in
        let (nodes, _, config, event, idle) = evaluate_scale_up_frame o 0 now in
        let down =
          starts_down top n last since o₁ now w (nodes ∙ a.tracked) (config ∙ a.configured)
            (event ∙ a.last_event) (idle ∙ a.idle_since) nonzero floor waited cooled in
        let stopped = timer_stopped o₁ now down in
        let frame = evaluate_scale_down_frame o₁ 0 now in
        ground (arith, up, nodes, config, event, down, stopped, frame, a)

    cools :
        (last : Option ℕ) (o : Orchestrator W) (now : ℕ)
        → o.cfg ≡ cfg
        → o.last_scale_event ≡ last
        → IsCooled last cfg.cooldown_duration now
        → (can_scale o now).1 ≡ true
    unfolding can_scale
    cools none o now e f cooled = ground arith
    cools (some t) o now e f cooled = ground arith

    can_scale_frame :
        (o : Orchestrator W) (now : ℕ)
        → let o' = (can_scale o now).0 in
          (o'.nodes ≡ o.nodes)
          × (o'.cfg ≡ o.cfg)
          × (o'.last_scale_event ≡ o.last_scale_event)
          × (o'.scale_down_since ≡ o.scale_down_since)
    unfolding can_scale
    can_scale_frame o now = ground arith

    drain_step :
        (top : ℕ) (n : Node) (last : Option ℕ) (s : System W) (now : ℕ)
        → IsSettled cn n
        → cfg.min_nodes ≡ 0
        → IsCooled last cfg.cooldown_duration now
        → At cfg
            (one top cn.linode_id n)
            last
            none
            selecting
            (starts (scale_down_task cn.linode_id) ∷ [])
            s
        → At cfg
            (one top cn.linode_id (leaving cn n))
            last
            none
            selecting
            (drained cn.linode_id 1 ∷ [])
            (turn cloud disk js s (runs 0 now))
    unfolding turn schedule advance scale_down_drain
    drain_step top n last s now w floor cooled a =
        let o : Orchestrator W = s.orchestrator in
        let node : get_node o.nodes cn.linode_id ≡ some n = rw a.tracked (found cn top n) in
        let can = cools last o now a.configured a.last_event cooled in
        let (nodes, config, event, idle) = can_scale_frame o now in
        let active : active_count (can_scale o now).0.nodes ≡ 1 =
          rw (nodes, a.tracked) (actives cn top n w) in
        let first : transition_node (can_scale o now).0.nodes cn.linode_id draining now
            ≡ (one top cn.linode_id (record n { state = draining }), none) =
          rw (nodes, a.tracked) (enters_draining cn top n now w.is_ready) in
        let second = enters_destroying cn top (record n { state = draining }) now refl in
        ground (arith, node, w, can, nodes, config, event, idle, active, first, second, a)

    destroy_step :
        (m : NodeManager) (last : Option ℕ) (s : System W) (now : ℕ)
        → (cloud.destroy_node s.orchestrator.world cn.linode_id).1 ≡ none
        → At cfg m last none selecting (drained cn.linode_id 1 ∷ []) s
        → At cfg m last none selecting
            (destroyed cn.linode_id 1 ∷ [])
            (turn cloud disk js s (runs 0 now))
    unfolding turn schedule advance scale_down_destroy
    destroy_step m last s now accepted a = ground (arith, accepted, a)

    finish_step :
        (top : ℕ) (n : Node) (last : Option ℕ) (s : System W) (now : ℕ)
        → At cfg (one top cn.linode_id n) last none selecting (destroyed cn.linode_id 1 ∷ []) s
        → At cfg (empty top) (some now) none selecting [] (turn cloud disk js s (runs 0 now))
    unfolding turn schedule advance scale_down_finish remove_node
    finish_step top n last s now a = ground (arith, a)

    -- If the one tracked node is ready and not locked, the provider, each time when it is asked, lists
    -- just this node, at the same address, and destroys it, nothing else runs, the queue is empty when
    -- it is asked, and the idle timer has run for
    -- `ScaleToZeroIdleDuration` at the evaluation, `MinNodes` is 0, the ID is not 0, and the cooldown
    -- is over at the evaluation and when `ScaleDown` starts, then one tick of the loop and the
    -- goroutine that comes of it end with no node tracked, the cooldown running since the removal, the
    -- idle timer stopped, and no goroutine left.
    pub idle_to_zero :
        (top : ℕ) (n : Node) (last : Option ℕ) (since : ℕ) (s : System W) (t₁ t₂ t₃ t₄ t₅ t₆ : ℕ)
        → Winds cfg cn s t₁ t₂ t₃ t₄
        → At cfg (one top cn.linode_id n) last (some since) selecting [] s
        → IsSettled cn n
        → cn.linode_id ≢ 0
        → cfg.min_nodes ≡ 0
        → since + cfg.scale_to_zero_idle_duration ≤ t₃
        → IsCooled last cfg.cooldown_duration t₃
        → IsCooled last cfg.cooldown_duration t₄
        → At cfg (empty top) (some t₆) none selecting [] (
            run_turns cloud disk js s
              (loops t₁ ∷ loops t₂ ∷ loops t₃ ∷ runs 0 t₄ ∷ runs 0 t₅ ∷ runs 0 t₆ ∷ []))
    unfolding run_turns
    idle_to_zero top n last since s t₁ t₂ t₃ t₄ t₅ t₆ winds a w nonzero floor waited cooled still =
        let m = one top cn.linode_id n in
        let listed' = list_step m last (some since) s t₁ winds.lists a in
        let counted' = count_step top n last (some since) _ t₂ winds.queued w listed' in
        let started = evaluate_step top n last since _ t₃ w nonzero floor waited cooled counted' in
        let drained' = drain_step top n last _ t₄ w floor still started in
        let gone =
          destroy_step (one top cn.linode_id (leaving cn n)) last _ t₅ winds.destroys drained' in
        finish_step top (leaving cn n) last _ t₆ gone
