-- ===== src/Monitor/Instances/Loop.antt =====
-- A step of `monitorLoop` (orchestrator/orchestrator.go): each instance stays accounted for.
use serverless_gpu_linode.Common.{
  ℕ, ◌≡◌, ◌∙◌, refl, inl, inr, Bool, true, false, ◌||◌, List, [], ◌∷◌, ◌++◌, Option, none, some,
  arith, Result-cases, any,
}
use serverless_gpu_linode.StateMachine.Invariant.{IsWellFormed}
use serverless_gpu_linode.Cloud.{CloudNode, CloudProvider}
use serverless_gpu_linode.Discovery.{Disk}
use serverless_gpu_linode.Orchestrator.{Config, Orchestrator, QueueStats, pending_work}
use serverless_gpu_linode.JetStream.{JetStream, get_queue_stats}
use serverless_gpu_linode.Reconcile.{reconcile_nodes, reconcile_listed}
use serverless_gpu_linode.Scaler.{Task, evaluate_scale_up, evaluate_scale_down}
use serverless_gpu_linode.Scaler.Decision.{evaluate_scale_up_frame, evaluate_scale_down_frame}
use serverless_gpu_linode.Monitor.{
  Goroutine, Phase, selecting, listed, counted, System, set_queue, evaluate, started, monitor,
}
use serverless_gpu_linode.Monitor.Instances.{
  Lifetime, holds, forgets, Provides, Leaves, account, accounted,
}
use serverless_gpu_linode.Monitor.Instances.Tracked.{is_tracked-reconcile_nodes}
use serverless_gpu_linode.Monitor.Instances.Goroutines.{file-same}

module _ {W : Type 0} (cloud : CloudProvider W) (disk : Disk W) (js : JetStream W)
    (lifetime : W → ℕ → Lifetime) (law : Provides cloud lifetime)
    (quiet : Leaves disk js lifetime) where
  abbrev Sound : Orchestrator W → Phase → Bool → Bool → ℕ → Type 0
  Sound o p h d j = account lifetime o p h d j ≡ true

  stats-same :
      (w : W) (cfg : Config) (j : ℕ) → lifetime (get_queue_stats js w cfg).0 j ≡ lifetime w j
  unfolding get_queue_stats
  stats-same w cfg j =
      let (w₁, _) = js.consumer_info w cfg.stream_name cfg.consumer_name in
      ground (
        arith,
        quiet.asks_consumer w cfg.stream_name cfg.consumer_name j,
        quiet.asks_stream w₁ cfg.stream_name j,
      )

  -- The parts of the loop's body.
  list-Sound :
      (o : Orchestrator W) (gs : List Goroutine) (now j : ℕ)
      → accounted lifetime (record { orchestrator = o; phase = selecting; goroutines = gs }) j
        ≡ true
      → accounted lifetime
          (monitor cloud disk js
            (record { orchestrator = o; phase = selecting; goroutines = gs })
            now)
          j
        ≡ true
  unfolding monitor accounted
  list-Sound o gs now j v = elim (Result-cases (cloud.list_managed_nodes o.world).1) [
    | inl (cns, e) ↦ ground (arith, law.lists o.world j, law.lists_live o.world j cns e)
    | inr (x, e) ↦ ground (arith, law.lists o.world j)
  ]

  pub reconcile-lifetime :
      (o : Orchestrator W) (cns : List CloudNode) (now j : ℕ)
      → lifetime (reconcile_listed cloud disk o cns now).world j ≡ lifetime o.world j
  unfolding reconcile_listed
  reconcile-lifetime o cns now j =
      let nm = (reconcile_nodes o.nodes cns now).0 in
      ground (
        arith,
        file-same cloud disk js lifetime law quiet o.world o.cfg.prometheus_targets_file nm j,
      )

  pub reconcile-nodes :
      (o : Orchestrator W) (cns : List CloudNode) (now : ℕ)
      → (reconcile_listed cloud disk o cns now).nodes ≡ (reconcile_nodes o.nodes cns now).0
  unfolding reconcile_listed
  reconcile-nodes o cns now = ground arith

  listed-Sound :
      (o : Orchestrator W) (cns : List CloudNode) (gs : List Goroutine) (now j : ℕ)
      → IsWellFormed o.nodes
      → accounted lifetime (record { orchestrator = o; phase = listed cns; goroutines = gs }) j
        ≡ true
      → accounted lifetime
          (monitor cloud disk js
            (record { orchestrator = o; phase = listed cns; goroutines = gs })
            now)
          j
        ≡ true
  unfolding monitor accounted
  listed-Sound o cns gs now j w v =
      let o₁ = reconcile_listed cloud disk o cns now in
      let same = reconcile-lifetime o cns now j in
      let asked = stats-same o₁.world o₁.cfg j in
      let nodes = reconcile-nodes o cns now in
      let kept = is_tracked-reconcile_nodes o.nodes cns now j w in
      ground (arith, same, asked, nodes, kept)

  started-holds : (t : Option Task) (j : ℕ) → any (holds j) (started t) ≡ false
  unfolding any
  started-holds none j = refl
  started-holds (some t) j = refl

  started-forgets : (t : Option Task) (j : ℕ) → any (forgets j) (started t) ≡ false
  unfolding any
  started-forgets none j = refl
  started-forgets (some t) j = refl

  any-append :
      (q : Goroutine → Bool) (gs new : List Goroutine) → any q (gs ++ new) ≡ (any q gs || any q new)
  unfolding any
  any-append q [] new = refl
  any-append q (g ∷ gs) new = ground (arith, any-append q gs new)

  -- What the evaluation starts holds nothing.
  evaluate-starts :
      (q : Goroutine → Bool) (o : Orchestrator W) (stats : QueueStats) (now : ℕ)
      → ((t : Option Task) → any q (started t) ≡ false)
      → any q (evaluate o stats now).1 ≡ false
  unfolding evaluate
  evaluate-starts q o stats now none_of =
      let o₀ = set_queue o stats in
      let up = evaluate_scale_up o₀ (pending_work stats) now in
      let down = (evaluate_scale_down up.0 (pending_work stats) now).1 in
      any-append q (started up.1) (started down) ∙ ground (arith, none_of up.1, none_of down)

  evaluate-frame :
      (o : Orchestrator W) (stats : QueueStats) (now : ℕ)
      → ((evaluate o stats now).0.nodes ≡ o.nodes) × ((evaluate o stats now).0.world ≡ o.world)
  unfolding evaluate
  evaluate-frame o stats now =
      let o₀ = set_queue o stats in
      let o₁ = (evaluate_scale_up o₀ (pending_work stats) now).0 in
      let up = evaluate_scale_up_frame o₀ (pending_work stats) now in
      let down = evaluate_scale_down_frame o₁ (pending_work stats) now in ground (arith, up, down)

  counted-Sound :
      (o : Orchestrator W) (stats : QueueStats) (gs : List Goroutine) (now j : ℕ)
      → accounted lifetime (record { orchestrator = o; phase = counted stats; goroutines = gs }) j
        ≡ true
      → accounted lifetime
          (monitor cloud disk js
            (record { orchestrator = o; phase = counted stats; goroutines = gs })
            now)
          j
        ≡ true
  unfolding monitor accounted
  counted-Sound o stats gs now j v =
      let new = (evaluate o stats now).1 in
      let frame = evaluate-frame o stats now in
      let held = evaluate-starts (holds j) o stats now (λ t. started-holds t j) in
      let forgotten = evaluate-starts (forgets j) o stats now (λ t. started-forgets t j) in
      ground
        (arith, frame, held, forgotten, any-append (holds j) gs new, any-append (forgets j) gs new)

  monitor-Sound_at :
      (o : Orchestrator W) (p : Phase) (gs : List Goroutine) (now j : ℕ)
      → IsWellFormed o.nodes
      → accounted lifetime (record { orchestrator = o; phase = p; goroutines = gs }) j ≡ true
      → accounted lifetime
          (monitor cloud disk js (record { orchestrator = o; phase = p; goroutines = gs }) now)
          j
        ≡ true
  monitor-Sound_at o selecting gs now j w v = list-Sound o gs now j v
  monitor-Sound_at o (listed cns) gs now j w v = listed-Sound o cns gs now j w v
  monitor-Sound_at o (counted stats) gs now j w v = counted-Sound o stats gs now j v

  pub monitor-Sound :
      (s : System W) (now j : ℕ)
      → IsWellFormed s.orchestrator.nodes
      → accounted lifetime s j ≡ true
      → accounted lifetime (monitor cloud disk js s now) j ≡ true
  monitor-Sound s now j w v = monitor-Sound_at s.orchestrator s.phase s.goroutines now j w v
