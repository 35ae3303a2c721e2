-- ===== src/Scaler/Actions/Up.antt =====
-- What `ScaleUp` of orchestrator/scaler.go does on each of its branches.
use serverless_gpu_linode.StateMachine.Lookup.{get_node-add_node, add_node_ok}
use serverless_gpu_linode.StateMachine.Updates.{active_count-add_node}
use serverless_gpu_linode.Common.{
  ℕ, ◌+◌, ◌≤◌, ◌≡◌, ◌⊎◌, inl, inr, String, none, some, Result, ok, err, arith, Result-cases,
  Bool-cases, leb, ◌<◌,
}
use serverless_gpu_linode.StateMachine.{fresh_node, add_node, get_node, active_count}
use serverless_gpu_linode.Metrics.{update_node_counts, record_scale_event}
use serverless_gpu_linode.Cloud.{CloudProvider}
use serverless_gpu_linode.Orchestrator.{Orchestrator}
use serverless_gpu_linode.Scaler.{Task, wait_task}
use serverless_gpu_linode.Scaler.Actions.{
  ScaleError, Created, node_label, scale_up_create, scale_up_track, scale_up,
}

module _ {W : Type 0} (cloud : CloudProvider W) (o : Orchestrator W) where
  -- The second half succeeds exactly by tracking the new instance.
  track_ok :
      (c : Created) (now : ℕ) {t : Task}
      → (scale_up_track cloud o c now).1 ≡ ok t
      → let o' = (scale_up_track cloud o c now).0 in
        (get_node o.nodes c.id ≡ none)
        × (get_node o'.nodes c.id ≡ some (fresh_node c.id c.label now))
        × (active_count o'.nodes ≡ active_count o.nodes + 1)
        × (o'.last_scale_event ≡ some now)
        × (o'.metrics.node_count ≡ active_count o'.nodes)
        × (o'.world ≡ o.world)
        × (t ≡ wait_task c.id now)
  unfolding scale_up_track update_node_counts record_scale_event
  track_ok c now h = elim (Result-cases (add_node o.nodes c.id c.label now).1) [
    | inl (n, e) ↦ ground (
      arith,
      add_node_ok o.nodes c.id c.label now e,
      get_node-add_node o.nodes c.id c.id c.label now e,
      active_count-add_node o.nodes c.id c.label now e,
    )
    | inr (x, e) ↦ ground arith
  ]

  -- It fails only where the instance cannot be tracked; then the provider is told to destroy the
  -- instance, and nothing else changes.
  track_err :
      (c : Created) (now : ℕ) {x : ScaleError}
      → (scale_up_track cloud o c now).1 ≡ err x
      → (scale_up_track cloud o c now).0 ≡ record o { world = (cloud.destroy_node o.world c.id).0 }
  unfolding scale_up_track
  track_err c now h = ground arith

module _ {W : Type 0} (cloud : CloudProvider W) (o : Orchestrator W) where
  -- The call of the provider that `ScaleUp` makes.
  abbrev pub creation : ℕ → W × Result String ℕ
  creation start = cloud.create_gpu_node o.world (node_label (active_count o.nodes) start)

  create_ok :
      (start : ℕ) {c : Created}
      → (scale_up_create cloud o start).1 ≡ ok c
      → ((creation start).1 ≡ ok c.id)
        × (active_count o.nodes < o.cfg.max_nodes)
        × (c.label ≡ node_label (active_count o.nodes) start)
        × ((scale_up_create cloud o start).0 ≡ record o { world = (creation start).0 })
  unfolding scale_up_create
  create_ok start h = ground arith

  create_err :
      (start : ℕ) {x : ScaleError}
      → (scale_up_create cloud o start).1 ≡ err x
      → ((o.cfg.max_nodes ≤ active_count o.nodes) × ((scale_up_create cloud o start).0 ≡ o))
        ⊎ ((e : String) × ((creation start).1 ≡ err e)
            × ((scale_up_create cloud o start).0 ≡ record o { world = (creation start).0 }))
  unfolding scale_up_create
  create_err start h = elim (Result-cases (creation start).1) [
    | inl (c, e) ↦ ground arith
    | inr (e, f) ↦ elim (Bool-cases (leb o.cfg.max_nodes (active_count o.nodes))) [
      | inl full ↦ inl (ground arith)
      | inr room ↦ inr (e, f, ground arith)
    ]
  ]

  -- There was room below `MaxNodes`, the provider has created an instance under the ID, which was
  -- not tracked, the node is tracked as provisioning under that ID and the label of the call, the
  -- active count has grown by one, the cooldown starts now, the gauge of nodes is exact, and the
  -- world is as the creation left it.
  pub record ScaledUp (start now id : ℕ) (o' : Orchestrator W) : Type 0 where
    pub created : (creation start).1 ≡ ok id
    pub room : active_count o.nodes < o.cfg.max_nodes
    pub untracked : get_node o.nodes id ≡ none
    pub tracked :
        get_node o'.nodes id ≡ some (fresh_node id (node_label (active_count o.nodes) start) now)
    pub grown : active_count o'.nodes ≡ active_count o.nodes + 1
    pub cooling : o'.last_scale_event ≡ some now
    pub gauge : o'.metrics.node_count ≡ active_count o'.nodes
    pub world : o'.world ≡ (creation start).0

  -- The same nodes as before, and the same start of the cooldown.
  pub record NotScaled (o' : Orchestrator W) : Type 0 where
    pub nodes : o'.nodes ≡ o.nodes
    pub last_scale_event : o'.last_scale_event ≡ o.last_scale_event
    pub gauge : o'.metrics ≡ o.metrics

  -- If `ScaleUp` succeeds, the provider has created an instance, there was room for it, and its ID
  -- was not tracked. The node is tracked as provisioning under that ID and the label of the call,
  -- the active count has grown by one, the cooldown starts now, the gauge of nodes is exact, and the
  -- world is as the creation left it. What is started is the wait for this node.
  pub scale_up_ok :
      (start now : ℕ) {t : Task}
      → (scale_up cloud o start now).1 ≡ ok t
      → (id : ℕ) × ScaledUp start now id (scale_up cloud o start now).0 × (t ≡ wait_task id now)
  unfolding scale_up
  scale_up_ok start now {t} h = elim (Result-cases (scale_up_create cloud o start).1) [
    | inl (c, e) ↦
        let made = create_ok start e in
        let tracked =
          track_ok cloud (scale_up_create cloud o start).0 c now {t = t} (ground arith) in
        (c.id, ground arith, ground arith)
    | inr (x, e) ↦ cc
  ]

  -- If `ScaleUp` fails, the nodes, the cooldown and the metrics are as before, and the world is untouched
  -- at the cap, as the failed creation left it, or, where an instance was created that cannot be
  -- tracked, as the provider's destruction of that instance left it.
  pub scale_up_err :
      (start now : ℕ) {x : ScaleError}
      → (scale_up cloud o start now).1 ≡ err x
      → let o' = (scale_up cloud o start now).0 in
        NotScaled o'
        × ((o'.world ≡ o.world) × (o.cfg.max_nodes ≤ active_count o.nodes)
            ⊎ ((e : String) × ((creation start).1 ≡ err e) × (o'.world ≡ (creation start).0))
            ⊎ ((id : ℕ) × ((creation start).1 ≡ ok id)
                × (o'.world ≡ (cloud.destroy_node (creation start).0 id).0)))
  unfolding scale_up
  scale_up_err start now {x} h = elim (Result-cases (scale_up_create cloud o start).1) [
    | inl (c, e) ↦
        let made = create_ok start e in
        let undone =
          track_err cloud (scale_up_create cloud o start).0 c now {x = x} (ground arith) in
        (ground arith, inr (inr (c.id, ground arith, ground arith)))
    | inr (y, e) ↦ elim (create_err start e) [
      | inl full ↦ (ground arith, inl (ground arith))
      | inr (msg, failed, left) ↦ (ground arith, inr (inl (msg, ground arith, ground arith)))
    ]
  ]
