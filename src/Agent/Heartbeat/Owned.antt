-- ===== src/Agent/Heartbeat/Owned.antt =====
-- The heartbeats of nats-agent/agent.go against the consumer's `AckWait`. What is relied on of the
-- server: a message that is delivered, or whose progress is reported, is not delivered again before
-- the `AckWait` has passed since. Only the delivery and the reports count, not the heartbeat's start.
use serverless_gpu_linode.Common.{ℕ, zero, suc, ◌+◌, ◌≤◌, ◌<◌, ◌⊎◌, List, [], ◌∷◌}

-- One of the reports was made at the instant or before it, by less than the `AckWait`.
unfoldable pub IsOwned : ℕ → List ℕ → ℕ → Type 0
IsOwned ack_wait [] now = ⊥
IsOwned ack_wait (at ∷ rest) now = ((at ≤ now) × (now < at + ack_wait)) ⊎ IsOwned ack_wait rest now

-- The instant of the tick after so many ticks.
unfoldable pub next_tick : ℕ → ℕ → ℕ → ℕ
next_tick period start zero = start + period
next_tick period start (suc ticks) = next_tick period (start + period) ticks
