-- ===== src/Agent/Heartbeat.antt =====
-- nats-agent/agent.go: the period of the `InProgress` heartbeats, from the setting to the ticker
-- (`subscribe` and `startAckProgressHeartbeat`).
pub mod Owned
use serverless_gpu_linode.Common.{
  ℕ, zero, suc, ◌+◌, Bool, List, [], ◌∷◌, ◌/◌, ◌≤◌, ◌<◌, ◌≡◌, ◌⊎◌, ◌&&◌, Option, none, some, arith,
  ltb, leb, ◌==◌, if◌then◌else◌,
}

-- One second.
abbrev pub second : ℕ
second = 1_000_000_000

-- `subscribe`: an interval that is not below the consumer's `AckWait` (`none` if the server does
-- not say) is replaced by a third of that, but at least a second.
unfoldable pub adjust_heartbeat : ℕ → Option ℕ → ℕ
adjust_heartbeat interval none = interval
adjust_heartbeat interval (some ack_wait) =
    let adjusted : ℕ = ack_wait / 3 in
    if ltb 0 ack_wait && leb ack_wait interval
    then (if ltb adjusted second then second else adjusted)
    else interval

-- `startAckProgressHeartbeat`: the ticker's period.
unfoldable pub heartbeat_period : ℕ → ℕ
heartbeat_period interval =
    let positive : ℕ = if interval == 0 then 5_000_000_000 else interval in
    if ltb positive second then second else positive

-- The loop of `startAckProgressHeartbeat`, by the ticks before it is stopped: each tick is a period
-- after the one before it. Given are the instants at which `InProgress` is called and succeeds; one
-- that fails is logged.
unfoldable pub beats : (ℕ → Bool) → ℕ → ℕ → ℕ → List ℕ
beats in_progress_ok period start zero = []
beats in_progress_ok period start (suc ticks) =
    let later = beats in_progress_ok period (start + period) ticks in
    if in_progress_ok (start + period) then (start + period) ∷ later else later

-- A heartbeat that is set comes before the consumer's `AckWait` has passed, if that is longer than
-- a second, and never more often than once a second.
pub heartbeat_period-lt-ack_wait :
    (interval ack_wait : ℕ)
    → 0 < interval
    → second < ack_wait
    → (heartbeat_period (adjust_heartbeat interval (some ack_wait)) < ack_wait)
      × (second ≤ heartbeat_period (adjust_heartbeat interval (some ack_wait)))
unfolding heartbeat_period adjust_heartbeat
heartbeat_period-lt-ack_wait interval ack_wait h k = ground arith

-- The other settings: an interval that is not set, or an `AckWait` of a second or less, gives
-- heartbeats that come too late wherever the `AckWait` is at most five seconds, or one.
pub heartbeat_period_late :
    (interval ack_wait : ℕ)
    → ((interval ≡ 0) × (ack_wait ≤ 5_000_000_000)) ⊎ (ack_wait ≤ second)
    → ack_wait ≤ heartbeat_period (adjust_heartbeat interval (some ack_wait))
unfolding heartbeat_period adjust_heartbeat
heartbeat_period_late interval ack_wait h = ground arith
