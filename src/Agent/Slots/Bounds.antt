-- ===== src/Agent/Slots/Bounds.antt =====
-- How many messages nats-agent/agent.go processes at a time.
use serverless_gpu_linode.Common.{ℕ, ◌+◌, ◌≤◌, ◌≡◌, refl, List, [], ◌∷◌, arith, ltb, if◌then◌else◌}
use serverless_gpu_linode.Agent.Slots.{
  Phase, selecting, acquired, holding, releasing, returned, timeout, no_messages, message,
  fetch_error, Consumer, new_consumer, Event, cancels, acquires, counts, fetches, discounts,
  finishes, leaves, acquire, fetch, finish, leave, step, run,
}

-- The slot that the loop itself holds, and the one that it has put on the gauge.
abbrev held : Phase → ℕ
held selecting = 0
held acquired = 1
held holding = 1
held (releasing r) = 0
held (returned r) = 0

abbrev counted : Phase → ℕ
counted selecting = 0
counted acquired = 0
counted holding = 1
counted (releasing r) = 1
counted (returned r) = 0

-- Every slot in use is a worker's or the loop's, and they are no more than the channel takes. The
-- gauge counts the workers until each has taken itself off, and the loop from its `Inc` to its `Dec`.
pub record IsAccounted (capacity : ℕ) (c : Consumer) : Type 0 where
  pub capacity_kept : c.capacity ≡ capacity
  pub used : c.inflight ≡ c.workers + held c.phase
  pub gauge : c.inflight_messages ≡ c.workers + c.leaving + counted c.phase
  pub bounded : c.inflight ≤ capacity

pub step-IsAccounted :
    (k : ℕ) (c : Consumer) (e : Event) → IsAccounted k c → IsAccounted k (step c e)
unfolding step acquire fetch finish leave
step-IsAccounted k c finishes a = ground (arith, a)
step-IsAccounted k c leaves a = ground (arith, a)
step-IsAccounted k c cancels a = ground (arith, a)
step-IsAccounted k c acquires a = ground (arith, a)
step-IsAccounted k c counts a = ground (arith, a)
step-IsAccounted k c (fetches timeout) a = ground (arith, a)
step-IsAccounted k c (fetches no_messages) a = ground (arith, a)
step-IsAccounted k c (fetches message) a = ground (arith, a)
step-IsAccounted k c (fetches (fetch_error e)) a = ground (arith, a)
step-IsAccounted k c (discounts done) a = ground (arith, a)

run_keeps : (k : ℕ) (c : Consumer) (es : List Event) → IsAccounted k c → IsAccounted k (run c es)
unfolding run
run_keeps k c [] a = a
run_keeps k c (e ∷ es) a = run_keeps k (step c e) es (step-IsAccounted k c e a)

-- The capacity for a setting.
abbrev pub slots : ℕ → ℕ
slots max_in_flight = if ltb 0 max_in_flight then max_in_flight else 1

-- In every interleaving of the loop and its workers, each slot in use is a worker's or the one that
-- the loop holds until `Fetch` has returned without a message, and there are at most `MaxInFlight` of
-- them (one, if that is not positive). The gauge of messages in flight is the number of workers that
-- have a slot, of those that have given it back and not yet decremented the gauge, and one while the
-- loop is between its own increment and decrement.
pub run-IsAccounted :
    (max_in_flight : ℕ) (es : List Event)
    → IsAccounted (slots max_in_flight) (run (new_consumer max_in_flight) es)
unfolding new_consumer
run-IsAccounted max_in_flight es =
    run_keeps (slots max_in_flight) (new_consumer max_in_flight) es
      (record { capacity_kept = refl; used = refl; gauge = refl; bounded = ground arith })
