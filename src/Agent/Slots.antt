-- ===== src/Agent/Slots.antt =====
-- nats-agent/agent.go, `consumeLoop` and the slots of `inflight`, whose goroutines interleave: the
-- loop, and one worker for each message. An event is what one of them does next; one that cannot
-- happen (a send on a full channel, a worker that does not exist, a loop that has returned) leaves
-- the state. No lock covers the channel and the gauge, so that each is an event of its own.
pub mod Bounds
use serverless_gpu_linode.Common.{
  ℕ, zero, ◌+◌, ◌-◌, String, Bool, true, false, List, [], ◌∷◌, Option, none, some, ltb,
  if◌then◌else◌,
}

-- What `Fetch(1, …)` gives.
pub data Fetched : Type 0 where
  timeout no_messages message : Fetched
  fetch_error : String → Fetched

-- Where the loop is: at its `select`, with a slot and before `Inc`, before `Fetch`, without the slot
-- again and before `Dec`, or at its end.
pub data Phase : Type 0 where
  selecting acquired holding : Phase
  releasing : Fetched → Phase
  returned : Option String → Phase

-- The channel `inflight` with what it holds, the gauge and the counter of the metrics, the workers
-- that have a slot, and those that have given it back and not yet taken themselves off the gauge.
pub record Consumer : Type 0 where
  pub capacity : ℕ
  pub inflight : ℕ
  pub inflight_messages : ℕ
  pub messages_received : ℕ
  pub workers : ℕ
  pub leaving : ℕ
  pub phase : Phase

-- `NewAgent`; a setting below 1 counts as 1.
unfoldable pub new_consumer : ℕ → Consumer
new_consumer max_in_flight = record {
  capacity = if ltb 0 max_in_flight then max_in_flight else 1;
  inflight = 0;
  inflight_messages = 0;
  messages_received = 0;
  workers = 0;
  leaving = 0;
  phase = selecting;
}

pub data Event : Type 0 where
  -- The context is done where the loop selects.
  cancels : Event
  -- The send on `inflight`, and `Inc` after it.
  acquires : Event
  counts : Event
  -- `Fetch` returns; where it gives no message, the slot is given back.
  fetches : Fetched → Event
  -- `Dec` after that, and the rest; the Boolean says whether the context is done by then.
  discounts : Bool → Event
  -- `processMessage` has returned, and the worker gives its slot back; `Dec` after it.
  finishes : Event
  leaves : Event

-- `<-a.inflight`.
abbrev pub release : Consumer → Consumer
release c = record c { inflight = c.inflight - 1 }

-- The case `a.inflight <- struct{}{}`.
unfoldable pub acquire : Consumer → Consumer
acquire c =
    if ltb c.inflight c.capacity
    then record c { inflight = c.inflight + 1; phase = acquired }
    else c

abbrev pub count : Consumer → Consumer
count c = record c { inflight_messages = c.inflight_messages + 1; phase = holding }

unfoldable pub fetch : Consumer → Fetched → Consumer
fetch c message = record c {
  messages_received = c.messages_received + 1;
  workers = c.workers + 1;
  phase = selecting;
}
fetch c timeout = record (release c) { phase = releasing timeout }
fetch c no_messages = record (release c) { phase = releasing no_messages }
fetch c (fetch_error e) = record (release c) { phase = releasing (fetch_error e) }

-- How the loop goes on without a message.
abbrev pub after : Fetched → Bool → Phase
after (fetch_error e) done = returned (if done then none else some e)
after _ done = selecting

abbrev pub discount : Consumer → Fetched → Bool → Consumer
discount c r done = record c { inflight_messages = c.inflight_messages - 1; phase = after r done }

-- A worker's deferred calls.
unfoldable pub finish : Consumer → Consumer
finish c =
    if ltb 0 c.workers
    then record (release c) { workers = c.workers - 1; leaving = c.leaving + 1 }
    else c

unfoldable pub leave : Consumer → Consumer
leave c =
    if ltb 0 c.leaving
    then record c { inflight_messages = c.inflight_messages - 1; leaving = c.leaving - 1 }
    else c

unfoldable pub step : Consumer → Event → Consumer
unfolding acquire fetch finish leave
step c finishes = finish c
step c leaves = leave c
step c cancels = elim c.phase [
  | selecting ↦ record c { phase = returned none }
  | acquired ↦ c
  | holding ↦ c
  | releasing r ↦ c
  | returned r ↦ c
]
step c acquires = elim c.phase [
  | selecting ↦ acquire c
  | acquired ↦ c
  | holding ↦ c
  | releasing r ↦ c
  | returned r ↦ c
]
step c counts = elim c.phase [
  | selecting ↦ c
  | acquired ↦ count c
  | holding ↦ c
  | releasing r ↦ c
  | returned r ↦ c
]
step c (fetches r) = elim c.phase [
  | selecting ↦ c
  | acquired ↦ c
  | holding ↦ fetch c r
  | releasing q ↦ c
  | returned e ↦ c
]
step c (discounts done) = elim c.phase [
  | selecting ↦ c
  | acquired ↦ c
  | holding ↦ c
  | releasing r ↦ discount c r done
  | returned e ↦ c
]

unfoldable pub run : Consumer → List Event → Consumer
unfolding step
run c [] = c
run c (e ∷ es) = run (step c e) es
