-- ===== src/Agent/Processing/Loop.antt =====
-- The loop of `processMessage` in nats-agent/agent.go: which attempts are made, and how often each
-- kind of action is taken.
use serverless_gpu_linode.Common.{
  ℕ, zero, suc, ◌+◌, ◌≤◌, ◌≡◌, ap, refl, ◌⊎◌, inl, inr, Bool, true, false, List, arith, count_if,
  Bool-cases,
}
use serverless_gpu_linode.Agent.{Config, Message}
use serverless_gpu_linode.Agent.Failure.{
  Forwarded, forward_to_ai, is_success, is_non_retryable_status,
}
use serverless_gpu_linode.Agent.Processing.{
  Action, forwards, publishes, acks, naks, naks_with_delay, Replies, Handler, nak, reject_invalid,
  dead_letter, attempted, failed, succeeded, pause, give_up, attempts, publish_to_dlq,
}

abbrev pub is_forward : Action → Bool
is_forward (forwards _) = true
is_forward _ = false

abbrev pub is_publish : Action → Bool
is_publish (publishes _ _) = true
is_publish _ = false

abbrev pub is_ack : Action → Bool
is_ack acks = true
is_ack _ = false

-- The nak that stands: a plain one, which is the last resort, or a delayed one that has worked.
abbrev pub is_release : Replies → Action → Bool
is_release r naks = true
is_release r (naks_with_delay _) = r.nak_with_delay_ok
is_release r _ = false

-- How often each kind of action stands in a log.
pub record Tally (r : Replies) (log : List Action) (forwarded published acked released : ℕ)
    : Type 0 where
  pub forwards_made : count_if is_forward log ≡ forwarded
  pub publishes_made : count_if is_publish log ≡ published
  pub acks_made : count_if is_ack log ≡ acked
  pub releases_made : count_if (is_release r) log ≡ released

module _ (cfg : Config) (r : Replies) (msg : Message) where
  abbrev pub Succeeds : ℕ → Type 0
  Succeeds k = is_success (forward_to_ai (r.forward k)) ≡ true

  abbrev pub Fails : ℕ → Type 0
  Fails k = is_success (forward_to_ai (r.forward k)) ≡ false

  abbrev pub IsFinal : ℕ → Type 0
  IsFinal k = is_non_retryable_status (forward_to_ai (r.forward k)).status ≡ true

  -- The attempts `k`, `k + 1`, … of a number of them fail in a way that is tried again.
  abbrev pub AreRetried : ℕ → ℕ → Type 0
  AreRetried k zero = Unit
  AreRetried k (suc n) =
      Fails k
      × (is_non_retryable_status (forward_to_ai (r.forward k)).status ≡ false)
      × AreRetried (k + 1) n

  pub nak-Tally :
      (h : Handler) (f p a n : ℕ)
      → Tally r h.log f p a n
      → Tally r (nak cfg r h).0.log f p a (n + 1)
  unfolding nak count_if
  nak-Tally h f p a n t = ground arith

  -- A message that is given up is published to the dead-letter queue, and then acknowledged, or
  -- given back if the publication has failed.
  abbrev pub Ended : Handler → ℕ → ℕ → ℕ → ℕ → Type 0
  Ended h f p a n =
      ((r.publish_ok ≡ true) × Tally r h.log f (p + 1) (a + 1) n)
      ⊎ ((r.publish_ok ≡ false) × Tally r h.log f (p + 1) a (n + 1))

  give_up-Ended :
      (delivered : ℕ) (x : Forwarded) (h : Handler) (f p a n : ℕ)
      → Tally r h.log f p a n
      → Ended (give_up cfg r msg delivered x h) f p a n
  unfolding give_up dead_letter publish_to_dlq count_if nak
  give_up-Ended delivered x h f p a n t = ground arith

  pub reject_invalid-Ended :
      (delivered : ℕ) (h : Handler) (f p a n : ℕ)
      → Tally r h.log f p a n
      → Ended (reject_invalid cfg r msg delivered h) f p a n
  unfolding reject_invalid publish_to_dlq count_if nak
  reject_invalid-Ended delivered h f p a n t = ground arith

  -- The loop, from attempt `first` with `left` more after it: `m` attempts are tried again, and
  -- attempt `last` is the one that ends it.
  pub record LoopEnds (h' : Handler) (first left f p a n m last : ℕ) : Type 0 where
    pub last_eq : last ≡ first + m
    pub within : m ≤ left
    pub retried : AreRetried first m
    pub outcome :
        (Succeeds last × Tally r h'.log (f + m + 1) p (a + 1) n)
        ⊎ (Fails last × (IsFinal last ⊎ (m ≡ left)) × Ended h' (f + m + 1) p a n)

  attempted-Tally :
      (h : Handler) (k start f p a n : ℕ)
      → Tally r h.log f p a n
      → Tally r (failed (r.answered_at k) (attempted r msg k start h)).log (f + 1) p a n
  unfolding count_if
  attempted-Tally h k start f p a n t = ground arith

  pause-Tally :
      (h : Handler) (f p a n : ℕ) → Tally r h.log f p a n → Tally r (pause cfg h).log f p a n
  unfolding count_if
  pause-Tally h f p a n t = ground arith

  succeeded-Tally :
      (h : Handler) (k start f p a n : ℕ)
      → Tally r h.log f p a n
      → Tally r (succeeded r (r.answered_at k) (attempted r msg k start h)).log (f + 1) p (a + 1) n
  unfolding count_if
  succeeded-Tally h k start f p a n t = ground arith

  module _ (delivered k start : ℕ) (h : Handler) where
    abbrev reply : Forwarded
    reply = forward_to_ai (r.forward k)

    abbrev tried : Handler
    tried = attempted r msg k start h

    abbrev lost : Handler
    lost = failed (r.answered_at k) tried

    attempts_good :
        (left : ℕ)
        → Succeeds k
        → attempts cfg r msg delivered left k start h ≡ succeeded r (r.answered_at k) tried
    unfolding attempts
    attempts_good zero e = rw e
    attempts_good (suc left) e = rw e

    attempts_over :
        Fails k
        → attempts cfg r msg delivered zero k start h ≡ give_up cfg r msg delivered reply lost
    unfolding attempts
    attempts_over e = rw e

    attempts_final :
        (left : ℕ)
        → Fails k
        → IsFinal k
        → attempts cfg r msg delivered (suc left) k start h ≡ give_up cfg r msg delivered reply lost
    unfolding attempts
    attempts_final left e g = rw (e, g)

    attempts_again :
        (left : ℕ)
        → Fails k
        → is_non_retryable_status reply.status ≡ false
        → attempts cfg r msg delivered (suc left) k start h
          ≡ attempts cfg r msg delivered left (k + 1) (r.answered_at k) (pause cfg lost)
    unfolding attempts
    attempts_again left e g = rw (e, g)

  -- The attempt `k` ends the loop, at once.
  ends_here :
      (h' : Handler) (k left f p a n : ℕ)
      → (Succeeds k × Tally r h'.log (f + 1) p (a + 1) n)
        ⊎ (Fails k × (IsFinal k ⊎ (0 ≡ left)) × Ended h' (f + 1) p a n)
      → LoopEnds h' k left f p a n 0 k
  ends_here h' k left f p a n o =
      let f_eq : f + 0 + 1 ≡ f + 1 = omega arith in
      record { last_eq = omega arith; within = omega arith; retried = tt; outcome = rw f_eq o }

  -- One attempt is tried again, and the rest ends the loop.
  ends_later :
      (h' : Handler) (k left f p a n m last : ℕ)
      → Fails k
      → is_non_retryable_status (forward_to_ai (r.forward k)).status ≡ false
      → LoopEnds h' (k + 1) left (f + 1) p a n m last
      → LoopEnds h' k (suc left) f p a n (suc m) last
  ends_later h' k left f p a n m last e g l =
      let f_eq : f + suc m + 1 ≡ f + 1 + m + 1 = omega arith in
      record {
        last_eq = omega (arith, l.last_eq);
        within = omega (arith, l.within);
        retried = (e, g, l.retried);
        outcome = rw f_eq (elim l.outcome [
          | inl s ↦ inl s
          | inr (x, inl y, z) ↦ inr (x, inl y, z)
          | inr (x, inr y, z) ↦ inr (x, inr (ap suc y), z)
        ]);
      }

  -- What the loop does with its first attempt if that fails: it ends, or goes on as it is told.
  ends_failing :
      (delivered left k start : ℕ) (h : Handler) (f p a n : ℕ)
      → Tally r h.log f p a n
      → Fails k
      → ((g : is_non_retryable_status (forward_to_ai (r.forward k)).status ≡ false)
          → (m : ℕ) × (last : ℕ) × LoopEnds
              (attempts cfg r msg delivered (suc left) k start h)
              k
              (suc left)
              f
              p
              a
              n
              m
              last)
      → (m : ℕ) × (last : ℕ) × LoopEnds
          (attempts cfg r msg delivered (suc left) k start h)
          k
          (suc left)
          f
          p
          a
          n
          m
          last
  ends_failing delivered left k start h f p a n t bad again =
      let lost_t = attempted-Tally h k start f p a n t in
      elim (Bool-cases (is_non_retryable_status (forward_to_ai (r.forward k)).status)) [
        | inr g ↦ again g
        | inl g ↦ (
          0,
          k,
          rw (attempts_final delivered k start h left bad g) (
              ends_here _ k (suc left) f p a n
                (inr (bad, inl g, give_up-Ended delivered _ _ (f + 1) p a n lost_t))),
        )
      ]

  pub attempts-LoopEnds :
      (delivered left k start : ℕ) (h : Handler) (f p a n : ℕ)
      → Tally r h.log f p a n
      → (m : ℕ) × (last : ℕ) × LoopEnds
          (attempts cfg r msg delivered left k start h)
          k
          left
          f
          p
          a
          n
          m
          last
  attempts-LoopEnds delivered zero k start h f p a n t =
      elim (Bool-cases (is_success (forward_to_ai (r.forward k)))) [
        | inl good ↦ (
          0,
          k,
          rw (attempts_good delivered k start h zero good)
              (ends_here _ k zero f p a n (inl (good, succeeded-Tally h k start f p a n t))),
        )
        | inr bad ↦
            let lost_t = attempted-Tally h k start f p a n t in
            (
              0,
              k,
              rw (attempts_over delivered k start h bad) (
                  ends_here _ k zero f p a n
                    (inr (bad, inr refl, give_up-Ended delivered _ _ (f + 1) p a n lost_t))),
            )
      ]
  attempts-LoopEnds delivered (suc left) k start h f p a n t =
      elim (Bool-cases (is_success (forward_to_ai (r.forward k)))) [
        | inl good ↦ (
          0,
          k,
          rw (attempts_good delivered k start h (suc left) good)
              (ends_here _ k (suc left) f p a n (inl (good, succeeded-Tally h k start f p a n t))),
        )
        | inr bad ↦ ends_failing delivered left k start h f p a n t bad (λ g.
            let paused = pause-Tally _ (f + 1) p a n (attempted-Tally h k start f p a n t) in
            let (m, last, l) =
              attempts-LoopEnds delivered left (k + 1) (r.answered_at k)
                (pause cfg (failed (r.answered_at k) (attempted r msg k start h))) (f + 1) p a n
                paused in
            (
              suc m,
              last,
              rw (attempts_again delivered k start h left bad g)
                  (ends_later _ k left f p a n m last bad g l),
            ))
      ]
