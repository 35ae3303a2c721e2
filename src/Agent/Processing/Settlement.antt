-- ===== src/Agent/Processing/Settlement.antt =====
-- How `processMessage` of nats-agent/agent.go settles a message, from a log in which nothing has
-- been done.
use serverless_gpu_linode.Common.{
  ℕ, ◌+◌, ◌-◌, ◌≤◌, ◌<◌, ◌≡◌, refl, ◌⊎◌, inl, inr, Bool, true, false, List, [], arith, count_if,
  Bool-cases, not, ◌∷◌,
}
use serverless_gpu_linode.Agent.{Config, Message}
use serverless_gpu_linode.Agent.Heartbeat.{heartbeat_period}
use serverless_gpu_linode.Agent.Processing.{
  Action, forwards, publishes, acks, naks, naks_with_delay, sleeps, Replies, Handler,
  starts_heartbeat, stops_heartbeat, acts, attempts, delivered_count, max_attempts, process_message,
}
use serverless_gpu_linode.Agent.Processing.Loop.{
  is_ack, is_publish, is_release, Tally, Succeeds, Fails, IsFinal, AreRetried, Ended, nak-Tally,
  reject_invalid-Ended, attempts-LoopEnds,
}

-- At least one attempt is allowed.
max_attempts-pos : (cfg : Config) → 1 ≤ max_attempts cfg
max_attempts-pos cfg = ground arith

module _ (r : Replies) where
  -- A call that settles the message and works, and one that is the last and fails.
  abbrev pub is_taken : Action → Bool
  is_taken acks = r.ack_ok
  is_taken naks = r.nak_ok
  is_taken (naks_with_delay d) = r.nak_with_delay_ok
  is_taken _ = false

  abbrev pub is_refused : Action → Bool
  is_refused acks = not r.ack_ok
  is_refused naks = not r.nak_ok
  is_refused _ = false

  taken_or_refused :
      (log : List Action)
      → count_if is_taken log + count_if is_refused log
        ≡ count_if is_ack log + count_if (is_release r) log
  unfolding count_if
  taken_or_refused [] = refl
  taken_or_refused (acks ∷ log) = ground (arith, taken_or_refused log)
  taken_or_refused (naks ∷ log) = ground (arith, taken_or_refused log)
  taken_or_refused (naks_with_delay d ∷ log) = ground (arith, taken_or_refused log)
  taken_or_refused (forwards p ∷ log) = taken_or_refused log
  taken_or_refused (publishes s e ∷ log) = taken_or_refused log
  taken_or_refused (sleeps d ∷ log) = taken_or_refused log
  taken_or_refused (starts_heartbeat i ∷ log) = taken_or_refused log
  taken_or_refused (stops_heartbeat ∷ log) = taken_or_refused log

  never_refused :
      r.ack_ok ≡ true → r.nak_ok ≡ true → (log : List Action) → count_if is_refused log ≡ 0
  unfolding count_if
  never_refused e f [] = refl
  never_refused e f (acks ∷ log) = ground (arith, never_refused e f log)
  never_refused e f (naks ∷ log) = ground (arith, never_refused e f log)
  never_refused e f (naks_with_delay d ∷ log) = never_refused e f log
  never_refused e f (forwards p ∷ log) = never_refused e f log
  never_refused e f (publishes s x ∷ log) = never_refused e f log
  never_refused e f (sleeps d ∷ log) = never_refused e f log
  never_refused e f (starts_heartbeat i ∷ log) = never_refused e f log
  never_refused e f (stops_heartbeat ∷ log) = never_refused e f log

module _ (json_valid : List ℕ → Bool) (cfg : Config) (interval : ℕ) (r : Replies) (msg : Message)
    (h : Handler) (fresh : h.log ≡ []) where
  abbrev processed : Bool → Handler
  processed shutting_down = process_message json_valid cfg interval shutting_down r msg h

  start-Tally : Tally r h.log 0 0 0 0
  unfolding count_if
  start-Tally = rw fresh (record {
    forwards_made = refl;
    publishes_made = refl;
    acks_made = refl;
    releases_made = refl;
  })

  -- An agent that is shutting down makes no attempt, and gives the message back.
  shutting_down-Tally : Tally r (processed true).log 0 0 0 1
  unfolding process_message
  shutting_down-Tally = nak-Tally cfg r msg h 0 0 0 0 start-Tally

  -- A payload that is not JSON is not forwarded.
  invalid-Ended : json_valid msg.payload ≡ false → Ended cfg r msg (processed false) 0 0 0 0
  unfolding process_message
  invalid-Ended e = rw e (reject_invalid-Ended cfg r msg _ h 0 0 0 0 start-Tally)

  bracket-Tally :
      (k : Handler) (f p a n : ℕ)
      → Tally r k.log f p a n
      → Tally r (acts stops_heartbeat k).log f p a n
  unfolding count_if
  bracket-Tally k f p a n t = ground arith

  -- If the payload is JSON and the agent is not shutting down, there is a last attempt, at most
  -- `MaxDeliver` (or one, if that is not positive). All attempts before it fail with another
  -- status than 4xx. Either it succeeds, and the message is acknowledged and nothing else; or it
  -- fails with a 4xx status or is the last that is allowed, and the message is published to the
  -- dead-letter queue, and then acknowledged if that works and given back if not. The payload is
  -- forwarded exactly as often as there are attempts.
  pub process_message_attempts :
      json_valid msg.payload ≡ true
      → (m : ℕ) × (last : ℕ) × (last ≡ m + 1)
        × (last ≤ max_attempts cfg)
        × AreRetried cfg r msg 1 m
        × ((Succeeds cfg r msg last × Tally r (processed false).log last 0 1 0)
            ⊎ (Fails cfg r msg last
                × (IsFinal cfg r msg last ⊎ (last ≡ max_attempts cfg))
                × (((r.publish_ok ≡ true) × Tally r (processed false).log last 1 1 0)
                    ⊎ ((r.publish_ok ≡ false) × Tally r (processed false).log last 1 0 1))))
  unfolding process_message
  process_message_attempts e =
      let h₀ : Handler = acts (starts_heartbeat (heartbeat_period interval)) h in
      let t₀ : Tally r h₀.log 0 0 0 0 = unfold count_if in ground (arith, start-Tally) in
      let (m, last, l) =
        attempts-LoopEnds cfg r msg (delivered_count msg) (max_attempts cfg - 1) 1 r.started_at h₀ 0
          0 0 0 t₀ in
      let some_attempt = max_attempts-pos cfg in
      let made : 0 + m + 1 ≡ last = omega (arith, l.last_eq) in
      let looped : Handler =
        attempts cfg r msg (delivered_count msg) (max_attempts cfg - 1) 1 r.started_at h₀ in
      (
        m,
        last,
        omega (arith, l.last_eq),
        omega (arith, l.last_eq, l.within),
        l.retried,
        rw e (elim l.outcome [
          | inl (s, t) ↦ inl (s, bracket-Tally looped last 0 1 0 (rw made at t))
          | inr (f, why, inl (p, t)) ↦ inr (
            f,
            last_or why (omega (arith, l.last_eq)),
            inl (p, bracket-Tally looped last 1 1 0 (rw made at t)),
          )
          | inr (f, why, inr (p, t)) ↦ inr (
            f,
            last_or why (omega (arith, l.last_eq)),
            inr (p, bracket-Tally looped last 1 0 1 (rw made at t)),
          )
        ]),
      )
    where
      last_or :
          {A : Type 0} {m last : ℕ}
          → A ⊎ (m ≡ max_attempts cfg - 1)
          → last ≡ 1 + m
          → A ⊎ (last ≡ max_attempts cfg)
      last_or (inl x) q = inl x
      last_or (inr x) q = inr (omega (arith, max_attempts-pos cfg))

  abbrev settled : Handler → ℕ
  settled k = count_if is_ack k.log + count_if (is_release r) k.log

  settles_once : (shutting_down : Bool) → settled (processed shutting_down) ≡ 1
  settles_once true =
      omega (arith, shutting_down-Tally.acks_made, shutting_down-Tally.releases_made)
  settles_once false = elim (Bool-cases (json_valid msg.payload)) [
    | inr e ↦ elim (invalid-Ended e) [
      | inl (_, t) ↦ omega (arith, t.acks_made, t.releases_made)
      | inr (_, t) ↦ omega (arith, t.acks_made, t.releases_made)
    ]
    | inl e ↦
        let (m, last, after, within, retried, outcome) = process_message_attempts e in
        elim outcome [
          | inl (_, t) ↦ omega (arith, t.acks_made, t.releases_made)
          | inr (_, _, inl (_, t)) ↦ omega (arith, t.acks_made, t.releases_made)
          | inr (_, _, inr (_, t)) ↦ omega (arith, t.acks_made, t.releases_made)
        ]
  ]

  -- On every path from an empty log, once the message is handled, exactly one call has been made to
  -- settle it: one acknowledgement or one nak, where a delayed nak that fails does not count, since a
  -- plain one follows it. This call has either worked or failed with an error that nothing follows up,
  -- so that at most one settling call has worked, and exactly one where neither `Ack` nor the plain
  -- `Nak` fails.
  pub process_message_settles_once :
      (shutting_down : Bool)
      → (settled (processed shutting_down) ≡ 1)
        × (count_if (is_taken r) (processed shutting_down).log
              + count_if (is_refused r) (processed shutting_down).log
            ≡ 1)
        × ((count_if (is_taken r) (processed shutting_down).log ≡ 1)
            ⊎ (r.ack_ok ≡ false)
            ⊎ (r.nak_ok ≡ false))
  process_message_settles_once shutting_down =
      let once = settles_once shutting_down in
      let sum = taken_or_refused r (processed shutting_down).log in
      (
        once,
        omega (arith, once, sum),
        elim (Bool-cases r.ack_ok) [
          | inr e ↦ inr (inl e)
          | inl e ↦ elim (Bool-cases r.nak_ok) [
            | inr f ↦ inr (inr f)
            | inl f ↦
                let none_refused = never_refused r e f (processed shutting_down).log in
                inl (omega (arith, once, sum, none_refused))
          ]
        ],
      )

  -- An acknowledgement is sent only where an attempt has succeeded or the message has been
  -- published to the dead-letter queue, and the publication has worked.
  pub process_message_acks_safely :
      (shutting_down : Bool)
      → 0 < count_if is_ack (processed shutting_down).log
      → ((k : ℕ) × (1 ≤ k) × (k ≤ max_attempts cfg) × Succeeds cfg r msg k)
        ⊎ ((r.publish_ok ≡ true) × (count_if is_publish (processed shutting_down).log ≡ 1))
  process_message_acks_safely true g = absurd (omega (arith, shutting_down-Tally.acks_made))
  process_message_acks_safely false g = elim (Bool-cases (json_valid msg.payload)) [
    | inr e ↦ elim (invalid-Ended e) [
      | inl (ok, t) ↦ inr (ok, omega (arith, t.publishes_made))
      | inr (_, t) ↦ absurd (omega (arith, t.acks_made))
    ]
    | inl e ↦
        let (m, last, after, within, retried, outcome) = process_message_attempts e in
        elim outcome [
          | inl (s, t) ↦ inl (last, omega (arith, after), within, s)
          | inr (_, _, inl (ok, t)) ↦ inr (ok, omega (arith, t.publishes_made))
          | inr (_, _, inr (_, t)) ↦ absurd (omega (arith, t.acks_made))
        ]
  ]
