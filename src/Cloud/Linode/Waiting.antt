-- ===== src/Cloud/Linode/Waiting.antt =====
-- The polling of `WaitForRunning` in orchestrator/linode.go.
use serverless_gpu_linode.Common.{
  ℕ, zero, suc, ◌<◌, ◌≡◌, ◌∙◌, refl, ◌⊎◌, inl, inr, Bool, true, false, String, Result, ok, err,
  arith, str_eq, Result-cases, Bool-cases,
}
use serverless_gpu_linode.Cloud.Linode.{
  Instance, LinodeApi, LinodeClient, WaitEnd, wait_error, first_ip, wait_loop,
}

module _ {W : Type 0} (api : LinodeApi W) (l : LinodeClient) (id : ℕ) where
  abbrev pub poll : W → W
  poll w = (api.get_instance w id).0

  -- A poll of the world sees the instance run.
  abbrev pub is_up : W → Bool
  is_up w = elim (api.get_instance w id).1 [
    | ok inst ↦ str_eq inst.status "running"
    | err e ↦ false
  ]

  unfoldable pub polls : ℕ → W → W
  polls zero w = w
  polls (suc n) w = polls n (poll w)

  -- So many polls in a row fail, or see the instance in another state.
  unfoldable pub AreDown : ℕ → W → Type 0
  AreDown zero w = Unit
  AreDown (suc n) w = (is_up w ≡ false) × AreDown n (poll w)

  -- A poll within the ticks is the first that sees the instance run; the answer is its first
  -- address, and no call is made after it.
  pub record ComesUp (ticks : ℕ) (w : W) (answer : W × Result String String) : Type 0 where
    pub before : ℕ
    pub within : before < ticks
    pub down : AreDown before w
    pub instance_seen : Instance
    pub got : (api.get_instance (polls before w) id).1 ≡ ok instance_seen
    pub running : is_up (polls before w) ≡ true
    pub answered : answer ≡ (polls (suc before) w, ok (first_ip instance_seen.ipv4))

  goes_on :
      (ticks : ℕ) (ending : WaitEnd) (w : W)
      → is_up w ≡ false
      → wait_loop api l (suc ticks) ending w id ≡ wait_loop api l ticks ending (poll w) id
  unfolding wait_loop
  goes_on ticks ending w down = ground arith

  ComesUp-now :
      (ticks : ℕ) (ending : WaitEnd) (w : W)
      → is_up w ≡ true
      → ComesUp (suc ticks) w (wait_loop api l (suc ticks) ending w id)
  unfolding wait_loop polls AreDown
  ComesUp-now ticks ending w up = elim (Result-cases (api.get_instance w id).1) [
    | inr (e, lost) ↦ absurd (ground arith)
    | inl (inst, seen) ↦ record {
      before = 0;
      within = omega arith;
      down = tt;
      instance_seen = inst;
      got = seen;
      running = up;
      answered = ground arith;
    }
  ]

  ComesUp-later :
      (ticks : ℕ) (ending : WaitEnd) (w : W)
      → is_up w ≡ false
      → ComesUp ticks (poll w) (wait_loop api l ticks ending (poll w) id)
      → ComesUp (suc ticks) w (wait_loop api l (suc ticks) ending w id)
  unfolding polls AreDown
  ComesUp-later ticks ending w down u = record {
    before = suc u.before;
    within = omega (arith, u.within);
    down = (down, u.down);
    instance_seen = u.instance_seen;
    got = u.got;
    running = u.running;
    answered = goes_on ticks ending w down ∙ u.answered;
  }

  -- `WaitForRunning` answers with the first address of the instance at the first poll that sees it
  -- run, and polls no more; polls that fail do not end it. If no poll sees it run before the context
  -- is done or the deadline passes, it has polled at every tick, and answers with that error.
  pub wait_loop_answer :
      (ticks : ℕ) (ending : WaitEnd) (w : W)
      → ComesUp ticks w (wait_loop api l ticks ending w id)
        ⊎ (AreDown ticks w
            × (wait_loop api l ticks ending w id ≡ (polls ticks w, err (wait_error ending id))))
  unfolding wait_loop polls AreDown
  wait_loop_answer zero ending w = inr (tt, refl)
  wait_loop_answer (suc ticks) ending w = elim (Bool-cases (is_up w)) [
    | inl up ↦ inl (ComesUp-now ticks ending w up)
    | inr down ↦ elim (wait_loop_answer ticks ending (poll w)) [
      | inl later ↦ inl (ComesUp-later ticks ending w down later)
      | inr (never, answer) ↦ inr ((down, never), goes_on ticks ending w down ∙ answer)
    ]
  ]
