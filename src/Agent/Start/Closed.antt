-- ===== src/Agent/Start/Closed.antt =====
-- How `Run` of nats-agent/agent.go ends.
use serverless_gpu_linode.Common.{
  ℕ, String, true, ◌≡◌, ◌↔◌, inl, inr, refl, Option, none, some, Result, ok, arith, Result-cases,
  Option-cases,
}
use serverless_gpu_linode.Connection.{Nats, connect_nats}
use serverless_gpu_linode.JetStream.{JetStream}
use serverless_gpu_linode.Settings.Workers.{Settings}
use serverless_gpu_linode.Agent.Start.{
  Subscriptions, Ending, signalled, consumed, wait_for_inflight, ensure_dlq_stream, subscribe, stop,
  run_agent,
}

-- The wait ends without an error of the loop, and with the workers done.
abbrev pub IsClean : Ending → Type 0
IsClean (signalled done) = done ≡ true
IsClean (consumed none done) = done ≡ true
IsClean (consumed (some e) done) = ⊥

module _ {W C S : Type 0} (nats : Nats W C (JetStream W)) (subs : Subscriptions W S)
    (cfg : Settings) where
  stop_iff :
      (v : W) (nc : C) (sub : S) (ending : Ending)
      → ((stop nats subs v cfg nc sub ending).1 ≡ none) ↔ IsClean ending
  unfolding stop wait_for_inflight
  stop_iff v nc sub (signalled done) = ground arith
  stop_iff v nc sub (consumed none done) = ground arith
  stop_iff v nc sub (consumed (some e) done) = ground arith

  stop_closes :
      (v : W) (nc : C) (sub : S) (ending : Ending)
      → (u : W) × ((stop nats subs v cfg nc sub ending).0 ≡ nats.close u nc)
  unfolding stop
  stop_closes v nc sub (signalled done) = (subs.unsubscribe (subs.drain v sub).0 sub, refl)
  stop_closes v nc sub (consumed none done) = (subs.unsubscribe v sub, refl)
  stop_closes v nc sub (consumed (some e) done) = (subs.unsubscribe v sub, refl)

  module _ (w : W) (nc : C) (js : JetStream W)
      (connected : (connect_nats nats w cfg.nats_url none).1 ≡ ok (nc, js)) where
    abbrev pub dlq_ensured : W × Option String
    dlq_ensured = ensure_dlq_stream js (connect_nats nats w cfg.nats_url none).0 cfg

    abbrev pub subscribed : W × Result String (S × ℕ)
    subscribed = subscribe js subs dlq_ensured.0 cfg

    -- If the connection is made, then however the agent goes on, closing it is the last thing that
    -- is done; and it ends without an error exactly if there is a dead-letter stream, the
    -- subscription is made, the loop ends without an error, and the workers are done in time.
    pub run_agent_closes :
        (ending : Ending)
        → ((u : W) × ((run_agent nats subs w cfg ending).0 ≡ nats.close u nc))
          × (((run_agent nats subs w cfg ending).1 ≡ none) ↔ (
              (dlq_ensured.1 ≡ none)
              × ((sub : S) × (interval : ℕ) × (subscribed.1 ≡ ok (sub, interval)))
              × IsClean ending))
    unfolding run_agent
    run_agent_closes ending = elim (Option-cases dlq_ensured.1) [
      | inr (e, lost) ↦ ((dlq_ensured.0, ground arith), (λ h. ground arith, λ h. ground arith))
      | inl there ↦ elim (Result-cases subscribed.1) [
        | inr (e, refused) ↦ ((subscribed.0, ground arith), (λ h. ground arith, λ h. ground arith))
        | inl ((sub, interval), made) ↦
            let e : run_agent nats subs w cfg ending
                ≡ stop nats subs subscribed.0 cfg nc sub ending =
              ground arith in
            rw e (
              stop_closes subscribed.0 nc sub ending,
              (
                λ h. (there, (sub, interval, made), (stop_iff subscribed.0 nc sub ending).0 h),
                λ h. (stop_iff subscribed.0 nc sub ending).1 h.2,
              ),
            )
      ]
    ]
