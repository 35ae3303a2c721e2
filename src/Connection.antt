-- ===== src/Connection.antt =====
-- The connection to NATS: `connectNATS` of orchestrator/orchestrator.go and nats-agent/agent.go, and
-- `newAPI` of api/main.go. Package nats.go is a parameter: connecting, asking a connection for
-- JetStream, closing it, and whether it is up. The handlers that only log are left out.
use serverless_gpu_linode.Common.Int.{ℤ, negsuc}
use serverless_gpu_linode.Common.{ℕ, String, Bool, true, Option, Result, ok, err}

pub record ConnectOptions : Type 0 where
  pub name : Option String
  pub retry_on_failed_connect : Bool
  pub max_reconnects : ℤ
  pub reconnect_wait : ℕ

-- Connections `C` and their contexts `J`.
pub record Nats (W C J : Type 0) : Type 0 where
  pub connect : W → String → ConnectOptions → W × Result String C
  pub jetstream : W → C → W × Result String J
  pub close : W → C → W
  pub is_connected : W → C → Bool

-- It keeps trying, without end.
abbrev pub connect_options : Option String → ConnectOptions
connect_options name = record {
  name = name;
  retry_on_failed_connect = true;
  max_reconnects = negsuc 0;
  reconnect_wait = 2_000_000_000;
}

module _ {W C J : Type 0} (nats : Nats W C J) where
  unfoldable pub connect_nats : W → String → Option String → W × Result String (C × J)
  connect_nats w url name =
      let (w₁, r₁) = nats.connect w url (connect_options name) in
      elim r₁ [
        | err e ↦ (w₁, err e)
        | ok nc ↦
            let (w₂, r₂) = nats.jetstream w₁ nc in
            elim r₂ [ err e ↦ (nats.close w₂ nc, err e) | ok js ↦ (w₂, ok (nc, js)) ]
      ]
