-- ===== src/Settings/Scaling/Limits.antt =====
-- `loadConfig` of orchestrator/main.go: the limits on the number of nodes.
use mathlib.Core.Path.{subst}
use serverless_gpu_linode.Common.Int.{ℤ, pos, negsuc, ltb_ℤ}
use serverless_gpu_linode.Common.Options.{◌>>=◌}
use serverless_gpu_linode.Common.{
  ℕ, ◌≤◌, ◌≡◌, ◌↔◌, refl, ap, String, false, Option, none, some, arith,
}
use serverless_gpu_linode.Settings.{Env}
use serverless_gpu_linode.Settings.Scaling.{Settings, check_limits, read_settings, load_config}

-- The limits are numbers, the least at most the greatest, and the greatest is not 0.
pub record AreLimits (cfg : Settings) (least greatest : ℕ) : Type 0 where
  pub is_least : cfg.min_nodes ≡ pos least
  pub is_greatest : cfg.max_nodes ≡ pos greatest
  pub ordered : least ≤ greatest
  pub allows_one : 1 ≤ greatest

limits_of :
    (cfg : Settings) (a b : ℤ)
    → cfg.min_nodes ≡ a
    → cfg.max_nodes ≡ b
    → ltb_ℤ a (pos 0) ≡ false
    → ltb_ℤ b (pos 1) ≡ false
    → ltb_ℤ b a ≡ false
    → (m : ℕ) × (n : ℕ) × AreLimits cfg m n
limits_of cfg (pos m) (pos n) p q x y z = (
  m,
  n,
  record { is_least = p; is_greatest = q; ordered = ground arith; allows_one = ground arith },
)
limits_of cfg (negsuc m) b p q x y z = absurd (ground arith)
limits_of cfg (pos m) (negsuc n) p q x y z = absurd (ground arith)

check_limits_sound :
    (cfg s : Settings)
    → check_limits cfg ≡ some s
    → (cfg ≡ s) × (m : ℕ) × (n : ℕ) × AreLimits cfg m n
unfolding check_limits
check_limits_sound cfg s h =
    let (same, x, y, z) : (cfg ≡ s)
        × (ltb_ℤ cfg.min_nodes (pos 0) ≡ false)
        × (ltb_ℤ cfg.max_nodes (pos 1) ≡ false)
        × (ltb_ℤ cfg.max_nodes cfg.min_nodes ≡ false) =
      ground arith in
    let (m, n, limits) = limits_of cfg cfg.min_nodes cfg.max_nodes refl refl x y z in
    (same, m, n, limits)

check_limits_complete : (cfg : Settings) (m n : ℕ) → AreLimits cfg m n → check_limits cfg ≡ some cfg
unfolding check_limits
check_limits_complete cfg m n w = ground (arith, w.is_least, w.is_greatest, w.ordered, w.allows_one)

module _ (parse_duration : String → Option ℤ) (env : Env) where
  load_config_read :
      (s : Settings) (o : Option Settings)
      → (o >>= check_limits) ≡ some s
      → (o ≡ some s) × (m : ℕ) × (n : ℕ) × AreLimits s m n
  load_config_read s none h = absurd (ground arith)
  load_config_read s (some cfg) h =
      let (same, m, n, limits) = check_limits_sound cfg s h in
      (ap (λ c. some c) same, m, n, subst (λ c. AreLimits c m n) same limits)

  -- The orchestrator goes on with settings, and does not exit, exactly when they are what can be read
  -- from the environment, their limits on nodes are not negative and in order, and the upper one
  -- allows a node.
  pub load_config_iff :
      (s : Settings)
      → (load_config parse_duration env ≡ some s)
        ↔ ((read_settings parse_duration env ≡ some s) × (m : ℕ) × (n : ℕ) × AreLimits s m n)
  unfolding load_config
  load_config_iff s = (
    load_config_read s (read_settings parse_duration env),
    λ (e, m, n, limits). rw e (check_limits_complete s m n limits),
  )
