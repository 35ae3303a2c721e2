-- ===== src/Settings.antt =====
-- The settings of the services, from the environment: orchestrator/main.go, nats-agent/main.go and
-- api/main.go. `os.Getenv` is a function on texts that is empty on a variable that is not set, and
-- `none` stands for `os.Exit(1)`. `time.ParseDuration`, which computes with floating point, is a
-- parameter; `strconv.Atoi` is written out.
pub mod Atoi
pub mod Scaling
pub mod Workers
pub mod Services
pub mod Shared
use serverless_gpu_linode.Common.Int.{ℤ, pos, negsuc, ltb_ℤ}
use serverless_gpu_linode.Common.Options.{◌>>=◌}
use serverless_gpu_linode.Common.{
  ℕ, ◌*◌, String, ◌+++◌, Bool, true, false, not, ◌&&◌, ◌||◌, List, Option, none, some,
  if◌then◌else◌, str_eq, codes,
}
use serverless_gpu_linode.Settings.Atoi.{atoi}

abbrev pub Env : Type 0
Env = String → String

-- The variable where it is set and not empty.
unfoldable pub env_or_default : Env → String → String → String
env_or_default env key fallback = if str_eq (env key) "" then fallback else env key

unfoldable pub env_or_default_int : Env → String → ℤ → Option ℤ
env_or_default_int env key fallback =
    if str_eq (env key) "" then some fallback else atoi (codes (env key))

unfoldable pub must_env : Env → String → Option String
must_env env key = if str_eq (env key) "" then none else some (env key)

-- The levels of `log/slog`.
pub data Level : Type 0 where
  debug info warn error : Level

-- `parseLogLevel` of the orchestrator and the agent.
unfoldable pub parse_log_level : String → Level
parse_log_level level =
    if str_eq level "DEBUG" || str_eq level "debug"
    then debug
    else (if str_eq level "WARN" || str_eq level "warn"
        then warn
        else (if str_eq level "ERROR" || str_eq level "error" then error else info))

abbrev pub seconds : ℕ → ℤ
seconds n = pos (n * 1_000_000_000)

abbrev pub minutes : ℕ → ℤ
minutes n = seconds (n * 60)

module _ (parse_duration : String → Option ℤ) where
  unfoldable pub env_or_default_duration : Env → String → ℤ → Option ℤ
  env_or_default_duration env key fallback =
      if str_eq (env key) "" then some fallback else parse_duration (env key)
