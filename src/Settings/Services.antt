-- ===== src/Settings/Services.antt =====
-- api/main.go: `Config`, `loadConfig`, `envOrDefaultInt64` and `parseLogLevel`; and
-- ai-processor/main.go: the settings of `main` and `envOrDefaultDuration`. On 64 bits
-- `strconv.ParseInt(v, 10, 64)` is `strconv.Atoi`.
use serverless_gpu_linode.Common.Int.{ℤ, pos}
use serverless_gpu_linode.Common.Options.{◌>>=◌}
use serverless_gpu_linode.Common.{
  ℕ, ◌+◌, String, Bool, true, false, ◌==◌, ◌&&◌, List, [], ◌∷◌, map, Option, none, some,
  if◌then◌else◌, str_eq, leb, codes,
}
use serverless_gpu_linode.Settings.{
  Env, env_or_default, env_or_default_int, seconds, Level, debug, info, warn, error,
}

pub record ApiConfig : Type 0 where
  pub listen_addr : String
  pub nats_url : String
  pub nats_subject : String
  pub request_max_bytes : ℤ

unfoldable pub load_api_config : Env → Option ApiConfig
unfolding env_or_default env_or_default_int
load_api_config env = do
  limit ← env_or_default_int env "REQUEST_MAX_BYTES" (pos 1_048_576)
  some (record {
    listen_addr = env_or_default env "LISTEN_ADDR" ":8080";
    nats_url = env_or_default env "NATS_URL" "nats://localhost:4222";
    nats_subject = env_or_default env "NATS_SUBJECT" "GPU_JOBS";
    request_max_bytes = limit;
  })

pub record ProcessorConfig : Type 0 where
  pub listen_addr : String
  pub process_duration : ℤ

unfoldable pub same_codes : List ℕ → List ℕ → Bool
same_codes [] [] = true
same_codes (c ∷ cs) (d ∷ ds) = let later = same_codes cs ds in if c == d then later else false
same_codes _ _ = false

module _ (parse_duration : String → Option ℤ) where
  -- A duration that cannot be read is replaced, and the process goes on.
  unfoldable pub duration_or_default : Env → String → ℤ → ℤ
  duration_or_default env key fallback =
      if str_eq (env key) ""
      then fallback
      else elim (parse_duration (env key)) [ none ↦ fallback | some d ↦ d ]

  unfoldable pub load_processor_config : Env → ProcessorConfig
  unfolding env_or_default duration_or_default
  load_processor_config env = record {
    listen_addr = env_or_default env "LISTEN_ADDR" ":8080";
    process_duration = duration_or_default env "PROCESS_DURATION" (seconds 20);
  }

-- `strings.ToLower`, as far as the comparison with words of d, e, b, u, g, w, a, r, n and o goes.
abbrev pub to_lower : ℕ → ℕ
to_lower c = if leb b'A' c && leb c b'Z' then c + 32 else c

abbrev is_word : List ℕ → String → Bool
is_word cs word = same_codes cs (codes word)

-- `parseLogLevel` of the API.
unfoldable pub parse_api_log_level : String → Level
unfolding same_codes
parse_api_log_level level =
    let lowered : List ℕ = map to_lower (codes level) in
    if is_word lowered "debug"
    then debug
    else (if is_word lowered "warn"
        then warn
        else (if is_word lowered "error" then error else info))
