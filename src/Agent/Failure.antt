-- ===== src/Agent/Failure.antt =====
-- nats-agent/agent.go: `forwardToAI` from the network's answer on, `isNonRetryableStatus` and
-- `buildFailureReason`. Texts are lists of characters.
use mathlib.Core.List.{reverse}
use serverless_gpu_linode.Common.{
  ℕ, Bool, false, ◌&&◌, ◌||◌, List, [], ◌∷◌, ◌++◌, Option, none, some, ltb, leb, ◌==◌,
  if◌then◌else◌, take, codes, decimal,
}

-- `unicode.IsSpace`.
abbrev pub is_space : ℕ → Bool
is_space c =
    leb 9 c && leb c 13
    || (c == 32
        || c == 0x85
        || (c == 0xa0 || c == 0x1680)
        || (leb 0x2000 c && leb c 0x200a
            || (c == 0x2028 || c == 0x2029 || (c == 0x202f || c == 0x205f || c == 0x3000))))

unfoldable pub trim_left : List ℕ → List ℕ
trim_left [] = []
trim_left (c ∷ rest) = let later = trim_left rest in if is_space c then later else c ∷ rest

-- `strings.TrimSpace`.
unfoldable pub trim_space : List ℕ → List ℕ
unfolding trim_left
trim_space s = reverse (trim_left (reverse (trim_left s)))

-- What becomes of a request: it cannot be built, it is not answered, or it is answered with a
-- status and the part of the body that can be read.
pub data HttpReply : Type 0 where
  request_failed : List ℕ → HttpReply
  no_response : List ℕ → HttpReply
  responded : ℕ → List ℕ → HttpReply

pub record Forwarded : Type 0 where
  pub status : ℕ
  pub body : List ℕ
  pub error : Option (List ℕ)

unfoldable pub forward_to_ai : HttpReply → Forwarded
unfolding trim_space take
forward_to_ai (request_failed e) = record { status = 0; body = []; error = some e }
forward_to_ai (no_response e) = record { status = 0; body = []; error = some e }
forward_to_ai (responded status body) = record {
  status = status;
  body = trim_space (take 2048 body);
  error = none;
}

-- The test for success: no error, and a status from 200 to 299.
abbrev pub is_success : Forwarded → Bool
is_success f = elim f.error [ none ↦ leb 200 f.status && ltb f.status 300 | some _ ↦ false ]

unfoldable pub is_non_retryable_status : ℕ → Bool
is_non_retryable_status status = leb 400 status && ltb status 500

unfoldable pub build_failure_reason : ℕ → List ℕ → Option (List ℕ) → List ℕ
build_failure_reason status body (some e) = e
build_failure_reason status [] none = codes "http_status_" ++ codes (decimal status)
build_failure_reason status (c ∷ rest) none =
    codes "http_status_" ++ (codes (decimal status) ++ (codes ": " ++ (c ∷ rest)))
