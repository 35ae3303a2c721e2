-- ===== src/Settings/Atoi.antt =====
-- `strconv.Atoi` as orchestrator/main.go and nats-agent/main.go use it, on the characters of a
-- text: a sign that may be left out, at least one digit and nothing else, in 64 bits.
use serverless_gpu_linode.Common.Int.{ℤ, pos, negsuc}
use serverless_gpu_linode.Common.Options.{◌>>=◌}
use serverless_gpu_linode.Common.{
  ℕ, zero, suc, ◌+◌, ◌-◌, ◌*◌, Bool, ◌&&◌, List, [], ◌∷◌, Option, none, some, ltb, leb, ◌==◌,
  if◌then◌else◌,
}

abbrev pub is_digit : ℕ → Bool
is_digit c = leb b'0' c && leb c b'9'

-- The number that the digits continue.
unfoldable pub digits : ℕ → List ℕ → Option ℕ
digits n [] = some n
digits n (c ∷ rest) =
    let more = digits (n * 10 + (c - b'0')) rest in if is_digit c then more else none

-- 2^63.
abbrev pub int_limit : ℕ
int_limit = 9_223_372_036_854_775_808

abbrev pub negate : ℕ → ℤ
negate zero = pos 0
negate (suc n) = negsuc n

abbrev pub positive : ℕ → Option ℤ
positive n = if ltb n int_limit then some (pos n) else none

abbrev pub negative : ℕ → Option ℤ
negative n = if leb n int_limit then some (negate n) else none

unfoldable pub unsigned : List ℕ → Option ℕ
unfolding digits
unsigned [] = none
unsigned (c ∷ rest) = digits 0 (c ∷ rest)

unfoldable pub atoi : List ℕ → Option ℤ
unfolding unsigned
atoi [] = none
atoi (c ∷ rest) =
    if c == b'-'
    then unsigned rest >>= negative
    else (if c == b'+' then unsigned rest >>= positive else unsigned (c ∷ rest) >>= positive)
