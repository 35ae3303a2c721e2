-- ===== src/Agent/Base64.antt =====
-- `base64.StdEncoding.EncodeToString`, as nats-agent/agent.go uses it for the dead-letter envelope:
-- groups of three bytes become four characters, and a short last group is padded with `=`.
use serverless_gpu_linode.Common.{
  ℕ, ◌+◌, ◌-◌, ◌*◌, ◌/◌, ◌%◌, ◌<◌, ◌≡◌, refl, List, [], ◌∷◌, Bool, arith, ltb, ◌==◌, if◌then◌else◌,
  All,
}

-- The character of a value below 64.
abbrev pub letter : ℕ → ℕ
letter n =
    if ltb n 26
    then b'A' + n
    else (if ltb n 52
        then b'a' + (n - 26)
        else (if ltb n 62 then b'0' + (n - 52) else (if n == 62 then b'+' else b'/')))

abbrev pub pad : ℕ
pad = b'='

unfoldable pub encode : List ℕ → List ℕ
encode [] = []
encode (a ∷ []) = letter (a / 4) ∷ letter (a % 4 * 16) ∷ pad ∷ pad ∷ []
encode (a ∷ b ∷ []) = letter (a / 4) ∷ letter (a % 4 * 16 + b / 16) ∷ letter (b % 16 * 4) ∷ pad ∷ []
encode (a ∷ b ∷ c ∷ rest) =
    letter (a / 4)
    ∷ letter (a % 4 * 16 + b / 16)
    ∷ letter (b % 16 * 4 + c / 64)
    ∷ letter (c % 64)
    ∷ encode rest

-- The value of a character.
abbrev pub value : ℕ → ℕ
value c =
    if c == b'+'
    then 62
    else (if c == b'/'
        then 63
        else (if ltb c b'A'
            then c - b'0' + 52
            else (if ltb c b'a' then c - b'A' else c - b'a' + 26)))

-- What a reader of the envelope does.
unfoldable pub decode : List ℕ → List ℕ
decode (p ∷ q ∷ r ∷ s ∷ rest) =
    if r == pad
    then (value p * 4 + value q / 16) ∷ []
    else (if s == pad
        then (value p * 4 + value q / 16) ∷ (value q % 16 * 16 + value r / 4) ∷ []
        else (value p * 4 + value q / 16)
          ∷ (value q % 16 * 16 + value r / 4)
          ∷ (value r % 4 * 64 + value s)
          ∷ decode rest)
decode _ = []

value-letter : (n : ℕ) → n < 64 → value (letter n) ≡ n
value-letter n h = ground arith

letter-ne-pad : (n : ℕ) → n < 64 → (letter n == pad) ≡ Bool.false
letter-ne-pad n h = ground arith

abbrev pub AreBytes : List ℕ → Type 0
AreBytes = All (λ b. b < 256)

module _ (a b c : ℕ) (ha : a < 256) (hb : b < 256) (hc : c < 256) where
  full_group :
      (value (letter (a / 4)) * 4 + value (letter (a % 4 * 16 + b / 16)) / 16 ≡ a)
      × (value (letter (a % 4 * 16 + b / 16)) % 16 * 16 + value (letter (b % 16 * 4 + c / 64)) / 4
          ≡ b)
      × (value (letter (b % 16 * 4 + c / 64)) % 4 * 64 + value (letter (c % 64)) ≡ c)
  full_group =
      rw
        (
          value-letter (a / 4) (omega arith),
          value-letter (a % 4 * 16 + b / 16) (omega arith),
          value-letter (b % 16 * 4 + c / 64) (omega arith),
          value-letter (c % 64) (omega arith),
        )
        (omega arith)

-- What the envelope of a dead-lettered message holds of a payload of bytes decodes to the payload.
pub decode-encode : (bs : List ℕ) → AreBytes bs → decode (encode bs) ≡ bs
unfolding decode encode
decode-encode [] h = refl
decode-encode (a ∷ []) h =
    ground (arith, value-letter (a / 4) (omega arith), value-letter (a % 4 * 16) (omega arith))
decode-encode (a ∷ b ∷ []) h = rw (letter-ne-pad (b % 16 * 4) (omega arith)) (
    ground (
      arith,
      value-letter (a / 4) (omega arith),
      value-letter (a % 4 * 16 + b / 16) (omega arith),
      value-letter (b % 16 * 4) (omega arith),
    ))
decode-encode (a ∷ b ∷ c ∷ rest) h =
    let (x, y, z) = full_group a b c h.0 h.1.0 h.1.1.0 in
    rw (letter-ne-pad (b % 16 * 4 + c / 64) (omega arith), letter-ne-pad (c % 64) (omega arith))
      (cc (x, y, z, decode-encode rest h.1.1.1))
