-- ===== src/Decimal/RoundTrip.antt =====
-- What FormatUint writes, ParseUint and Atoi read.
use bitcask_go.Common.{
  ℕ, zero, suc, ◌+◌, ◌*◌, ◌/◌, ◌%◌, ◌^◌, ◌≤◌, ◌<◌, ◌≡◌, ◌∙◌, some, [], ◌∷◌, Bytes, ltb, ltb→lt,
  ◌==◌, true, false, ap, Bool-cases, inl, inr, arith,
}
use bitcask_go.Decimal.{digits, format_uint, digits_value, parse_uint, atoi}

-- A digit more is read as one.
digits_value-digit :
    (acc d : ℕ) (rest : Bytes)
    → d < 10
    → digits_value acc ((b'0' + d) ∷ rest) ≡ digits_value (acc * 10 + d) rest
unfolding digits_value
digits_value-digit acc d rest h = ground arith

digits_value-digits :
    (k n : ℕ) (rest : Bytes)
    → n < 10 ^ k
    → 0 < k
    → digits_value 0 (digits k n rest) ≡ digits_value n rest
unfolding digits
digits_value-digits zero n rest h p = absurd (omega arith)
digits_value-digits (suc zero) n rest h p =
    let e : 0 * 10 + n ≡ n = omega arith in
    let short : ltb n 10 ≡ true = ground arith in
    rw short (digits_value-digit 0 n rest (omega arith) ∙ ap (λ t. digits_value t rest) e)
digits_value-digits (suc (suc k)) n rest h p =
    let joined : n / 10 * 10 + n % 10 ≡ n = omega arith in
    let e : 0 * 10 + n ≡ n = omega arith in
    elim (Bool-cases (ltb n 10)) [
      | inl short ↦
          rw short
            (digits_value-digit 0 n rest (ltb→lt n 10 short) ∙ ap (λ t. digits_value t rest) e)
      | inr long ↦ rw long (
          digits_value-digits (suc k) (n / 10) ((b'0' + n % 10) ∷ rest) (omega arith) (omega arith)
          ∙ digits_value-digit (n / 10) (n % 10) rest (omega arith)
          ∙ ap (λ t. digits_value t rest) joined)
    ]

-- The first byte of a number is a digit.
abbrev Starts : Bytes → Type 0
Starts [] = ⊥
Starts (c ∷ cs) = (b'0' ≤ c) × (c ≤ b'9')

digits-Starts : (k n : ℕ) (rest : Bytes) → n < 10 ^ suc k → Starts (digits (suc k) n rest)
unfolding digits
digits-Starts zero n rest h = ground arith
digits-Starts (suc k) n rest h = elim (Bool-cases (ltb n 10)) [
  | inl short ↦ rw short (omega (arith, ltb→lt n 10 short))
  | inr long ↦ rw long (digits-Starts k (n / 10) ((b'0' + n % 10) ∷ rest) (omega arith))
]

format_uint_value : (n : ℕ) → n < 2 ^ 64 → digits_value 0 (format_uint n) ≡ some n
unfolding format_uint digits_value
format_uint_value n h = digits_value-digits 20 n [] (omega arith) (omega arith)

parse_uint-value :
    (bs : Bytes) (n : ℕ)
    → Starts bs
    → digits_value 0 bs ≡ some n
    → n < 2 ^ 64
    → parse_uint bs ≡ some n
unfolding parse_uint
parse_uint-value [] n s e h = absurd s
parse_uint-value (c ∷ cs) n s e h = rw e (ground arith)

atoi-value :
    (bs : Bytes) (n : ℕ) → Starts bs → digits_value 0 bs ≡ some n → n < 2 ^ 63 → atoi bs ≡ some n
unfolding atoi
atoi-value [] n s e h = absurd s
atoi-value (c ∷ cs) n s e h =
    let minus : (c == b'-') ≡ false = ground arith in
    let plus : (c == b'+') ≡ false = ground arith in rw (minus, plus, e) (ground arith)

-- A uint64 that FormatUint writes is read by ParseUint, and by Atoi where it is below 2 ^ 63.
pub parse-format_uint :
    (n : ℕ)
    → n < 2 ^ 64
    → (parse_uint (format_uint n) ≡ some n) × (n < 2 ^ 63 → atoi (format_uint n) ≡ some n)
parse-format_uint n h =
    let starts : Starts (format_uint n) =
      unfold format_uint in digits-Starts 19 n [] (omega arith) in
    (
      parse_uint-value (format_uint n) n starts (format_uint_value n h) h,
      λ small. atoi-value (format_uint n) n starts (format_uint_value n h) small,
    )
