-- ===== src/Decimal.antt =====
-- strconv of Go's standard library: decimal numbers, as db.go and merge.go write and read them.
pub mod RoundTrip
use bitcask_go.Common.{
  ℕ, zero, suc, ◌+◌, ◌-◌, ◌*◌, ◌/◌, ◌%◌, ◌^◌, Bool, ◌&&◌, Option, none, some, List, [], ◌∷◌, ◌++◌,
  Bytes, leb, ltb, ◌==◌, if◌then◌else◌,
}

-- The digits of n in front of the ones that are written already; a uint64 has at most twenty.
unfoldable pub digits : ℕ → ℕ → Bytes → Bytes
digits zero n rest = rest
digits (suc k) n rest =
    let more = digits k (n / 10) ((b'0' + n % 10) ∷ rest) in
    if ltb n 10 then (b'0' + n) ∷ rest else more

-- strconv.FormatUint(n, 10), and strconv.Itoa of a number that is not negative
unfoldable pub format_uint : ℕ → Bytes
unfolding digits
format_uint n = digits 20 n []

abbrev pub is_digit : ℕ → Bool
is_digit c = leb b'0' c && leb c b'9'

-- The value of digits behind the number `acc`, with no bound.
unfoldable pub digits_value : ℕ → Bytes → Option ℕ
digits_value acc [] = some acc
digits_value acc (c ∷ cs) = if is_digit c then digits_value (acc * 10 + (c - b'0')) cs else none

abbrev pub below : ℕ → Option ℕ → Option ℕ
below bound none = none
below bound (some n) = if ltb n bound then some n else none

-- strconv.ParseUint(s, 10, 64); `none` is an error.
unfoldable pub parse_uint : Bytes → Option ℕ
unfolding digits_value
parse_uint [] = none
parse_uint (c ∷ cs) = below (2 ^ 64) (digits_value 0 (c ∷ cs))

abbrev pub negate : Option ℕ → Option ℕ
negate none = none
negate (some n) = some ((2 ^ 64 - n) % 2 ^ 64)

abbrev pub unsigned_part : ℕ → Bytes → Option ℕ
unsigned_part bound [] = none
unsigned_part bound (c ∷ cs) = below bound (digits_value 0 (c ∷ cs))

-- strconv.Atoi, a 64-bit word; `none` is an error.
unfoldable pub atoi : Bytes → Option ℕ
unfolding digits_value
atoi [] = none
atoi (c ∷ cs) =
    if c == b'-'
    then negate (unsigned_part (2 ^ 63 + 1) cs)
    else if c == b'+'
    then unsigned_part (2 ^ 63) cs
    else unsigned_part (2 ^ 63) (c ∷ cs)
