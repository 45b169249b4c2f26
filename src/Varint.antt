-- ===== src/Varint.antt =====
-- encoding/binary of Go's standard library, as data/log_record.go, batch.go and redis/meta.go use
-- it: variable-length and little-endian integers. A uint64, an int64 and an int are 64-bit words; a
-- signed one is in two's complement.
pub mod RoundTrip
pub mod LittleEndian
use bitcask_go.Common.{
  ℕ, zero, suc, ◌+◌, ◌-◌, ◌*◌, ◌/◌, ◌%◌, ◌^◌, ◌<◌, Bool, ◌&&◌, List, [], ◌∷◌, Bytes, ltb, ◌==◌,
  if◌then◌else◌,
}

abbrev pub IsU64 : ℕ → Type 0
IsU64 x = x < 2 ^ 64

-- x < 0 for a signed word
abbrev pub negative : ℕ → Bool
negative x = ltb (2 ^ 63 - 1) x

-- a < b for signed words
abbrev pub signed_lt : ℕ → ℕ → Bool
signed_lt a b = ltb ((a + 2 ^ 63) % 2 ^ 64) ((b + 2 ^ 63) % 2 ^ 64)

-- uint32(x)
abbrev pub u32 : ℕ → ℕ
u32 x = x % 2 ^ 32

-- The groups of seven bits of x, lowest first; every byte but the last has its top bit set.
unfoldable pub put_groups : ℕ → ℕ → Bytes
put_groups zero x = x % 256 ∷ []
put_groups (suc k) x =
    let rest = put_groups k (x / 128) in if ltb x 128 then x ∷ [] else (x % 128 + 128) ∷ rest

-- binary.PutUvarint: the bytes that it stores. Ten groups of seven bits hold a uint64.
unfoldable pub put_uvarint : ℕ → Bytes
unfolding put_groups
put_uvarint x = put_groups 9 x

-- What binary.Uvarint finds: a value and how many bytes it took, the end of the slice, or more than
-- 64 bits, seen at byte n.
pub data Found : Type 0 where
  value : ℕ → ℕ → Found
  short : Found
  overflow : ℕ → Found

abbrev push : ℕ → Found → Found
push b (value v n) = value (b - 128 + 128 * v) (n + 1)
push b short = short
push b (overflow n) = overflow n

unfoldable pub uvarint_at : ℕ → Bytes → Found
uvarint_at i [] = short
uvarint_at i (b ∷ bs) =
    let rest = push b (uvarint_at (i + 1) bs) in
    if i == 10
    then overflow (i + 1)
    else if ltb b 128
    then (if i == 9 && ltb 1 b then overflow (i + 1) else value b 1)
    else rest

abbrev result : Found → ℕ × ℕ
result (value v n) = (v, n)
result short = (0, 0)
result (overflow n) = (0, 2 ^ 64 - n)

-- binary.Uvarint: (value, n), where n is 0 at a short slice and -k after an overflow at byte k.
unfoldable pub uvarint : Bytes → ℕ × ℕ
unfolding uvarint_at
uvarint bs = result (uvarint_at 0 bs)

-- ux := uint64(x) << 1; if x < 0 { ux = ^ux }
unfoldable pub zigzag : ℕ → ℕ
zigzag x = let ux = 2 * x % 2 ^ 64 in if negative x then 2 ^ 64 - 1 - ux else ux

-- x := int64(ux >> 1); if ux&1 != 0 { x = ^x }
unfoldable pub unzigzag : ℕ → ℕ
unzigzag ux = if ux % 2 == 0 then ux / 2 else 2 ^ 64 - 1 - ux / 2

-- binary.PutVarint
unfoldable pub put_varint : ℕ → Bytes
unfolding zigzag put_uvarint
put_varint x = put_uvarint (zigzag x)

-- binary.Varint
unfoldable pub varint : Bytes → ℕ × ℕ
unfolding uvarint unzigzag
varint bs = let (ux, n) = uvarint bs in (unzigzag ux, n)
