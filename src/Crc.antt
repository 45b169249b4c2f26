-- ===== src/Crc.antt =====
-- hash/crc32 of Go's standard library: the IEEE checksum of data/log_record.go.
use bitcask_go.Common.{
  ℕ, zero, suc, ◌-◌, ◌/◌, ◌%◌, ◌^◌, ◌<◌, ◌≡◌, refl, [], ◌∷◌, ◌++◌, Bytes, ◌==◌, if◌then◌else◌,
  arith,
}
use Prim.Native.Nat.{bit_xor}

-- n rounds on a table entry: crc>>1, and the polynomial where a one falls out
table_rounds : ℕ → ℕ → ℕ
table_rounds zero crc = crc
table_rounds (suc n) crc =
    table_rounds n (if crc % 2 == 1 then bit_xor (crc / 2) 0xedb88320 else crc / 2)

-- crc = tab[byte(crc)^v] ^ (crc >> 8)
step : ℕ → ℕ → ℕ
unfolding table_rounds
step crc v = bit_xor (table_rounds 8 (bit_xor (crc % 256) v)) (crc / 256) % 2 ^ 32

steps : ℕ → Bytes → ℕ
unfolding step
steps crc [] = crc
steps crc (v ∷ bs) = steps (step crc v) bs

-- ^crc
complement : ℕ → ℕ
complement crc = 2 ^ 32 - 1 - crc

-- crc32.Update(crc, crc32.IEEETable, bs)
unfoldable pub update : ℕ → Bytes → ℕ
unfolding steps complement
update crc bs = complement (steps (complement crc) bs)

-- crc32.ChecksumIEEE
unfoldable pub checksum_ieee : Bytes → ℕ
unfolding update
checksum_ieee bs = update 0 bs

steps-append : (crc : ℕ) (xs ys : Bytes) → steps crc (xs ++ ys) ≡ steps (steps crc xs) ys
unfolding steps
steps-append crc [] ys = refl
steps-append crc (v ∷ xs) ys = steps-append (step crc v) xs ys

steps-lt : (crc : ℕ) (bs : Bytes) → crc < 2 ^ 32 → steps crc bs < 2 ^ 32
unfolding steps step
steps-lt crc [] h = h
steps-lt crc (v ∷ bs) h = steps-lt (step crc v) bs (omega arith)

complement-complement : (crc : ℕ) → crc < 2 ^ 32 → complement (complement crc) ≡ crc
unfolding complement
complement-complement crc h = omega arith

complement-lt : (crc : ℕ) → complement crc < 2 ^ 32
unfolding complement
complement-lt crc = omega arith

-- A checksum may be taken piece by piece.
pub update-append :
    (crc : ℕ) (xs ys : Bytes) → crc < 2 ^ 32 → update crc (xs ++ ys) ≡ update (update crc xs) ys
unfolding update
update-append crc xs ys h = rw (
  steps-append,
  complement-complement (steps (complement crc) xs) (steps-lt _ xs (complement-lt crc)),
)

pub update-lt : (crc : ℕ) (bs : Bytes) → update crc bs < 2 ^ 32
unfolding update complement
update-lt crc bs = omega arith

pub checksum_ieee-lt : (bs : Bytes) → checksum_ieee bs < 2 ^ 32
unfolding checksum_ieee
checksum_ieee-lt bs = update-lt 0 bs

-- The check value of CRC-32: the checksum of "123456789".
checksum_ieee_check :
    checksum_ieee (b'1' ∷ b'2' ∷ b'3' ∷ b'4' ∷ b'5' ∷ b'6' ∷ b'7' ∷ b'8' ∷ b'9' ∷ []) ≡ 0xcbf43926
unfolding checksum_ieee
checksum_ieee_check = refl
