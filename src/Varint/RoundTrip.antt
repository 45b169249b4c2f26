-- ===== src/Varint/RoundTrip.antt =====
-- Variable-length integers: what is stored is read back, whatever follows it.
use bitcask_go.Common.{
  ℕ, zero, suc, ◌+◌, ◌*◌, ◌/◌, ◌%◌, ◌^◌, ◌≤◌, ◌<◌, ◌≡◌, refl, ap, ◌∷◌, ◌++◌, Bytes, All, length,
  arith,
}
use bitcask_go.Varint.{
  IsU64, put_groups, put_uvarint, value, uvarint_at, uvarint, zigzag, unzigzag, put_varint, varint,
}

-- A last byte, and a byte with its top bit set before a value that was found.
last_byte :
    (i b : ℕ) (rest : Bytes)
    → b < 128
    → i ≤ 9
    → (i ≡ 9 → b ≤ 1)
    → uvarint_at i (b ∷ rest) ≡ value b 1
unfolding uvarint_at
last_byte i b rest h hi top = ground arith

inner_byte :
    (i g v n : ℕ) (rest : Bytes)
    → i < 9
    → uvarint_at (i + 1) rest ≡ value v n
    → uvarint_at i ((g + 128) ∷ rest) ≡ value (g + 128 * v) (n + 1)
unfolding uvarint_at
inner_byte i g v n rest hi e = ground arith

-- With k more groups allowed, x is below 2 * 128 ^ k: the tenth byte holds one bit.
uvarint_at-put_groups :
    (k i x : ℕ) (rest : Bytes)
    → i + k ≡ 9
    → x < 2 * 128 ^ k
    → uvarint_at i (put_groups k x ++ rest) ≡ value x (length (put_groups k x))
unfolding put_groups
uvarint_at-put_groups zero i x rest hi hx =
    let e : x % 256 ≡ x = omega arith in
    rw e (last_byte i x rest (omega arith) (omega arith) (λ h. omega arith))
uvarint_at-put_groups (suc k) i x rest hi hx = ground (
  arith,
  last_byte i x rest,
  uvarint_at-put_groups k (i + 1) (x / 128) rest,
  inner_byte i (x % 128) (x / 128) (length (put_groups k (x / 128)))
      (put_groups k (x / 128) ++ rest),
)

pub length-put_groups :
    (k x : ℕ) → (1 ≤ length (put_groups k x)) × (length (put_groups k x) ≤ k + 1)
unfolding put_groups
length-put_groups zero x = omega arith
length-put_groups (suc k) x = ground (arith, length-put_groups k (x / 128))

-- A number below 128 ^ m takes at most m bytes.
pub length-put_groups_le : (k m x : ℕ) → x < 128 ^ suc m → m ≤ k → length (put_groups k x) ≤ suc m
unfolding put_groups
length-put_groups_le zero m x h hm = omega arith
length-put_groups_le (suc k) zero x h hm = ground arith
length-put_groups_le (suc k) (suc m) x h hm =
    ground (arith, length-put_groups_le k m (x / 128) (omega arith))

pub put_groups-IsByte : (k x : ℕ) → All (λ b. b < 256) (put_groups k x)
unfolding put_groups
put_groups-IsByte zero x = omega arith
put_groups-IsByte (suc k) x = ground (arith, put_groups-IsByte k (x / 128))

pub uvarint-put_uvarint :
    (x : ℕ) (rest : Bytes) → IsU64 x → uvarint (put_uvarint x ++ rest) ≡ (x, length (put_uvarint x))
unfolding uvarint put_uvarint
uvarint-put_uvarint x rest h = rw (uvarint_at-put_groups 9 0 x rest refl (omega arith))

pub length-put_uvarint : (x : ℕ) → (1 ≤ length (put_uvarint x)) × (length (put_uvarint x) ≤ 10)
unfolding put_uvarint
length-put_uvarint x = length-put_groups 9 x

unzigzag-zigzag : (x : ℕ) → IsU64 x → unzigzag (zigzag x) ≡ x
unfolding zigzag unzigzag
unzigzag-zigzag x h = ground arith

zigzag-IsU64 : (x : ℕ) → IsU64 (zigzag x)
unfolding zigzag
zigzag-IsU64 x = ground arith

-- An int64 that binary.PutVarint stores is read back by binary.Varint, whatever follows it.
pub varint-put_varint :
    (x : ℕ) (rest : Bytes) → IsU64 x → varint (put_varint x ++ rest) ≡ (x, length (put_varint x))
unfolding varint put_varint
varint-put_varint x rest h =
    rw (uvarint-put_uvarint (zigzag x) rest (zigzag-IsU64 x))
      (ap (λ (t : ℕ). (t, length (put_uvarint (zigzag x)))) (unzigzag-zigzag x h))

pub length-put_varint : (x : ℕ) → (1 ≤ length (put_varint x)) × (length (put_varint x) ≤ 10)
unfolding put_varint
length-put_varint x = length-put_uvarint (zigzag x)

-- A length below 2 ^ 34 takes at most binary.MaxVarintLen32 bytes.
pub length-put_varint_small : (x : ℕ) → x < 2 ^ 34 → length (put_varint x) ≤ 5
unfolding put_varint put_uvarint zigzag
length-put_varint_small x h = length-put_groups_le 9 4 _ (ground arith) (omega arith)
