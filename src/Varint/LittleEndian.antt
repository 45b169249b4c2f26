-- ===== src/Varint/LittleEndian.antt =====
-- binary.LittleEndian of Go's standard library: PutUint32 and PutUint64, and their inverses.
use bitcask_go.Common.{
  ℕ, zero, suc, ◌+◌, ◌*◌, ◌/◌, ◌%◌, ◌^◌, ◌<◌, ◌≡◌, refl, [], ◌∷◌, Bytes, All, length, arith,
}

-- k bytes of x, the lowest first
unfoldable pub le_bytes : ℕ → ℕ → Bytes
le_bytes zero x = []
le_bytes (suc k) x = x % 256 ∷ le_bytes k (x / 256)

unfoldable pub le_value : Bytes → ℕ
le_value [] = 0
le_value (b ∷ bs) = b + 256 * le_value bs

abbrev pub put_uint32 : ℕ → Bytes
put_uint32 x = le_bytes 4 x

abbrev pub put_uint64 : ℕ → Bytes
put_uint64 x = le_bytes 8 x

pub length-le_bytes : (k x : ℕ) → length (le_bytes k x) ≡ k
unfolding le_bytes
length-le_bytes zero x = refl
length-le_bytes (suc k) x = omega (arith, length-le_bytes k (x / 256))

pub le_value-le_bytes : (k x : ℕ) → x < 256 ^ k → le_value (le_bytes k x) ≡ x
unfolding le_bytes le_value
le_value-le_bytes zero x h = omega arith
le_value-le_bytes (suc k) x h = omega (arith, le_value-le_bytes k (x / 256) (omega arith))

pub le_bytes-IsByte : (k x : ℕ) → All (λ b. b < 256) (le_bytes k x)
unfolding le_bytes
le_bytes-IsByte zero x = tt
le_bytes-IsByte (suc k) x = (omega arith, le_bytes-IsByte k (x / 256))
