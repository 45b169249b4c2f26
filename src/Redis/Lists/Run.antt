-- ===== src/Redis/Lists/Run.antt =====
-- A list that stands at a key: its elements run from the metadata's head up to its tail.
use bitcask_go.Common.{
  ℕ, ◌+◌, ◌^◌, ◌≤◌, ◌<◌, ◌≡◌, ◌≢◌, refl, sym, ap, subst, ◌∙◌, Bool, true, false, some, List, [],
  ◌∷◌, ◌++◌, Bytes, length, ◌==◌, arith,
}
use bitcask_go.Common.Eq.{◌=?◌, bytes_eq, beq_ne}
use bitcask_go.Varint.{IsU64}
use bitcask_go.Varint.LittleEndian.{put_uint64, le_value, le_value-le_bytes}
use bitcask_go.Db.Refine.{Contents}
use bitcask_go.Redis.Meta.{Metadata, list_type, encode_metadata, encode_list_key}
use bitcask_go.Redis.Meta.RoundTrip.{IsMetadata}
use bitcask_go.Redis.Types.{new_metadata}
use bitcask_go.Redis.Part.Stands.{part_key, part_key-beq}
use bitcask_go.Redis.Lists.{element_key}

-- The elements xs stand at the indices from i on.
abbrev pub IsRun : Contents → Bytes → ℕ → ℕ → List Bytes → Type 0
IsRun m key version i [] = Unit {0}
IsRun m key version i (x ∷ xs) =
    (m (part_key key version (put_uint64 i)) ≡ some x) × IsRun m key version (i + 1) xs

pub element_key-part_key :
    (key : Bytes) (md : Metadata) (i : ℕ)
    → element_key key md i ≡ part_key key md.version (put_uint64 i)
unfolding encode_list_key
element_key-part_key key md i = refl

pub index-beq :
    (key : Bytes) (version i j : ℕ)
    → IsU64 i
    → IsU64 j
    → i ≢ j
    → (part_key key version (put_uint64 i) =? part_key key version (put_uint64 j)) ≡ false
index-beq key version i j hi hj h =
    part_key-beq key version (put_uint64 i) (put_uint64 j)
    ∙ beq_ne (put_uint64 i) (put_uint64 j) (λ e. h (
        sym (le_value-le_bytes 8 i (omega (arith, hi)))
        ∙ ap le_value e
        ∙ le_value-le_bytes 8 j (omega (arith, hj))))

-- Where two maps agree on the indices of a run, it stands in both.
pub IsRun-same :
    (m m' : Contents) (key : Bytes) (version i : ℕ) (xs : List Bytes)
    → ((j : ℕ)
        → i ≤ j
        → j < i + length xs
        → m' (part_key key version (put_uint64 j)) ≡ m (part_key key version (put_uint64 j)))
    → IsRun m key version i xs
    → IsRun m' key version i xs
IsRun-same m m' key version i [] h r = tt
IsRun-same m m' key version i (x ∷ xs) h r = (
  h i (omega arith) (omega arith) ∙ r.0,
  IsRun-same m m' key version (i + 1) xs (λ j a b. h j (omega (arith, a)) (omega (arith, b))) r.1,
)

pub IsRun-append :
    (m : Contents) (key : Bytes) (version i : ℕ) (xs ys : List Bytes)
    → IsRun m key version i xs
    → IsRun m key version (i + length xs) ys
    → IsRun m key version i (xs ++ ys)
IsRun-append m key version i [] ys r s = subst (λ t. IsRun m key version t ys) (omega arith) s
IsRun-append m key version i (x ∷ xs) ys r s = (
  r.0,
  IsRun-append m key version (i + 1) xs ys r.1
      (subst (λ t. IsRun m key version t ys) (omega arith) s),
)

pub IsRun-split :
    (m : Contents) (key : Bytes) (version i : ℕ) (xs ys : List Bytes)
    → IsRun m key version i (xs ++ ys)
    → IsRun m key version i xs × IsRun m key version (i + length xs) ys
IsRun-split m key version i [] ys r = (tt, subst (λ t. IsRun m key version t ys) (omega arith) r)
IsRun-split m key version i (x ∷ xs) ys r =
    let more = IsRun-split m key version (i + 1) xs ys r.1 in
    ((r.0, more.0), subst (λ t. IsRun m key version t ys) (omega arith) more.1)

-- The list xs stands at the key, under the metadata md: it is stored unless the list is empty.
pub record IsList (m : Contents) (key : Bytes) (md : Metadata) (xs : List Bytes) : Type 0 where
  pub fits : IsMetadata md
  pub typed : md.data_type ≡ list_type
  pub size : md.size ≡ length xs
  pub marks : md.tail ≡ md.head + length xs
  pub stored : (md.size == 0) ≡ false → m key ≡ some (encode_metadata md)
  pub run : IsRun m key md.version md.head xs

-- There is room before the head and after the tail for one more element.
pub record IsRoomy (md : Metadata) (n : ℕ) : Type 0 where
  pub before : 0 < md.head
  pub after : md.tail + 1 < 2 ^ 64
  pub counted : n + 1 < 2 ^ 32

-- The list with one more element at the left or the right end.
abbrev pub pushed : Bool → Bytes → List Bytes → List Bytes
pushed true x xs = x ∷ xs
pushed false x xs = xs ++ (x ∷ [])

-- New metadata stands for an empty list.
pub new-IsList :
    (m : Contents) (key : Bytes) (version : ℕ)
    → IsU64 version
    → IsList m key (new_metadata list_type version) []
unfolding new_metadata
new-IsList m key version h = record {
  fits = record {
    expire = omega arith;
    version = h;
    size = omega arith;
    head = omega arith;
    tail = omega arith;
    unmarked = λ e. cc;
  };
  typed = refl;
  size = refl;
  marks = omega arith;
  stored = λ e. cc;
  run = tt;
}
