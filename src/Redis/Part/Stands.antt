-- ===== src/Redis/Part/Stands.antt =====
-- A map that stands at a key: the metadata counts the entries, and each has a database key of its own.
-- Hashes are such maps, and sets are those with empty values.
use bitcask_go.Common.{
  ℕ, ◌+◌, ◌%◌, ◌^◌, ◌<◌, ◌≡◌, ◌≢◌, refl, sym, ap, ◌∙◌, true, false, none, some, [], ◌∷◌, ◌++◌,
  Bytes, length, ◌==◌, length-append, arith,
}
use bitcask_go.Common.Assoc.{Assoc, lookup, insert, remove, lookup-insert, lookup-remove}
use bitcask_go.Common.Assoc.Size.{
  present, IsMap, insert-IsMap, remove-IsMap, length-insert, length-remove,
}
use bitcask_go.Common.Eq.{◌=?◌, bytes_eq, beq-injective, beq_ne, beq_self}
use bitcask_go.Common.Result.{ok}
use bitcask_go.Varint.LittleEndian.{put_uint64, length-le_bytes}
use bitcask_go.Db.Refine.{Contents, update, erase, answer}
use bitcask_go.Redis.Meta.{Metadata, list_type, encode_metadata}
use bitcask_go.Redis.Meta.RoundTrip.{IsMetadata}
use bitcask_go.Redis.Types.{metadata_of, new_metadata}
use bitcask_go.Varint.{IsU64}
use bitcask_go.Redis.Part.{grown, shrunk}

-- The database key of a field or a member.
abbrev pub part_key : Bytes → ℕ → Bytes → Bytes
part_key key version part = key ++ (put_uint64 version ++ part)

pub length-part_key :
    (key : Bytes) (version : ℕ) (part : Bytes)
    → length (part_key key version part) ≡ length key + 8 + length part
length-part_key key version part = omega (
  arith,
  length-append key (put_uint64 version ++ part),
  length-append (put_uint64 version) part,
  length-le_bytes 8 version,
)

append_cancel : (xs ys zs : Bytes) → xs ++ ys ≡ xs ++ zs → ys ≡ zs
append_cancel [] ys zs h = h
append_cancel (x ∷ xs) ys zs h = append_cancel xs ys zs (cc h)

pub part_key-beq :
    (key : Bytes) (version : ℕ) (p q : Bytes)
    → (part_key key version p =? part_key key version q) ≡ (p =? q)
part_key-beq key version = beq-injective (part_key key version) (λ p q h.
    append_cancel (put_uint64 version) p q
      (append_cancel key (put_uint64 version ++ p) (put_uint64 version ++ q) h))

pub length-beq : (a b : Bytes) → length a ≢ length b → (a =? b) ≡ false
length-beq a b h = beq_ne a b (λ e. h (ap length e))

pub key-part_key : (key : Bytes) (version : ℕ) (p : Bytes) → (key =? part_key key version p) ≡ false
key-part_key key version p =
    length-beq key (part_key key version p) (omega (arith, length-part_key key version p))

pub part_key-key : (key : Bytes) (version : ℕ) (p : Bytes) → (part_key key version p =? key) ≡ false
part_key-key key version p =
    length-beq (part_key key version p) key (omega (arith, length-part_key key version p))

-- The metadata that findMetadata finds in the map m.
abbrev pub Finds : Contents → Bytes → ℕ → ℕ → ℕ → Metadata → Type 0
Finds m key data_type now version md = metadata_of data_type now version (answer (m key)) ≡ ok md

-- The map h stands at the key, under the metadata md: it is stored unless the map is empty.
pub record IsParts (data_type : ℕ) (m : Contents) (key : Bytes) (md : Metadata)
    (h : Assoc Bytes Bytes) : Type 0 where
  pub fits : IsMetadata md
  pub typed : md.data_type ≡ data_type
  pub size : md.size ≡ length h
  pub stored : (md.size == 0) ≡ false → m key ≡ some (encode_metadata md)
  pub parts : (p : Bytes) → m (part_key key md.version p) ≡ lookup p h
  pub is_map : IsMap h

grown-IsMetadata : (md : Metadata) → IsMetadata md → IsMetadata (grown md)
grown-IsMetadata md h = record {
  expire = h.expire;
  version = h.version;
  size = omega arith;
  head = h.head;
  tail = h.tail;
  unmarked = h.unmarked;
}

shrunk-IsMetadata : (md : Metadata) → IsMetadata md → IsMetadata (shrunk md)
shrunk-IsMetadata md h = record {
  expire = h.expire;
  version = h.version;
  size = omega arith;
  head = h.head;
  tail = h.tail;
  unmarked = h.unmarked;
}

-- The writes of HSet and SAdd.
abbrev pub with_part : Contents → Bytes → Metadata → Bytes → Bytes → Contents
with_part m key md p v = update m (part_key key md.version p) v

abbrev pub with_metadata : Contents → Bytes → Metadata → Contents
with_metadata m key md = update m key (encode_metadata md)

module _ (data_type : ℕ) (m : Contents) (key : Bytes) (md : Metadata) (h : Assoc Bytes Bytes)
    (is : IsParts data_type m key md h) (p : Bytes) where
  -- A part that is there is set.
  pub set-IsParts :
      (v : Bytes)
      → present (lookup p h) ≡ true
      → IsParts data_type (with_part m key md p v) key md (insert p v h)
  set-IsParts v there = record {
    fits = is.fits;
    typed = is.typed;
    size = is.size ∙ sym (rw there at (length-insert p v h));
    stored = λ e. rw (part_key-key key md.version p) (is.stored e);
    parts = λ q. rw (part_key-beq key md.version p q, lookup-insert p q v h, is.parts q) refl;
    is_map = insert-IsMap p v h is.is_map;
  }

  -- A part that is not there is added.
  pub add-IsParts :
      (v : Bytes)
      → present (lookup p h) ≡ false
      → length h + 1 < 2 ^ 32
      → IsParts data_type
          (with_part (with_metadata m key (grown md)) key md p v)
          key
          (grown md)
          (insert p v h)
  add-IsParts v absent few = record {
    fits = grown-IsMetadata md is.fits;
    typed = is.typed;
    size =
        let wide : (md.size + 1) % 2 ^ 32 ≡ length h + 1 = omega (arith, is.size, few) in
        wide ∙ sym (rw absent at (length-insert p v h));
    stored = λ e. rw (part_key-key key md.version p, beq_self key) refl;
    parts = λ q.
        rw
          (
            part_key-beq key md.version p q,
            lookup-insert p q v h,
            key-part_key key md.version q,
            is.parts q,
          )
          refl;
    is_map = insert-IsMap p v h is.is_map;
  }

  -- A part that is there is removed.
  pub remove-IsParts :
      present (lookup p h) ≡ true
      → IsParts data_type
          (erase (with_metadata m key (shrunk md)) (part_key key md.version p))
          key
          (shrunk md)
          (remove p h)
  remove-IsParts there = record {
    fits = shrunk-IsMetadata md is.fits;
    typed = is.typed;
    size =
        let one : length h ≡ length (remove p h) + 1 = rw there at (length-remove p h is.is_map) in
        omega (arith, is.size, one, is.fits.size);
    stored = λ e. rw (part_key-key key md.version p, beq_self key) refl;
    parts = λ q.
        rw
          (
            part_key-beq key md.version p q,
            lookup-remove p q h,
            key-part_key key md.version q,
            is.parts q,
          )
          refl;
    is_map = remove-IsMap p h is.is_map;
  }

-- New metadata stands for an empty map, where no part has its version.
pub new-IsParts :
    (data_type version : ℕ) (m : Contents) (key : Bytes)
    → IsU64 version
    → (data_type == list_type) ≡ false
    → ((p : Bytes) → m (part_key key version p) ≡ none)
    → IsParts data_type m key (new_metadata data_type version) []
unfolding new_metadata lookup
new-IsParts data_type version m key h other unused = record {
  fits = record {
    expire = omega arith;
    version = h;
    size = omega arith;
    head = ground (arith, other);
    tail = ground (arith, other);
    unmarked = λ e. rw other (refl, refl);
  };
  typed = refl;
  size = refl;
  stored = λ e. cc;
  parts = unused;
  is_map = tt;
}
