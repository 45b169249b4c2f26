-- ===== src/Redis/Meta/RoundTrip.antt =====
-- redis/meta.go: what is encoded is read back, and the buffers are long enough.
use bitcask_go.Redis.Meta.{
  list_type, max_metadata_size, extra_list_size, Metadata, encode_list_marks, encode_metadata,
  first_byte, decode_list_marks, decode_metadata, HashInternalKey, encode_hash_key, decode_hash_key,
  slice_to,
}
use bitcask_go.Common.{
  ℕ, ◌+◌, ◌%◌, ◌^◌, ◌≤◌, ◌<◌, ◌≡◌, refl, sym, ap, ◌∙◌, Bool-cases, inl, inr, false, [], ◌∷◌, ◌++◌,
  Bytes, length, take-append, ltb-false, ◌==◌, if◌then◌else◌, length-append, append_assoc,
  append-nil, arith,
}
use bitcask_go.Common.Result.{ok}
use bitcask_go.Varint.{IsU64, put_varint, put_uvarint, uvarint}
use bitcask_go.Varint.RoundTrip.{
  varint-put_varint, uvarint-put_uvarint, length-put_varint, length-put_uvarint,
  length-put_varint_small,
}
use bitcask_go.Varint.LittleEndian.{put_uint64, le_value-le_bytes, length-le_bytes}
use bitcask_go.Data.Record.{slice_from}
use bitcask_go.Data.Record.RoundTrip.{slice_from-append}

-- What the Go types hold; only a list uses its two marks.
pub record IsMetadata (md : Metadata) : Type 0 where
  pub expire : IsU64 md.expire
  pub version : IsU64 md.version
  pub size : md.size < 2 ^ 32
  pub head : IsU64 md.head
  pub tail : IsU64 md.tail
  pub unmarked : (md.data_type == list_type) ≡ false → (md.head ≡ 0) × (md.tail ≡ 0)

slice_from-split :
    (n : ℕ) (pre post buf : Bytes) → buf ≡ pre ++ post → n ≡ length pre → slice_from n buf ≡ ok post
slice_from-split n pre post buf e h = rw (e, h) (slice_from-append pre post (length pre) refl)

decode-encode_list_marks :
    (md : Metadata) (pre : Bytes)
    → IsMetadata md
    → length pre < 2 ^ 32
    → decode_list_marks md.data_type (length pre) (pre ++ encode_list_marks md)
      ≡ ok (md.head, md.tail)
unfolding decode_list_marks encode_list_marks
decode-encode_list_marks md pre m h = elim (Bool-cases (md.data_type == list_type)) [
  | inl listed ↦
      let a = put_uvarint md.head in
      let b = put_uvarint md.tail in
      let last : uvarint b ≡ (md.tail, length b) =
        rw append-nil at (uvarint-put_uvarint md.tail [] m.tail) in
      let index : (length pre + length a) % 2 ^ 64 ≡ length pre + length a =
        omega (arith, length-put_uvarint md.head, h) in
      rw (
        listed,
        slice_from-append pre (a ++ b) (length pre) refl,
        uvarint-put_uvarint md.head b m.head,
        index,
        slice_from-split (length pre + length a) (pre ++ a) b (pre ++ (a ++ b))
            (sym (append_assoc pre a b)) (sym (length-append pre a)),
        last,
      )
  | inr other ↦ rw (other, (m.unmarked other).0, (m.unmarked other).1) refl
]

-- decodeMedtadata reads back the metadata that encode wrote, of a list with its two marks and
-- of the other types with the marks at 0.
pub decode-encode_metadata :
    (md : Metadata) → IsMetadata md → decode_metadata (encode_metadata md) ≡ ok md
unfolding decode_metadata encode_metadata first_byte
decode-encode_metadata md m =
    let e = put_varint md.expire in
    let v = put_varint md.version in
    let s = put_varint md.size in
    let l = encode_list_marks md in
    let buf : Bytes = md.data_type ∷ (e ++ (v ++ (s ++ l))) in
    let p1 : Bytes = md.data_type ∷ e in
    let p2 : Bytes = p1 ++ v in
    let p3 : Bytes = p2 ++ s in
    let b2 : buf ≡ p2 ++ (s ++ l) = sym (append_assoc p1 v (s ++ l)) in
    let b3 : buf ≡ p3 ++ l = b2 ∙ sym (append_assoc p2 s l) in
    let l2 : length p2 ≡ 1 + length e + length v = omega (arith, length-append p1 v) in
    let l3 : length p3 ≡ 1 + length e + length v + length s =
      omega (arith, length-append p2 s, l2) in
    let i1 : (1 + length e) % 2 ^ 64 ≡ 1 + length e = omega (arith, length-put_varint md.expire) in
    let i2 : (1 + length e + length v) % 2 ^ 64 ≡ length p2 =
      omega (arith, l2, length-put_varint md.expire, length-put_varint md.version) in
    let i3 : (length p2 + length s) % 2 ^ 64 ≡ length p3 = omega (
      arith,
      l2,
      l3,
      length-put_varint md.expire,
      length-put_varint md.version,
      length-put_varint md.size,
    ) in
    let size : md.size % 2 ^ 32 ≡ md.size = omega (arith, m.size) in
    let short : length p3 < 2 ^ 32 = omega (
      arith,
      l3,
      length-put_varint md.expire,
      length-put_varint md.version,
      length-put_varint md.size,
    ) in
    rw (
      slice_from-append (md.data_type ∷ []) (e ++ (v ++ (s ++ l))) 1 refl,
      varint-put_varint md.expire (v ++ (s ++ l)) m.expire,
      i1,
      slice_from-append p1 (v ++ (s ++ l)) (1 + length e) (omega arith),
      varint-put_varint md.version (s ++ l) m.version,
      i2,
      slice_from-split (length p2) p2 (s ++ l) buf b2 refl,
      varint-put_varint md.size l (omega (arith, m.size)),
      i3,
      b3,
      decode-encode_list_marks md p3 m short,
      size,
    )

-- What encode stores of metadata with a uint32 size fits into its buffer of maxMetadataSize
-- bytes, and extraListSize more for a list.
pub length-encode_metadata :
    (md : Metadata)
    → md.size < 2 ^ 32
    → length (encode_metadata md) ≤ (
        if md.data_type == list_type
        then max_metadata_size + extra_list_size
        else max_metadata_size)
unfolding encode_metadata encode_list_marks
length-encode_metadata md h =
    let e = put_varint md.expire in
    let v = put_varint md.version in
    let s = put_varint md.size in
    let hd = put_uvarint md.head in
    elim (Bool-cases (md.data_type == list_type)) [
      | inl listed ↦ rw listed (
          omega (
            arith,
            length-append e (v ++ (s ++ (hd ++ put_uvarint md.tail))),
            length-append v (s ++ (hd ++ put_uvarint md.tail)),
            length-append s (hd ++ put_uvarint md.tail),
            length-append hd (put_uvarint md.tail),
            length-put_varint md.expire,
            length-put_varint md.version,
            length-put_varint_small md.size (omega (arith, h)),
            length-put_uvarint md.head,
            length-put_uvarint md.tail,
          ))
      | inr other ↦
          rw (other, append-nil)
            (omega (
              arith,
              length-append e (v ++ s),
              length-append v s,
              length-put_varint md.expire,
              length-put_varint md.version,
              length-put_varint_small md.size (omega (arith, h)),
            ))
    ]

slice_to-append : (xs ys : Bytes) (n : ℕ) → n ≡ length xs → slice_to n (xs ++ ys) ≡ ok xs
unfolding slice_to
slice_to-append xs ys n h =
    rw (ltb-false (length (xs ++ ys)) n (omega (arith, length-append xs ys, h)))
      (ap ok (take-append n xs ys (sym h)))

-- decodeHashInternalKey, given the length of the key, gives back key, version and field that
-- the internal key of a hash was made of.
pub decode-encode_hash_key :
    (hk : HashInternalKey)
    → IsU64 hk.version
    → decode_hash_key (encode_hash_key hk) (length hk.key) ≡ ok hk
unfolding decode_hash_key encode_hash_key
decode-encode_hash_key hk h =
    let v = put_uint64 hk.version in
    rw (
      slice_to-append hk.key (v ++ hk.field) (length hk.key) refl,
      slice_from-append hk.key (v ++ hk.field) (length hk.key) refl,
      slice_to-append v hk.field 8 (sym (length-le_bytes 8 hk.version)),
      slice_from-append v hk.field 8 (length-le_bytes 8 hk.version),
      le_value-le_bytes 8 hk.version (omega (arith, h)),
    )
