-- ===== src/Redis/Types/Strings.antt =====
-- redis/types.go: a string that was set is read back, and the metadata that the commands find.
use bitcask_go.Common.{
  ℕ, ◌+◌, ◌-◌, ◌%◌, ◌^◌, ◌<◌, ◌≡◌, ◌∙◌, refl, false, Option, none, ltb, ◌||◌, some, [], ◌∷◌, ◌++◌,
  Bytes, length, ◌==◌, if◌then◌else◌, arith, length-append,
}
use bitcask_go.Common.Eq.{bytes_eq, beq_self}
use bitcask_go.Common.Result.{Res, ok, err, key_expired, wrong_type_operation}
use bitcask_go.Common.Exec.Post.{Post, Post-mono}
use bitcask_go.Varint.{IsU64, put_varint}
use bitcask_go.Varint.RoundTrip.{varint-put_varint, length-put_varint}
use bitcask_go.Data.Record.RoundTrip.{slice_from-append}
use bitcask_go.Index.{Indexer}
use bitcask_go.Db.State.{Db}
use bitcask_go.Db.Invariant.{IsWf, active_id}
use bitcask_go.Db.Refine.{Contents, update, Refines}
use bitcask_go.Db.Refine.Reads.{get-Refines}
use bitcask_go.Db.Refine.Methods.{Holds, put-Post}
use bitcask_go.Redis.Meta.{string_type, list_type, Metadata, first_byte, encode_metadata}
use bitcask_go.Redis.Meta.RoundTrip.{IsMetadata, decode-encode_metadata}
use bitcask_go.Redis.Types.{
  expire_of, encode_string, string_expired, decode_string, usable_metadata, metadata_of,
  new_metadata, set, get, find_metadata,
}

-- A key at which metadata stands, with an expiry that is no negative number, or nothing.
abbrev pub Keeps : Contents → Bytes → Option Metadata → Type 0
Keeps m key none = m key ≡ none
Keeps m key (some md) = (m key ≡ some (encode_metadata md)) × (IsMetadata md × (md.expire < 2 ^ 63))

abbrev pub empty_metadata : ℕ → ℕ → Metadata
empty_metadata data_type version =
    let middle = if data_type == list_type then 2 ^ 63 - 1 else 0 in
    record {
      data_type = data_type;
      expire = 0;
      version = version;
      size = 0;
      head = middle;
      tail = middle;
    }

-- What a command of a type finds at a time: what is stored, while it has no expiry or is before it.
abbrev pub found_at : ℕ → ℕ → ℕ → Option Metadata → Res Metadata
found_at data_type now version none = ok (empty_metadata data_type version)
found_at data_type now version (some md) =
    if md.data_type == data_type
    then ok (if (md.expire == 0) || ltb now md.expire then md else empty_metadata data_type version)
    else err wrong_type_operation

usable_metadata-found_at :
    (md : Metadata) (data_type now version : ℕ)
    → md.expire < 2 ^ 63
    → now < 2 ^ 63
    → usable_metadata data_type now version md ≡ found_at data_type now version (some md)
unfolding new_metadata
usable_metadata-found_at md data_type now version ends soon = ground arith

-- What Get makes of a string with an expiry.
abbrev pub unless_expired : ℕ → ℕ → Bytes → Res Bytes
unless_expired expire now value = if string_expired expire now then err key_expired else ok value

pub decode-encode_string :
    (expire now : ℕ) (value : Bytes)
    → IsU64 expire
    → decode_string now (encode_string expire value) ≡ unless_expired expire now value
unfolding decode_string encode_string first_byte
decode-encode_string expire now value h =
    let e = put_varint expire in
    let index : (1 + length e) % 2 ^ 64 ≡ 1 + length e = omega (arith, length-put_varint expire) in
    rw (
      slice_from-append (string_type ∷ []) (e ++ value) 1 refl,
      varint-put_varint expire value h,
      index,
      slice_from-append (string_type ∷ e) value (1 + length e) (omega arith),
    )

-- What a string answers that was set at `now`, 0 for a time to live that never ends.
abbrev pub in_its_time : ℕ → ℕ → ℕ → Bytes → Res Bytes
in_its_time ttl now later value =
    if ttl == 0 then ok value else if ltb (now + ttl) later then err key_expired else ok value

unless_expired-expire_of :
    (ttl now later : ℕ) (value : Bytes)
    → now + ttl < 2 ^ 63
    → later < 2 ^ 63
    → unless_expired (expire_of ttl now) later value ≡ in_its_time ttl now later value
unfolding expire_of
unless_expired-expire_of ttl now later value ends soon = ground arith

expire_of-IsU64 : (ttl now : ℕ) → IsU64 (expire_of ttl now)
unfolding expire_of
expire_of-IsU64 ttl now = ground arith

module _ {ix : Indexer} where
  get_string :
      (db : Db ix) (m : Contents) (key : Bytes) (expire now : ℕ) (value : Bytes)
      → Refines db m
      → (length key == 0) ≡ false
      → m key ≡ some (encode_string expire value)
      → IsU64 expire
      → get key now db ≡ unless_expired expire now value
  unfolding get
  get_string db m key expire now value r k e h =
      rw (get-Refines db m key r, k, e) (decode-encode_string expire now value h)

  -- Let a well-formed database hold a map, with a file id to spare and a key and value that a
  -- header can hold. Set of a key that is not empty, and a value that is not nil, with a time
  -- to live that is not negative and ends below 2 ^ 63 nanoseconds, does not panic whatever the
  -- disk answers. Where it returns, Get at any time below 2 ^ 63 answers the value if the time
  -- to live is 0 or the time is at most that of Set and the time to live together, and that the
  -- key has expired if the time is past that; where it fails, the database still holds the map.
  pub set-Post :
      (db : Db ix) (m : Contents)
      → Refines db m
      → IsWf db
      → active_id db.active_file + 1 < 2 ^ 32
      → (key value : Bytes) (ttl now : ℕ) → (length key == 0) ≡ false
      → length key + 10 < 2 ^ 32
      → length value + 11 < 2 ^ 32
      → now + ttl < 2 ^ 63
      → (later : ℕ) → later < 2 ^ 63
      → Post
          (λ _ db'. get key later db' ≡ in_its_time ttl now later value)
          (λ db'. Refines db' m)
          (set key ttl (some value) now db)
  unfolding set
  set-Post db m r wf spare key value ttl now some_key hk hv ends later soon =
      let enc = encode_string (expire_of ttl now) value in
      Post-mono (λ _ db'. Holds (update m key enc) db db')
        (λ _ db'. get key later db' ≡ in_its_time ttl now later value) (λ db'. Refines db' m)
        (λ db'. Refines db' m) _
        (put-Post db m r wf spare key enc (
          unfold encode_string in
          record {
            key_fits = hk;
            value_fits = omega (
              arith,
              length-append (put_varint (expire_of ttl now)) value,
              length-put_varint (expire_of ttl now),
              hv,
            );
          }))
        (λ _ db' h.
          get_string db' (update m key enc) key (expire_of ttl now) later value h.refines some_key
            (rw (beq_self key) refl) (expire_of-IsU64 ttl now)
          ∙ unless_expired-expire_of ttl now later value ends soon)
        (λ db' h. h)

  -- On a database that holds a map, for a key that is not empty, at which the map has nothing
  -- or the encoding of metadata with an expiry that is not negative, and at a time below 2 ^
  -- 63: findMetadata refuses stored metadata of another type with the error of a wrong type,
  -- returns stored metadata of its type where the expiry is 0 or after the time, and otherwise
  -- returns metadata of its type with the new version, without an expiry, of size 0, its two
  -- marks at 2 ^ 63 - 1 for a list and at 0 for another type.
  pub find_metadata-Refines :
      (db : Db ix) (m : Contents) (key : Bytes) (stored : Option Metadata)
      (data_type now version : ℕ)
      → Refines db m
      → (length key == 0) ≡ false
      → Keeps m key stored
      → now < 2 ^ 63
      → find_metadata key data_type now version db ≡ found_at data_type now version stored
  unfolding find_metadata metadata_of
  find_metadata-Refines db m key none data_type now version r k e soon =
      rw (get-Refines db m key r, k, e) (unfold new_metadata in refl)
  find_metadata-Refines db m key (some md) data_type now version r k (e, (h, ends)) soon =
      rw (get-Refines db m key r, k, e, decode-encode_metadata md h)
        (usable_metadata-found_at md data_type now version ends soon)
