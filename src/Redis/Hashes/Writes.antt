-- ===== src/Redis/Hashes/Writes.antt =====
-- redis/types.go: HSet, HDel and HGet on a hash that stands at a key.
use bitcask_go.Common.{
  ◌&&◌, ℕ, ◌+◌, ◌^◌, ◌<◌, ◌≡◌, refl, ap, ◌∙◌, Bool-cases, inl, inr, true, false, not, ◌≢◌, [], sym,
  Bytes, length, ◌==◌, if◌then◌else◌, arith,
}
use bitcask_go.Common.Assoc.{Assoc, lookup, insert, remove, lookup-insert_self}
use bitcask_go.Common.Assoc.Size.{present, absent-empty, insert-some}
use bitcask_go.Common.Eq.{bytes_eq}
use bitcask_go.Common.Result.{ok}
use bitcask_go.Common.Exec.Post.{Post, Post-mono, Post-return}
use bitcask_go.Index.{Indexer}
use bitcask_go.Batch.Ranging.{Ranging, IsRanging}
use bitcask_go.Db.State.{Db}
use bitcask_go.Db.Refine.{Contents, Refines, answer}
use bitcask_go.Db.Refine.Reads.{get-Refines}
use bitcask_go.Redis.Meta.{Metadata, hash_type, encode_hash_key}
use bitcask_go.Redis.Types.{metadata_expired}
use bitcask_go.Varint.{signed_lt}
use bitcask_go.Redis.Part.{exists_at}
use bitcask_go.Redis.Part.Stands.{part_key, Finds, IsParts}
use bitcask_go.Redis.Part.Commands.{
  find_metadata-Finds, exists_at-Refines, IsReady, Stands, deleted-Post, IsParts-Finds,
}
use bitcask_go.Redis.Part.Writes.{IsKeys, some_part, set_part-Post, add_part-Post, remove_part-Post}
use bitcask_go.Redis.Hashes.{field_key, hset, hget, hdel}

field_key-part_key :
    (key : Bytes) (md : Metadata) (field : Bytes)
    → field_key key md field ≡ part_key key md.version field
unfolding encode_hash_key
field_key-part_key key md field = refl

module _ {ix : Indexer} where
  exists-field :
      (db : Db ix) (m : Contents) (key field : Bytes) (md : Metadata) (h : Assoc Bytes Bytes)
      → Refines db m
      → IsParts hash_type m key md h
      → exists_at (part_key key md.version field) db ≡ ok (present (lookup field h))
  exists-field db m key field md h r is =
      exists_at-Refines db m (part_key key md.version field) r (some_part key md.version field)
      ∙ ap (λ o. ok (present o)) (is.parts field)

  -- Let a well-formed database with an index in memory and three file ids to spare hold a map
  -- in which a hash stands at a key, where findMetadata finds its metadata, for a key that is
  -- not empty, with lengths that a header can hold, and with room for one more field in the
  -- uint32 size. Then HSet of a field ends without a panic whatever the disk answers and in
  -- whatever orders the loops of Commit take the batch: it returns whether the field is new,
  -- and the hash with the field set to the value stands at the key, counted by its metadata,
  -- with the version and the expiry as they were and no other key changed; or it fails and the
  -- database still holds the map.
  pub hset-Post :
      (g : Ranging) (db : Db ix) (m : Contents) (key field value : Bytes) (md : Metadata)
      (h : Assoc Bytes Bytes) (now version : ℕ)
      → IsRanging g
      → IsReady db m 3
      → IsKeys key field
      → length value < 2 ^ 32
      → length h + 1 < 2 ^ 32
      → Finds m key hash_type now version md
      → IsParts hash_type m key md h
      → Post
          (λ added db'.
            (added ≡ not (present (lookup field h)))
            × Stands hash_type m key (field_key key md field) md (insert field value h) 3 db db')
          (λ db'. Refines db' m)
          (hset g key field value now version db)
  unfolding hset
  hset-Post g db m key field value md h now version ranging ready keys fits few finds is =
      rw
        (
          find_metadata-Finds db m key hash_type now version md ready.refines keys.some_key finds,
          field_key-part_key key md field,
          exists-field db m key field md h ready.refines is,
        )
        (elim (Bool-cases (present (lookup field h))) [
          | inl there ↦ rw there (
              Post-return
                (λ db'.
                  Stands hash_type m key (part_key key md.version field) md (insert field value h) 3
                    db db')
                (λ db'. Refines db' m) _ false
                (set_part-Post g db m key field md h hash_type ranging ready keys is value fits
                  there))
          | inr absent ↦ rw absent (
              Post-return
                (λ db'.
                  Stands hash_type m key (part_key key md.version field) md (insert field value h) 3
                    db db')
                (λ db'. Refines db' m) _ true
                (add_part-Post g db m key field md h hash_type ranging ready keys is value fits few
                  absent))
        ])

  -- Let a well-formed database with an index in memory and three file ids to spare hold a map
  -- in which a hash stands at a key, where findMetadata finds its metadata, for a key that is
  -- not empty, with lengths that a header can hold. Then HDel of a field ends without a panic
  -- whatever the disk answers and in whatever orders the loops of Commit take the batch: where
  -- the hash has the field it returns true, and the hash without it stands at the key, counted
  -- by its metadata, with no other key changed; where the hash does not have it, it returns
  -- false and the database is as it was; or it fails and the database still holds the map.
  pub hdel-Post :
      (g : Ranging) (db : Db ix) (m : Contents) (key field : Bytes) (md : Metadata)
      (h : Assoc Bytes Bytes) (now version : ℕ)
      → IsRanging g
      → IsReady db m 3
      → IsKeys key field
      → Finds m key hash_type now version md
      → IsParts hash_type m key md h
      → Post
          (λ deleted db'.
            (deleted ≡ present (lookup field h))
            × (if deleted
                then Stands hash_type m key (field_key key md field) md (remove field h) 3 db db'
                else db' ≡ db))
          (λ db'. Refines db' m)
          (hdel g key field now version db)
  unfolding hdel
  hdel-Post g db m key field md h now version ranging ready keys finds is =
      rw
        (
          find_metadata-Finds db m key hash_type now version md ready.refines keys.some_key finds,
          field_key-part_key key md field,
        )
        (elim (Bool-cases (md.size == 0)) [
          | inl empty ↦ rw empty (sym (absent-empty field h (ground (arith, is.size))), refl)
          | inr some_fields ↦
              rw (some_fields, exists-field db m key field md h ready.refines is)
                (elim (Bool-cases (present (lookup field h))) [
                  | inl there ↦ rw there (
                      deleted-Post db
                        (λ db'.
                          Stands hash_type m key (part_key key md.version field) md (remove field h)
                            3 db db')
                        (λ db'. Refines db' m) _
                        (remove_part-Post g db m key field md h hash_type ranging ready keys is
                          there))
                  | inr absent ↦ rw absent (refl, refl)
                ])
        ])

  -- HGet on a hash that stands at a key answers the value of the field, that the key was not found for a
  -- field that is not there, and nil on an empty hash.
  pub hget-IsParts :
      (db : Db ix) (m : Contents) (key field : Bytes) (md : Metadata) (h : Assoc Bytes Bytes)
      (now version : ℕ)
      → Refines db m
      → (length key == 0) ≡ false
      → Finds m key hash_type now version md
      → IsParts hash_type m key md h
      → hget key field now version db ≡ (if length h == 0 then ok [] else answer (lookup field h))
  unfolding hget
  hget-IsParts db m key field md h now version r some_key finds is =
      rw
        (
          find_metadata-Finds db m key hash_type now version md r some_key finds,
          sym is.size,
          field_key-part_key key md field,
          get-Refines db m (part_key key md.version field) r,
          some_part key md.version field,
          is.parts field,
        )
        refl

  -- Let a well-formed database with an index in memory and three file ids to spare hold a map
  -- in which a hash stands at a key, where findMetadata finds its metadata, for a key that is
  -- not empty, with lengths that a header can hold, and with room for one more field in the
  -- uint32 size. After HSet of a field has returned, HGet of the field answers the value at
  -- every time at which the metadata of the hash has not expired; HSet does not panic, and
  -- where it fails the database still holds the map.
  pub hset-hget :
      (g : Ranging) (db : Db ix) (m : Contents) (key field value : Bytes) (md : Metadata)
      (h : Assoc Bytes Bytes) (now version later version' : ℕ)
      → IsRanging g
      → IsReady db m 3
      → IsKeys key field
      → length value < 2 ^ 32
      → length h + 1 < 2 ^ 32
      → Finds m key hash_type now version md
      → IsParts hash_type m key md h
      → metadata_expired md later ≡ false
      → Post
          (λ _ db'. hget key field later version' db' ≡ ok value)
          (λ db'. Refines db' m)
          (hset g key field value now version db)
  hset-hget g db m key field value md h now version later version' ranging ready keys fits few finds
        is live =
      Post-mono
        (λ added db'.
          (added ≡ not (present (lookup field h)))
          × Stands hash_type m key (field_key key md field) md (insert field value h) 3 db db')
        (λ _ db'. hget key field later version' db' ≡ ok value) (λ db'. Refines db' m)
        (λ db'. Refines db' m) _
        (hset-Post g db m key field value md h now version ranging ready keys fits few finds is)
        (λ added db' (e, s).
          let stored : length (insert field value h) ≢ 0 = insert-some field value h in
          let counted : (length (insert field value h) == 0) ≡ false = ground arith in
          hget-IsParts db' s.contents key field s.metadata (insert field value h) later version'
            s.committed.refines keys.some_key
            (IsParts-Finds hash_type s.contents key s.metadata (insert field value h) later version'
              s.holds stored (ap (λ t. signed_lt 0 t && not (signed_lt later t)) s.expire ∙ live))
            s.holds
          ∙ rw (counted, lookup-insert_self field value h) refl)
        (λ db' r. r)
