-- ===== src/Redis/Sets/Writes.antt =====
-- redis/types.go: SAdd, SRem and SIsMember on a set that stands at a key, as a map to empty values.
use bitcask_go.Common.{
  ℕ, ◌+◌, ◌^◌, ◌<◌, ◌≡◌, refl, sym, ap, ◌∙◌, Bool-cases, inl, inr, false, not, Option, none, some,
  [], Bytes, length, ◌==◌, if◌then◌else◌, arith,
}
use bitcask_go.Common.Assoc.{Assoc, lookup, insert, remove}
use bitcask_go.Common.Assoc.Size.{present, absent-empty}
use bitcask_go.Common.Eq.{bytes_eq}
use bitcask_go.Common.Result.{ok}
use bitcask_go.Common.Exec.Post.{Post}
use bitcask_go.Index.{Indexer}
use bitcask_go.Batch.Ranging.{Ranging, IsRanging}
use bitcask_go.Db.State.{Db}
use bitcask_go.Db.Refine.{Contents, Refines, answer}
use bitcask_go.Db.Refine.Reads.{get-Refines}
use bitcask_go.Redis.Meta.{Metadata, set_type, encode_set_key}
use bitcask_go.Redis.Part.{exists_at}
use bitcask_go.Redis.Part.Stands.{part_key, Finds, IsParts}
use bitcask_go.Redis.Part.Commands.{
  find_metadata-Finds, exists_at-Refines, IsReady, Stands, deleted-Post,
}
use bitcask_go.Redis.Part.Writes.{IsKeys, some_part, add_part-Post, remove_part-Post}
use bitcask_go.Redis.Sets.{member_key, is_member_of, sadd, sis_member, srem}

member_key-part_key :
    (key : Bytes) (md : Metadata) (member : Bytes)
    → member_key key md member ≡ part_key key md.version member
unfolding encode_set_key
member_key-part_key key md member = refl

is_member_of-answer : (o : Option Bytes) → is_member_of (answer o) ≡ ok (present o)
is_member_of-answer none = refl
is_member_of-answer (some v) = refl

module _ {ix : Indexer} where
  exists-member :
      (db : Db ix) (m : Contents) (key member : Bytes) (md : Metadata) (h : Assoc Bytes Bytes)
      → Refines db m
      → IsParts set_type m key md h
      → exists_at (part_key key md.version member) db ≡ ok (present (lookup member h))
  exists-member db m key member md h r is =
      exists_at-Refines db m (part_key key md.version member) r (some_part key md.version member)
      ∙ ap (λ o. ok (present o)) (is.parts member)

  pub sadd-Post :
      (g : Ranging) (db : Db ix) (m : Contents) (key member : Bytes) (md : Metadata)
      (h : Assoc Bytes Bytes) (now version : ℕ)
      → IsRanging g
      → IsReady db m 3
      → IsKeys key member
      → length h + 1 < 2 ^ 32
      → Finds m key set_type now version md
      → IsParts set_type m key md h
      → Post
          (λ added db'.
            (added ≡ not (present (lookup member h)))
            × (if added
                then Stands set_type m key
                    (member_key key md member)
                    md
                    (insert member [] h)
                    3
                    db
                    db'
                else db' ≡ db))
          (λ db'. Refines db' m)
          (sadd g key member now version db)
  unfolding sadd
  sadd-Post g db m key member md h now version ranging ready keys few finds is =
      rw
        (
          find_metadata-Finds db m key set_type now version md ready.refines keys.some_key finds,
          member_key-part_key key md member,
          exists-member db m key member md h ready.refines is,
        )
        (elim (Bool-cases (present (lookup member h))) [
          | inl there ↦ rw there (refl, refl)
          | inr absent ↦ rw absent (
              deleted-Post db
                (λ db'.
                  Stands set_type m key (part_key key md.version member) md (insert member [] h) 3
                    db db')
                (λ db'. Refines db' m) _
                (add_part-Post g db m key member md h set_type ranging ready keys is []
                  (omega arith) few absent))
        ])

  pub srem-Post :
      (g : Ranging) (db : Db ix) (m : Contents) (key member : Bytes) (md : Metadata)
      (h : Assoc Bytes Bytes) (now version : ℕ)
      → IsRanging g
      → IsReady db m 3
      → IsKeys key member
      → Finds m key set_type now version md
      → IsParts set_type m key md h
      → Post
          (λ removed db'.
            (removed ≡ present (lookup member h))
            × (if removed
                then Stands set_type m key (member_key key md member) md (remove member h) 3 db db'
                else db' ≡ db))
          (λ db'. Refines db' m)
          (srem g key member now version db)
  unfolding srem
  srem-Post g db m key member md h now version ranging ready keys finds is =
      rw
        (
          find_metadata-Finds db m key set_type now version md ready.refines keys.some_key finds,
          member_key-part_key key md member,
        )
        (elim (Bool-cases (md.size == 0)) [
          | inl empty ↦ rw empty (sym (absent-empty member h (ground (arith, is.size))), refl)
          | inr some_members ↦
              rw (some_members, exists-member db m key member md h ready.refines is)
                (elim (Bool-cases (present (lookup member h))) [
                  | inl there ↦ rw there (
                      deleted-Post db
                        (λ db'.
                          Stands set_type m key (part_key key md.version member) md
                            (remove member h) 3 db db')
                        (λ db'. Refines db' m) _
                        (remove_part-Post g db m key member md h set_type ranging ready keys is
                          there))
                  | inr absent ↦ rw absent (refl, refl)
                ])
        ])

  -- SIsMember answers whether the member is in the set.
  pub sis_member-IsParts :
      (db : Db ix) (m : Contents) (key member : Bytes) (md : Metadata) (h : Assoc Bytes Bytes)
      (now version : ℕ)
      → Refines db m
      → (length key == 0) ≡ false
      → Finds m key set_type now version md
      → IsParts set_type m key md h
      → sis_member key member now version db ≡ ok (present (lookup member h))
  unfolding sis_member
  sis_member-IsParts db m key member md h now version r some_key finds is =
      rw
        (
          find_metadata-Finds db m key set_type now version md r some_key finds,
          member_key-part_key key md member,
          get-Refines db m (part_key key md.version member) r,
          some_part key md.version member,
          is.parts member,
          is_member_of-answer (lookup member h),
        )
        (elim (Bool-cases (md.size == 0)) [
          | inl empty ↦ rw (empty, absent-empty member h (ground (arith, is.size))) refl
          | inr some_members ↦ rw some_members refl
        ])
