-- ===== src/Redis/Lists/Reads.antt =====
-- redis/types.go: LAll on a list that stands at a key.
use bitcask_go.Common.{
  ℕ, ◌+◌, ◌-◌, ◌≡◌, refl, sym, ap, Bool-cases, inl, inr, false, List, [], ◌∷◌, Bytes, length,
  ltb-true, ◌==◌, arith,
}
use bitcask_go.Common.Result.{ok}
use bitcask_go.Varint.LittleEndian.{put_uint64}
use bitcask_go.Index.{Indexer}
use bitcask_go.Db.State.{Db}
use bitcask_go.Db.Ops
use bitcask_go.Db.Refine.{Contents, Refines}
use bitcask_go.Db.Refine.Reads.{get-Refines}
use bitcask_go.Redis.Meta.{Metadata, list_type}
use bitcask_go.Redis.Part.Stands.{part_key, Finds}
use bitcask_go.Redis.Part.Commands.{find_metadata-Finds}
use bitcask_go.Redis.Part.Writes.{some_part}
use bitcask_go.Redis.Lists.{lall_from, lall}
use bitcask_go.Redis.Lists.Run.{element_key-part_key, IsRun, IsList}

-- Each element with its place.
abbrev pub placed : ℕ → List Bytes → List (ℕ × Bytes)
placed count [] = []
placed count (x ∷ xs) = (count, x) ∷ placed (count + 1) xs

placed-empty : (xs : List Bytes) → length xs ≡ 0 → placed 0 xs ≡ []
placed-empty [] h = refl
placed-empty (x ∷ xs) h = ground arith

module _ {ix : Indexer} where
  lall_from-IsRun :
      (db : Db ix) (m : Contents) (key : Bytes) (md : Metadata) (i count : ℕ) (xs : List Bytes)
      → Refines db m
      → IsRun m key md.version i xs
      → md.tail ≡ i + length xs
      → lall_from key md db (length xs) i count ≡ ok (placed count xs)
  unfolding lall_from
  lall_from-IsRun db m key md i count [] r run e = refl
  lall_from-IsRun db m key md i count (x ∷ xs) r run e =
      let found : Ops.get (part_key key md.version (put_uint64 i)) db ≡ ok x =
        rw
          (
            get-Refines db m (part_key key md.version (put_uint64 i)) r,
            some_part key md.version (put_uint64 i),
            run.0,
          )
          refl in
      rw
        (
          ltb-true i md.tail (omega (arith, e)),
          element_key-part_key key md i,
          found,
          lall_from-IsRun db m key md (i + 1) (count + 1) xs r run.1 (omega (arith, e)),
        )
        refl

  -- On a database that holds a map in which a list stands at a key that is not empty, where
  -- findMetadata finds its metadata, LAll returns every element of the list with its place,
  -- counted from 0, in their order.
  pub lall-IsList :
      (db : Db ix) (m : Contents) (key : Bytes) (md : Metadata) (xs : List Bytes) (now version : ℕ)
      → Refines db m
      → (length key == 0) ≡ false
      → Finds m key list_type now version md
      → IsList m key md xs
      → lall key now version db ≡ ok (placed 0 xs)
  unfolding lall
  lall-IsList db m key md xs now version r k finds is =
      let steps : md.tail - md.head ≡ length xs = omega (arith, is.marks) in
      rw (find_metadata-Finds db m key list_type now version md r k finds, steps)
        (elim (Bool-cases (md.size == 0)) [
          | inl empty ↦ rw empty (ap ok (sym (placed-empty xs (ground (arith, is.size)))))
          | inr some_elements ↦
              rw (some_elements, lall_from-IsRun db m key md md.head 0 xs r is.run is.marks) refl
        ])
