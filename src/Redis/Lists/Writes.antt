-- ===== src/Redis/Lists/Writes.antt =====
-- redis/types.go: a push and a pop at either end of a list that stands at a key, and LAll.
use bitcask_go.Common.{
  ℕ, ◌+◌, ◌^◌, ◌<◌, ◌≡◌, ◌≢◌, refl, sym, subst, ◌∙◌, Bool, inl, inr, ◌⊎◌, true, false, Option, none,
  some, List, [], ◌∷◌, Bytes, length, ◌==◌, length-append, arith,
}
use bitcask_go.Common.Eq.{bytes_eq}
use bitcask_go.Common.Result.{ok}
use bitcask_go.Common.Exec.{pure, ◌>>◌}
use bitcask_go.Common.Exec.Post.{Post, Post-mono, Post-return, Post-continue}
use bitcask_go.Varint.LittleEndian.{put_uint64, length-le_bytes}
use bitcask_go.Index.{Indexer}
use bitcask_go.Batch.Commit.{Committed}
use bitcask_go.Batch.Ranging.{Ranging, IsRanging, put_in}
use bitcask_go.Batch.Ranging.Filled.{put_in-Filled}
use bitcask_go.Db.State.{Db}
use bitcask_go.Db.Ops
use bitcask_go.Db.Invariant.{IsWf, active_id}
use bitcask_go.Db.Refine.{Contents, Refines, erase}
use bitcask_go.Db.Refine.Reads.{get-Refines}
use bitcask_go.Db.Refine.Methods.{Holds, put-Post, delete-Post}
use bitcask_go.Redis.Meta.{Metadata, list_type, encode_metadata}
use bitcask_go.Redis.Meta.RoundTrip.{decode-encode_metadata}
use bitcask_go.Redis.Types.{metadata_of, metadata_expired}
use bitcask_go.Redis.Part.{grown, shrunk}
use bitcask_go.Redis.Part.Stands.{part_key, Finds, with_metadata}
use bitcask_go.Redis.Part.Commands.{
  find_metadata-Finds, metadata-IsStorable, IsReady, After, fill-Post,
}
use bitcask_go.Redis.Part.Writes.{IsKeys, some_part, part-IsStorable, metadata-Filled}
use bitcask_go.Redis.Lists.{
  element_key, pushed_marks, popped_marks, push_index, pop_index, push_inner, pop_inner,
}
use bitcask_go.Redis.Lists.Run.{element_key-part_key, IsList, IsRoomy, pushed}
use bitcask_go.Redis.Lists.Ends.{
  with_element, without_element, push-IsList, pop_index-IsList, pop-IsList,
}

index-IsKeys :
    (key : Bytes) (i : ℕ)
    → (length key == 0) ≡ false
    → length key + 26 < 2 ^ 32
    → IsKeys key (put_uint64 i)
index-IsKeys key i k h = record { some_key = k; fits = omega (arith, h, length-le_bytes 8 i) }

size-pushed :
    (is_left : Bool) (md : Metadata) → (pushed_marks is_left (grown md)).size ≡ (grown md).size
size-pushed true md = refl
size-pushed false md = refl

version-pushed :
    (is_left : Bool) (md : Metadata) → (pushed_marks is_left (grown md)).version ≡ md.version
version-pushed true md = refl
version-pushed false md = refl

expire-pushed :
    (is_left : Bool) (md : Metadata) → (pushed_marks is_left (grown md)).expire ≡ md.expire
expire-pushed true md = refl
expire-pushed false md = refl

version-popped :
    (is_left : Bool) (md : Metadata) → (popped_marks is_left (shrunk md)).version ≡ md.version
version-popped true md = refl
version-popped false md = refl

expire-popped :
    (is_left : Bool) (md : Metadata) → (popped_marks is_left (shrunk md)).expire ≡ md.expire
expire-popped true md = refl
expire-popped false md = refl

length-pushed :
    (is_left : Bool) (x : Bytes) (xs : List Bytes) → length (pushed is_left x xs) ≡ length xs + 1
length-pushed true x xs = omega arith
length-pushed false x xs = omega (arith, length-append xs (x ∷ []))

-- The metadata of a list that is not empty is found until it expires.
pub IsList-Finds :
    (m : Contents) (key : Bytes) (md : Metadata) (xs : List Bytes) (now version : ℕ)
    → IsList m key md xs
    → length xs ≢ 0
    → metadata_expired md now ≡ false
    → Finds m key list_type now version md
unfolding metadata_of
IsList-Finds m key md xs now version is some_elements live =
    let counted : (md.size == 0) ≡ false = ground (arith, is.size) in
    rw (is.stored counted, decode-encode_metadata md is.fits, is.typed, live) refl

module _ {ix : Indexer} where
  -- Let a well-formed database with an index in memory and three file ids to spare hold a map
  -- in which a list stands at a key, where findMetadata finds its metadata, for a key that is
  -- not empty, with lengths that a header can hold, and with room for one more element at both
  -- marks and in the size. Then pushInner of an element, at either end, ends without a panic
  -- whatever the disk answers and in whatever orders the loops of Commit take the batch: it
  -- returns the length of the list with the element at that end, and this list stands at the
  -- key, with the version and the expiry as they were and no other key changed; or it fails and
  -- the database still holds the map.
  pub push_inner-Post :
      (g : Ranging) (db : Db ix) (m : Contents) (key element : Bytes) (md : Metadata)
      (xs : List Bytes) (is_left : Bool) (now version : ℕ)
      → IsRanging g
      → IsReady db m 3
      → (length key == 0) ≡ false
      → length key + 26 < 2 ^ 32
      → length element < 2 ^ 32
      → Finds m key list_type now version md
      → IsList m key md xs
      → IsRoomy md (length xs)
      → Post
          (λ size db'.
            (size ≡ length xs + 1)
            × After
                (λ c md'. IsList c key md' (pushed is_left element xs))
                m
                key
                (element_key key md (push_index is_left md))
                md
                3
                db
                db')
          (λ db'. Refines db' m)
          (push_inner g key element is_left now version db)
  unfolding push_inner
  push_inner-Post g db m key element md xs is_left now version ranging ready k fits few finds is
        room =
      let i = push_index is_left md in
      let md' = pushed_marks is_left (grown md) in
      let size : md'.size ≡ length xs + 1 =
        size-pushed is_left md ∙ omega (arith, is.size, room.counted) in
      let keys = index-IsKeys key i k fits in
      rw
        (
          find_metadata-Finds db m key list_type now version md ready.refines k finds,
          element_key-part_key key md i,
          sym size,
        )
        (Post-return
          (λ db'.
            After (λ c md'. IsList c key md' (pushed is_left element xs)) m key
              (part_key key md.version (put_uint64 i)) md 3 db db')
          (λ db'. Refines db' m) _ md'.size
          (fill-Post g db m key (part_key key md.version (put_uint64 i)) md
            (λ c md'. IsList c key md' (pushed is_left element xs))
            (with_element m key md' md.version i element) md'
            (λ wb _.
              put_in (part_key key md.version (put_uint64 i)) element
                (put_in key (encode_metadata md') wb))
            ranging ready
            (put_in-Filled m (with_metadata m key md') 1 (part_key key md.version (put_uint64 i))
              element _ (some_part key md.version (put_uint64 i))
              (part-IsStorable key (put_uint64 i) md.version element keys few)
              (metadata-Filled m key (put_uint64 i) md' keys (omega (arith, size, room.counted))))
            (push-IsList m key element md xs is_left is room) (version-pushed is_left md)
            (expire-pushed is_left md) (λ j a b. rw (a, b) refl)))

  -- A pop fails before its two writes have begun, or between them.
  abbrev pub Halfway : Contents → Bytes → Db ix → Type 0
  Halfway m popped_key db' = Refines db' m ⊎ Refines db' (erase m popped_key)

  -- The two writes of a pop, and its return.
  take_element-Post :
      (db : Db ix) (m m' : Contents) (key pk element : Bytes) (md' : Metadata)
      → Refines db m
      → IsWf db
      → active_id db.active_file + 2 < 2 ^ 32
      → m' ≡ with_metadata (erase m pk) key md'
      → length key + 10 < 2 ^ 32
      → length pk + 10 < 2 ^ 32
      → md'.size < 2 ^ 32
      → Post
          (λ popped db'. (popped ≡ some element) × Committed 2 m' db db')
          (Halfway m pk)
          ((do Ops.delete pk; Ops.put key (encode_metadata md'); pure (some element)) db)
  take_element-Post db m m' key pk element md' r wf spare e k l s =
      Post-continue (λ _ db1. Holds (erase m pk) db db1) (λ db'. Refines db' m)
        (λ (popped : Option Bytes) db'. (popped ≡ some element) × Committed 2 m' db db')
        (Halfway m pk) _ _ (delete-Post db m r wf (omega (arith, spare)) pk l)
        (λ u db1 d.
          Post-return (λ db'. Committed 2 m' db db') (Halfway m pk) _ (some element)
            (Post-mono (λ _ db'. Holds (with_metadata (erase m pk) key md') db1 db')
              (λ _ db'. Committed 2 m' db db') (λ db'. Refines db' (erase m pk)) (Halfway m pk) _
              (put-Post db1 (erase m pk) d.refines d.wf (omega (arith, spare, d.next)) key
                (encode_metadata md') (metadata-IsStorable key md' k s))
              (λ _ db' h. record {
                refines = subst (Refines db') (sym e) h.refines;
                wf = h.wf;
                next = omega (arith, h.next, d.next);
              })
              (λ db' r. inr r)))
        (λ db1 r. inl r)

  -- Let a well-formed database with two file ids to spare hold a map in which a list with an
  -- element at one end stands at a key, where findMetadata finds its metadata, for a key that
  -- is not empty, with lengths that a header can hold. Then popInner at that end ends without a
  -- panic whatever the disk answers: it returns the element, and the rest of the list stands at
  -- the key, with the version and the expiry as they were and no other key changed; or it
  -- fails, and the database holds the map, or the map without the element while the metadata
  -- still counts it.
  pub pop_inner-Post :
      (db : Db ix) (m : Contents) (key element : Bytes) (md : Metadata) (xs : List Bytes)
      (is_left : Bool) (now version : ℕ)
      → Refines db m
      → IsWf db
      → active_id db.active_file + 2 < 2 ^ 32
      → (length key == 0) ≡ false
      → length key + 26 < 2 ^ 32
      → Finds m key list_type now version md
      → IsList m key md (pushed is_left element xs)
      → Post
          (λ popped db'.
            (popped ≡ some element)
            × After
                (λ c md'. IsList c key md' xs)
                m
                key
                (element_key key md (pop_index is_left md))
                md
                2
                db
                db')
          (Halfway m (element_key key md (pop_index is_left md)))
          (pop_inner key is_left now version db)
  unfolding pop_inner
  pop_inner-Post db m key element md xs is_left now version r wf spare k fits finds is =
      let i = pop_index is_left md in
      let pk = part_key key md.version (put_uint64 i) in
      let md' = popped_marks is_left (shrunk md) in
      let m' = without_element m key md' md.version i in
      let some_elements : (md.size == 0) ≡ false =
        ground (arith, is.size, length-pushed is_left element xs) in
      let found : Ops.get pk db ≡ ok element =
        rw
          (
            get-Refines db m pk r,
            some_part key md.version (put_uint64 i),
            pop_index-IsList m key element md xs is_left is,
          )
          refl in
      let popped : IsList m' key md' xs = pop-IsList m key element md xs is_left is in
      rw
        (
          find_metadata-Finds db m key list_type now version md r k finds,
          some_elements,
          element_key-part_key key md i,
          found,
        )
        (Post-mono (λ (popped : Option Bytes) db'. (popped ≡ some element) × Committed 2 m' db db')
          (λ (popped : Option Bytes) db'.
            (popped ≡ some element) × After (λ c md'. IsList c key md' xs) m key pk md 2 db db')
          (Halfway m pk) (Halfway m pk) _
          (take_element-Post db m m' key pk element md' r wf spare refl (omega (arith, fits))
            (part-IsStorable key (put_uint64 i) md.version [] (index-IsKeys key i k fits)
              (omega arith)).key_fits
            popped.fits.size)
          (λ taken db' (e, c). (
            e,
            record {
              contents = m';
              metadata = md';
              committed = c;
              holds = popped;
              version = version-popped is_left md;
              expire = expire-popped is_left md;
              rest = λ j a b. rw (a, b) refl;
            },
          ))
          (λ db' h. h))

  -- A pop from an empty list answers nil, and writes nothing.
  pub pop_inner-empty :
      (db : Db ix) (m : Contents) (key : Bytes) (md : Metadata) (is_left : Bool) (now version : ℕ)
      → Refines db m
      → (length key == 0) ≡ false
      → Finds m key list_type now version md
      → IsList m key md []
      → pop_inner key is_left now version db ≡ (db, ok none)
  unfolding pop_inner
  pop_inner-empty db m key md is_left now version r k finds is =
      rw (find_metadata-Finds db m key list_type now version md r k finds, is.size) refl
