-- ===== src/Redis/Lists/Ends.antt =====
-- A list that stands at a key, with an element more or less at one end.
use bitcask_go.Common.{
  ℕ, ◌+◌, ◌-◌, ◌^◌, ◌≤◌, ◌<◌, ◌≡◌, ◌≢◌, refl, sym, subst, Bool, true, false, some, List, [], ◌∷◌,
  Bytes, length, length-append, arith,
}
use bitcask_go.Common.Eq.{bytes_eq, beq_self}
use bitcask_go.Varint.LittleEndian.{put_uint64}
use bitcask_go.Db.Refine.{Contents, update, erase}
use bitcask_go.Redis.Meta.{Metadata, list_type}
use bitcask_go.Redis.Meta.RoundTrip.{IsMetadata}
use bitcask_go.Redis.Part.{grown, shrunk}
use bitcask_go.Redis.Part.Stands.{part_key, key-part_key, part_key-key, with_metadata}
use bitcask_go.Redis.Lists.{
  next_mark, mark_before, pushed_marks, popped_marks, push_index, pop_index,
}
use bitcask_go.Redis.Lists.Run.{
  IsRun, index-beq, IsRun-same, IsRun-append, IsRun-split, IsList, IsRoomy, pushed,
}

-- The writes of a push and of a pop, at the metadata and the index k.
abbrev pub with_element : Contents → Bytes → Metadata → ℕ → ℕ → Bytes → Contents
with_element m key md' version k x =
    update (with_metadata m key md') (part_key key version (put_uint64 k)) x

abbrev pub without_element : Contents → Bytes → Metadata → ℕ → ℕ → Contents
without_element m key md' version k =
    with_metadata (erase m (part_key key version (put_uint64 k))) key md'

-- An index outside of a run is set or erased, and the metadata is set.
module _ (m : Contents) (key : Bytes) (md' : Metadata) (version i k : ℕ) (xs : List Bytes)
    (outside : (j : ℕ) → i ≤ j → j < i + length xs → k ≢ j) (fits : k < 2 ^ 64)
    (ends : i + length xs < 2 ^ 64) (r : IsRun m key version i xs) where
  IsRun-set : (x : Bytes) → IsRun (with_element m key md' version k x) key version i xs
  IsRun-set x =
      IsRun-same m (with_element m key md' version k x) key version i xs
        (λ j a b.
          rw
            (
              index-beq key version k j fits (omega (arith, b, ends)) (outside j a b),
              key-part_key key version (put_uint64 j),
            )
            refl)
        r

  IsRun-erase : IsRun (without_element m key md' version k) key version i xs
  IsRun-erase =
      IsRun-same m (without_element m key md' version k) key version i xs
        (λ j a b.
          rw
            (
              key-part_key key version (put_uint64 j),
              index-beq key version k j fits (omega (arith, b, ends)) (outside j a b),
            )
            refl)
        r

module _ (m : Contents) (key x : Bytes) (md : Metadata) (xs : List Bytes) where
  pushed-IsMetadata :
      (is_left : Bool)
      → IsMetadata md
      → md.data_type ≡ list_type
      → IsMetadata (pushed_marks is_left (grown md))
  pushed-IsMetadata true h t = record {
    expire = h.expire;
    version = h.version;
    size = omega arith;
    head = omega arith;
    tail = h.tail;
    unmarked = λ e. ground (arith, t);
  }
  pushed-IsMetadata false h t = record {
    expire = h.expire;
    version = h.version;
    size = omega arith;
    head = h.head;
    tail = omega arith;
    unmarked = λ e. ground (arith, t);
  }

  pub push-IsList :
      (is_left : Bool)
      → IsList m key md xs
      → IsRoomy md (length xs)
      → IsList
          (with_element m key
            (pushed_marks is_left (grown md))
            md.version
            (push_index is_left md)
            x)
          key
          (pushed_marks is_left (grown md))
          (pushed is_left x xs)
  push-IsList true h room =
      let before : mark_before md.head ≡ md.head - 1 = omega (arith, room.before, h.fits.head) in
      let start : mark_before md.head + 1 ≡ md.head = omega (arith, room.before, before) in
      record {
        fits = pushed-IsMetadata true h.fits h.typed;
        typed = h.typed;
        size = omega (arith, h.size, room.counted);
        marks = omega (arith, h.marks, start);
        stored = λ e. rw (part_key-key key md.version _, beq_self key) refl;
        run = (
          rw (beq_self (part_key key md.version (put_uint64 (mark_before md.head)))) refl,
          subst
              (λ t.
                IsRun
                  (with_element m key (pushed_marks true (grown md)) md.version
                    (mark_before md.head) x)
                  key md.version t xs)
              (sym start)
              (IsRun-set m key (pushed_marks true (grown md)) md.version md.head
                (mark_before md.head) xs (λ j a b. omega (arith, a, start)) (omega arith)
                (omega (arith, h.marks, room.after)) h.run x),
        );
      }
  push-IsList false h room =
      let end : next_mark md.tail ≡ md.tail + 1 = omega (arith, room.after) in
      record {
        fits = pushed-IsMetadata false h.fits h.typed;
        typed = h.typed;
        size = omega (arith, h.size, room.counted, length-append xs (x ∷ []));
        marks = omega (arith, h.marks, end, length-append xs (x ∷ []));
        stored = λ e. rw (part_key-key key md.version _, beq_self key) refl;
        run =
            IsRun-append (with_element m key (pushed_marks false (grown md)) md.version md.tail x)
              key md.version md.head xs (x ∷ [])
              (IsRun-set m key (pushed_marks false (grown md)) md.version md.head md.tail xs
                (λ j a b. omega (arith, b, h.marks)) (omega (arith, room.after))
                (omega (arith, h.marks, room.after)) h.run x)
              (subst
                (λ t.
                  IsRun (with_element m key (pushed_marks false (grown md)) md.version md.tail x)
                    key md.version t (x ∷ []))
                h.marks (rw (beq_self (part_key key md.version (put_uint64 md.tail))) refl, tt));
      }

  popped-IsMetadata :
      (is_left : Bool)
      → IsMetadata md
      → md.data_type ≡ list_type
      → IsMetadata (popped_marks is_left (shrunk md))
  popped-IsMetadata true h t = record {
    expire = h.expire;
    version = h.version;
    size = omega arith;
    head = omega arith;
    tail = h.tail;
    unmarked = λ e. ground (arith, t);
  }
  popped-IsMetadata false h t = record {
    expire = h.expire;
    version = h.version;
    size = omega arith;
    head = h.head;
    tail = omega arith;
    unmarked = λ e. ground (arith, t);
  }

  -- The element that was pushed last at this end stands at the index that is popped.
  pub pop_index-IsList :
      (is_left : Bool)
      → IsList m key md (pushed is_left x xs)
      → m (part_key key md.version (put_uint64 (pop_index is_left md))) ≡ some x
  pop_index-IsList true h = h.run.0
  pop_index-IsList false h =
      let last : mark_before md.tail ≡ md.head + length xs =
        omega (arith, h.marks, length-append xs (x ∷ []), h.fits.tail) in
      rw last ((IsRun-split m key md.version md.head xs (x ∷ []) h.run).1.0)

  pub pop-IsList :
      (is_left : Bool)
      → IsList m key md (pushed is_left x xs)
      → IsList
          (without_element m key
            (popped_marks is_left (shrunk md))
            md.version
            (pop_index is_left md))
          key
          (popped_marks is_left (shrunk md))
          xs
  pop-IsList true h =
      let start : next_mark md.head ≡ md.head + 1 = omega (arith, h.marks, h.fits.tail) in
      record {
        fits = popped-IsMetadata true h.fits h.typed;
        typed = h.typed;
        size = omega (arith, h.size, h.fits.size);
        marks = omega (arith, h.marks, start);
        stored = λ e. rw (beq_self key) refl;
        run =
            subst
              (λ t.
                IsRun (without_element m key (popped_marks true (shrunk md)) md.version md.head) key
                  md.version t xs)
              (sym start)
              (IsRun-erase m key (popped_marks true (shrunk md)) md.version (md.head + 1) md.head xs
                (λ j a b. omega (arith, a)) (omega (arith, h.marks, h.fits.tail))
                (omega (arith, h.marks, h.fits.tail)) h.run.1);
      }
  pop-IsList false h =
      let counted : md.tail ≡ md.head + length xs + 1 =
        omega (arith, h.marks, length-append xs (x ∷ [])) in
      let last : mark_before md.tail ≡ md.head + length xs = omega (arith, counted, h.fits.tail) in
      record {
        fits = popped-IsMetadata false h.fits h.typed;
        typed = h.typed;
        size = omega (arith, h.size, h.fits.size, length-append xs (x ∷ []));
        marks = last;
        stored = λ e. rw (beq_self key) refl;
        run =
            IsRun-erase m key (popped_marks false (shrunk md)) md.version md.head
              (mark_before md.tail) xs (λ j a b. omega (arith, b, last)) (omega arith)
              (omega (arith, counted, h.fits.tail))
              (IsRun-split m key md.version md.head xs (x ∷ []) h.run).0;
      }
