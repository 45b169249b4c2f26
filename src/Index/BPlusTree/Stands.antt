-- ===== src/Index/BPlusTree/Stands.antt =====
-- index/bptree.go: the index is a map from keys to positions.
use bitcask_go.Common.{
  ◌≡◌, refl, ap, subst, ◌∙◌, Bool, Bool-cases, inl, inr, true, false, Option, none, some, [], Bytes,
  length, ◌++◌, length-append, ◌==◌, if◌then◌else◌, arith,
}
use bitcask_go.Common.Eq.{◌=?◌, bytes_eq, bytes_beq_iff}
use bitcask_go.Common.Fuelled.{or_panic}
use bitcask_go.Common.Result.{Res, ok, panicked, ◌>>=◌}
use bitcask_go.Varint.{put_varint}
use bitcask_go.Varint.RoundTrip.{length-put_varint}
use bitcask_go.Data.Record.{LogRecordPos, encode_log_record_pos, decode_log_record_pos}
use bitcask_go.Data.Record.RoundTrip.{decode-encode_log_record_pos}
use bitcask_go.Index.{IsPos, is_some}
use bitcask_go.Index.BPlusTree.{Bbolt, IsBbolt, pos_of, old_pos, get, delete}

-- The bytes that stand for a position, or for none.
abbrev pub bytes_at : Option LogRecordPos → Bytes
bytes_at none = []
bytes_at (some pos) = encode_log_record_pos pos

-- The positions that a bucket holds are positions of the Go type.
abbrev pub IsPosOrNone : Option LogRecordPos → Type 0
IsPosOrNone none = Unit {0}
IsPosOrNone (some pos) = IsPos pos

length-encode_log_record_pos_ne :
    (pos : LogRecordPos) → (length (encode_log_record_pos pos) == 0) ≡ false
unfolding encode_log_record_pos
length-encode_log_record_pos_ne pos = ground (
  arith,
  length-append (put_varint pos.fid) (put_varint pos.offset ++ put_varint pos.size),
  length-put_varint pos.fid,
)

pos_of-bytes_at : (o : Option LogRecordPos) → IsPosOrNone o → pos_of (bytes_at o) ≡ ok o
unfolding pos_of
pos_of-bytes_at none h = refl
pos_of-bytes_at (some pos) h =
    rw (length-encode_log_record_pos_ne pos, decode-encode_log_record_pos pos h.fid h.offset h.size)
      refl

bytes_at-if :
    (b : Bool) (o p : Option LogRecordPos)
    → (if b then bytes_at o else bytes_at p) ≡ bytes_at (if b then o else p)
bytes_at-if true o p = refl
bytes_at-if false o p = refl

-- What is made of the old position when it is read from memory that shows these bytes: itself where
-- they are still its own, and whatever else they encode where the memory is used again.
abbrev pub read_again : Option LogRecordPos → Option Bytes → Res (Option LogRecordPos)
read_again none shown = ok none
read_again (some pos) (some bs) =
    if bs =? encode_log_record_pos pos
    then ok (some pos)
    else (do other ← decode_log_record_pos bs; ok (some other))
read_again (some pos) none = panicked

shown_pos : Option Bytes → Res (Option LogRecordPos)
shown_pos shown = do bs ← or_panic shown; pos ← decode_log_record_pos bs; ok (some pos)

shown_pos-read_again :
    (pos : LogRecordPos) (shown : Option Bytes)
    → IsPos pos
    → shown_pos shown ≡ read_again (some pos) shown
unfolding shown_pos
shown_pos-read_again pos (some bs) h = elim (Bool-cases (bs =? encode_log_record_pos pos)) [
  | inl t ↦
      rw
        (
          t,
          (bytes_beq_iff bs (encode_log_record_pos pos)).0 t,
          decode-encode_log_record_pos pos h.fid h.offset h.size,
        )
        refl
  | inr t ↦ rw t refl
]
shown_pos-read_again pos none h = refl

-- A key that is not there.
missing :
    (m : Bytes → Option LogRecordPos) (key j : Bytes)
    → m key ≡ none
    → m j ≡ (if key =? j then none else m j)
missing m key j e = elim (Bool-cases (key =? j)) [
  | inl t ↦ rw t (subst (λ (x : Bytes). m x ≡ none) ((bytes_beq_iff key j).0 t) e)
  | inr t ↦ rw t refl
]

abbrev pub found_again : Option LogRecordPos → Option Bytes → Res (Option LogRecordPos × Bool)
found_again o shown = read_again o shown >>= λ old. ok (old, is_some o)

module _ (bbolt : Bbolt) where
  -- The bucket holds the encoding of a position at every key of a map, and no other key.
  pub record StandsFor (t : bbolt.Bucket) (m : Bytes → Option LogRecordPos) : Type 0 where
    pub finds : (j : Bytes) → bbolt.find j t ≡ bytes_at (m j)
    pub positions : (j : Bytes) → IsPosOrNone (m j)

  pub get-StandsFor :
      (t : bbolt.Bucket) (m : Bytes → Option LogRecordPos) (key : Bytes)
      → StandsFor t m
      → get bbolt key t ≡ ok (m key)
  unfolding get
  get-StandsFor t m key h = rw (h.finds key) (pos_of-bytes_at (m key) (h.positions key))

  old_pos-read_again :
      (t t' : bbolt.Bucket) (m : Bytes → Option LogRecordPos) (key : Bytes)
      → StandsFor t m
      → old_pos bbolt key t t' ≡ read_again (m key) (bbolt.stale key t t')
  unfolding old_pos
  old_pos-read_again t t' m key h = at (m key) refl
    where
      at :
          (o : Option LogRecordPos)
          → m key ≡ o
          → old_pos bbolt key t t' ≡ read_again (m key) (bbolt.stale key t t')
      at none e = rw (h.finds key, e) refl
      at (some pos) e =
          let fits : IsPosOrNone (some pos) = subst IsPosOrNone e (h.positions key) in
          rw (h.finds key, e, length-encode_log_record_pos_ne pos)
            (unfold shown_pos in shown_pos-read_again pos (bbolt.stale key t t') fits)

  pub delete-StandsFor :
      (t : bbolt.Bucket) (m : Bytes → Option LogRecordPos) (key : Bytes)
      → IsBbolt bbolt
      → StandsFor t m
      → (t' : bbolt.Bucket) × ((delete bbolt key t
            ≡ (t', found_again (m key) (bbolt.stale key t t')))
          × StandsFor t' (λ j. if key =? j then none else m j))
  unfolding delete
  delete-StandsFor t m key laws h = at (m key) refl
    where
      at :
          (o : Option LogRecordPos)
          → m key ≡ o
          → (t' : bbolt.Bucket) × ((delete bbolt key t
                ≡ (t', found_again (m key) (bbolt.stale key t t')))
              × StandsFor t' (λ j. if key =? j then none else m j))
      at none e = (
        t,
        (
          rw
              (
                h.finds key,
                e,
                old_pos-read_again t t m key h
                    ∙ ap (λ (o : Option LogRecordPos). read_again o (bbolt.stale key t t)) e,
              )
              refl,
          record {
            finds = λ j. h.finds j ∙ ap bytes_at (missing m key j e);
            positions = λ j. elim (Bool-cases (key =? j)) [
              | inl t ↦ rw t tt
              | inr t ↦ rw t (h.positions j)
            ];
          },
        ),
      )
      at (some pos) e =
          let (t', (removed, finds)) = laws.removes key t in
          (
            t',
            (
              rw
                  (
                    h.finds key,
                    e,
                    length-encode_log_record_pos_ne pos,
                    removed,
                    old_pos-read_again t t' m key h
                        ∙ ap (λ (o : Option LogRecordPos). read_again o (bbolt.stale key t t')) e,
                  )
                  refl,
              record {
                finds = λ j.
                    finds j
                    ∙ ap (λ (v : Bytes). if key =? j then [] else v) (h.finds j)
                    ∙ bytes_at-if (key =? j) none (m j);
                positions = λ j. elim (Bool-cases (key =? j)) [
                  | inl t ↦ rw t tt
                  | inr t ↦ rw t (h.positions j)
                ];
              },
            ),
          )
