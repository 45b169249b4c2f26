-- ===== src/Db/Log/Grow.antt =====
-- A log that gets one more record, at the end of its last file or in a new one.
use bitcask_go.Common.{
  ℕ, ◌+◌, ◌<◌, ◌≡◌, refl, sym, ap, ◌∙◌, true, false, List, [], ◌∷◌, ◌++◌, Bytes, All, length,
  length-append, ◌==◌, append-nil, append_assoc, arith, if◌then◌else◌,
}
use bitcask_go.Varint.{u32}
use bitcask_go.Data.Record.{LogRecordPos, encode_log_record}
use bitcask_go.Data.Record.RoundTrip.{length-encode_log_record, encode_log_record_size}
use bitcask_go.Db.Log.{Logged, to_record, log_bytes, Entry, entries_from, all_entries}

pub log_bytes-snoc :
    (ls : List Logged) (l : Logged)
    → log_bytes (ls ++ l ∷ []) ≡ log_bytes ls ++ (encode_log_record (to_record l)).0
unfolding log_bytes
log_bytes-snoc [] l = append-nil _
log_bytes-snoc (k ∷ ls) l =
    ap (λ (t : Bytes). (encode_log_record (to_record k)).0 ++ t) (log_bytes-snoc ls l)
    ∙ sym (
        append_assoc (encode_log_record (to_record k)).0 (log_bytes ls)
          (encode_log_record (to_record l)).0)

-- A file with no bytes has no records.
pub log_bytes-empty : (ls : List Logged) → log_bytes ls ≡ [] → ls ≡ []
unfolding log_bytes
log_bytes-empty [] e = refl
log_bytes-empty (l ∷ ls) e = absurd (
    omega (
      arith,
      ap length e,
      length-append (encode_log_record (to_record l)).0 (log_bytes ls),
      length-encode_log_record (to_record l),
      encode_log_record_size (to_record l),
    ))

-- Where the next record of a file stands.
abbrev pub pos_behind : ℕ → ℕ → Logged → LogRecordPos
pos_behind file_id offset l = record {
  fid = file_id;
  offset = offset;
  size = u32 (encode_log_record (to_record l)).1;
}

abbrev one_entry : ℕ → ℕ → Logged → List Entry
one_entry i n l = (l, pos_behind i n l) ∷ []

pub entries_from-snoc :
    (i offset : ℕ) (ls : List Logged) (l : Logged)
    → entries_from i offset (ls ++ l ∷ [])
      ≡ entries_from i offset ls ++ (l, pos_behind i (offset + length (log_bytes ls)) l) ∷ []
unfolding entries_from log_bytes
entries_from-snoc i offset [] l = ap (λ (n : ℕ). one_entry i n l) (omega arith)
entries_from-snoc i offset (k ∷ ls) l =
    let size = (encode_log_record (to_record k)).1 in
    let end : offset + size + length (log_bytes ls)
        ≡ offset + length ((encode_log_record (to_record k)).0 ++ log_bytes ls) =
      omega (
        arith,
        length-append (encode_log_record (to_record k)).0 (log_bytes ls),
        length-encode_log_record (to_record k),
      ) in
    ap (λ (t : List Entry). (k, pos_behind i offset k) ∷ t)
      (entries_from-snoc i (offset + size) ls l
        ∙ ap (λ (n : ℕ). entries_from i (offset + size) ls ++ (l, pos_behind i n l) ∷ []) end)

pub all_entries-append :
    (records : ℕ → List Logged) (is js : List ℕ)
    → all_entries records (is ++ js) ≡ all_entries records is ++ all_entries records js
unfolding all_entries
all_entries-append records [] js = refl
all_entries-append records (i ∷ is) js =
    ap (λ (t : List Entry). entries_from i 0 (records i) ++ t) (all_entries-append records is js)
    ∙ sym (
        append_assoc (entries_from i 0 (records i)) (all_entries records is)
          (all_entries records js))

-- The records with one more in file i.
abbrev pub with_record : ℕ → Logged → (ℕ → List Logged) → ℕ → List Logged
with_record i l records j = if i == j then records j ++ l ∷ [] else records j

all_entries-with_record :
    (records : ℕ → List Logged) (i : ℕ) (l : Logged) (is : List ℕ)
    → All (λ j. j < i) is
    → all_entries (with_record i l records) is ≡ all_entries records is
unfolding all_entries
all_entries-with_record records i l [] h = refl
all_entries-with_record records i l (j ∷ js) h =
    let apart : (i == j) ≡ false = ground (arith, h.0) in
    rw apart (
      ap (λ (t : List Entry). entries_from j 0 (records j) ++ t)
        (all_entries-with_record records i l js h.1))

all_entries-last :
    (records : ℕ → List Logged) (i : ℕ) (l : Logged)
    → all_entries (with_record i l records) (i ∷ [])
      ≡ all_entries records (i ∷ []) ++ one_entry i (length (log_bytes (records i))) l
unfolding all_entries
all_entries-last records i l =
    let self : (i == i) ≡ true = ground arith in
    let behind : 0 + length (log_bytes (records i)) ≡ length (log_bytes (records i)) =
      omega arith in
    rw
      (
        self,
        append-nil (entries_from i 0 (records i ++ l ∷ [])),
        append-nil (entries_from i 0 (records i)),
      )
      (entries_from-snoc i 0 (records i) l
        ∙ ap (λ (n : ℕ). entries_from i 0 (records i) ++ one_entry i n l) behind)

-- All entries, and the new one behind them.
pub all_entries-grow :
    (records : ℕ → List Logged) (front : List ℕ) (i : ℕ) (l : Logged)
    → All (λ j. j < i) front
    → all_entries (with_record i l records) (front ++ i ∷ [])
      ≡ all_entries records (front ++ i ∷ [])
        ++ (l, pos_behind i (length (log_bytes (records i))) l) ∷ []
all_entries-grow records front i l h =
    let front_entries = all_entries records front in
    all_entries-append (with_record i l records) front (i ∷ [])
    ∙ ap (λ (t : List Entry). t ++ all_entries (with_record i l records) (i ∷ []))
        (all_entries-with_record records i l front h)
    ∙ ap (λ (t : List Entry). front_entries ++ t) (all_entries-last records i l)
    ∙ sym (
        append_assoc front_entries (all_entries records (i ∷ []))
          (one_entry i (length (log_bytes (records i))) l))
    ∙ ap (λ (t : List Entry). t ++ one_entry i (length (log_bytes (records i))) l)
        (sym (all_entries-append records front (i ∷ [])))
