-- ===== src/Tests/Ranges.antt =====
-- One order in which the loops of a batch can range over its pending writes.
use bitcask_go.Common.{
  suc, ◌≤◌, ◌≡◌, refl, sym, ap, ◌∙◌, Bool-cases, inl, inr, none, some, List, [], ◌∷◌, Bytes, length,
  arith,
}
use bitcask_go.Common.Assoc.{Assoc, lookup, remove, lookup-remove}
use bitcask_go.Common.Assoc.Size.{IsMap, remove-IsMap, length-remove}
use bitcask_go.Common.Eq.{◌=?◌, bytes_eq, bytes_beq_iff, beq_self}
use bitcask_go.Data.Record.{LogRecord}
use bitcask_go.Batch.{WriteBatch}
use bitcask_go.Batch.Append.{record_at, Distinct}
use bitcask_go.Batch.Ranging.{Ranging, IsRange, IsRanging}

-- The entries that a lookup finds.
abbrev found : Assoc Bytes LogRecord → Assoc Bytes LogRecord
found [] = []
found ((k, r) ∷ m) = (k, r) ∷ remove k (found m)

abbrev records : Assoc Bytes LogRecord → List LogRecord
records [] = []
records ((k, r) ∷ m) = r ∷ records m

abbrev Keyed : Assoc Bytes LogRecord → Type 0
Keyed m = (k : Bytes) (r : LogRecord) → lookup k m ≡ some r → r.key ≡ k

found-IsMap : (m : Assoc Bytes LogRecord) → IsMap (found m)
found-IsMap [] = tt
found-IsMap ((k, r) ∷ m) =
    (rw (beq_self k) at (lookup-remove k k (found m)), remove-IsMap k (found m) (found-IsMap m))

lookup-found : (k : Bytes) (m : Assoc Bytes LogRecord) → lookup k (found m) ≡ lookup k m
unfolding lookup
lookup-found k [] = refl
lookup-found k ((j, r) ∷ m) = elim (Bool-cases (j =? k)) [
  | inl t ↦ rw t refl
  | inr t ↦ rw (lookup-remove j k (found m), t) (lookup-found k m)
]

length-remove_le :
    (k : Bytes) (m : Assoc Bytes LogRecord) → IsMap m → length (remove k m) ≤ length m
length-remove_le k m h = omega (arith, length-remove k m h)

length-found : (m : Assoc Bytes LogRecord) → length (found m) ≤ length m
length-found [] = omega arith
length-found ((k, r) ∷ m) =
    omega (arith, length-found m, length-remove_le k (found m) (found-IsMap m))

length-records : (m : Assoc Bytes LogRecord) → length (records m) ≡ length m
length-records [] = refl
length-records ((k, r) ∷ m) = ap suc (length-records m)

Keyed-rest :
    (k : Bytes) (r : LogRecord) (m : Assoc Bytes LogRecord)
    → lookup k m ≡ none
    → Keyed ((k, r) ∷ m)
    → Keyed m
unfolding lookup
Keyed-rest k r m absent h j s e = elim (Bool-cases (k =? j)) [
  | inl t ↦ cc (sym absent ∙ ap (λ (x : Bytes). lookup x m) ((bytes_beq_iff k j).0 t) ∙ e)
  | inr t ↦ h j s (rw t e)
]

record_at-records :
    (k : Bytes) (m : Assoc Bytes LogRecord)
    → IsMap m
    → Keyed m
    → record_at k (records m) ≡ lookup k m
unfolding lookup record_at
record_at-records k [] is h = refl
record_at-records k ((j, r) ∷ m) is h =
    let key : r.key ≡ j = h j r (rw (beq_self j) refl) in
    rw (key, record_at-records k m is.1 (Keyed-rest j r m is.0 h)) refl

records-Distinct : (m : Assoc Bytes LogRecord) → IsMap m → Keyed m → Distinct (records m)
unfolding lookup
records-Distinct [] is h = tt
records-Distinct ((j, r) ∷ m) is h =
    let key : r.key ≡ j = h j r (rw (beq_self j) refl) in
    let rest = Keyed-rest j r m is.0 h in
    (rw key (record_at-records j m is.1 rest ∙ is.0), records-Distinct m is.1 rest)

abbrev once : WriteBatch → List LogRecord
once wb = records (found wb.pending_writes)

once-IsRange : IsRange once
once-IsRange = record {
  ranges = λ wb h.
      let keyed : Keyed (found wb.pending_writes) =
        λ k r e. h k r (sym (lookup-found k wb.pending_writes) ∙ e) in
      record {
        same = λ k.
            record_at-records k (found wb.pending_writes) (found-IsMap wb.pending_writes) keyed
            ∙ lookup-found k wb.pending_writes;
        distinct = records-Distinct (found wb.pending_writes) (found-IsMap wb.pending_writes) keyed;
      };
  bounded =
      λ wb. omega (arith, length-records (found wb.pending_writes), length-found wb.pending_writes);
}

abbrev pub ranging : Ranging
ranging = record { log_order = once; index_order = once }

pub ranging-IsRanging : IsRanging ranging
ranging-IsRanging = record { log = once-IsRange; index = once-IsRange }
