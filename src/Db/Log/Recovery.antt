-- ===== src/Db/Log/Recovery.antt =====
-- What recovery says of positions and of sequence numbers.
use bitcask_go.Common.{
  ℕ, ◌+◌, ◌<◌, ◌≡◌, Bool-cases, inl, inr, false, Option, none, some, List, [], ◌∷◌, ◌++◌, Bytes,
  All, All-snoc, ltb, ◌==◌, arith, if◌then◌else◌,
}
use bitcask_go.Common.Eq.{◌=?◌, bytes_eq}
use bitcask_go.Data.Record.{
  LogRecordPos, encode_log_record, log_record_deleted, log_record_txn_finished,
}
use bitcask_go.Batch.Key.{non_transaction_seq_no}
use bitcask_go.Db.Log.{
  Logged, to_record, Entry, Positions, apply_entry, apply_entries, Recovered, at_seq, recover_entry,
  recover, entries_from, all_entries,
}

-- A property of the positions of a log's entries holds of every position that is recovered.
module _ (P : LogRecordPos → Type 0) where
  abbrev pub Each : Option LogRecordPos → Type 0
  Each none = Unit
  Each (some pos) = P pos

  abbrev pub OfEntry : Entry → Type 0
  OfEntry (l, pos) = P pos

  pub record Everywhere (r : Recovered) : Type 0 where
    pub index : (k : Bytes) → Each (r.index k)
    pub waiting : (n : ℕ) → All OfEntry (r.waiting n)

  apply_entry-Each :
      (e : Entry) (at : Positions)
      → OfEntry e
      → ((k : Bytes) → Each (at k))
      → (k : Bytes) → Each (apply_entry e at k)
  apply_entry-Each (l, pos) at p h k = elim (Bool-cases (l.key =? k)) [
    | inl t ↦ elim (Bool-cases (l.type == log_record_deleted)) [
      | inl u ↦ rw (t, u) tt
      | inr u ↦ rw (t, u) p
    ]
    | inr t ↦ rw t (h k)
  ]

  apply_entries-Each :
      (es : List Entry) (at : Positions)
      → All OfEntry es
      → ((k : Bytes) → Each (at k))
      → (k : Bytes) → Each (apply_entries es at k)
  unfolding apply_entries
  apply_entries-Each [] at p h = h
  apply_entries-Each (e ∷ es) at p h =
      apply_entries-Each es (apply_entry e at) p.1 (apply_entry-Each e at p.0 h)

  waiting-Each :
      (n : ℕ) (es : List Entry) (r : Recovered)
      → All OfEntry es
      → Everywhere r
      → (j : ℕ) → All OfEntry (at_seq n es r.waiting j)
  waiting-Each n es r p h j = elim (Bool-cases (n == j)) [
    | inl t ↦ rw t p
    | inr t ↦ rw t (h.waiting j)
  ]

  recover_entry-Everywhere :
      (e : Entry) (r : Recovered) → OfEntry e → Everywhere r → Everywhere (recover_entry e r)
  unfolding recover_entry
  recover_entry-Everywhere (l, pos) r p h = elim (Bool-cases (l.seq_no == non_transaction_seq_no)) [
    | inl t ↦
        rw t (record { index = apply_entry-Each (l, pos) r.index p h.index; waiting = h.waiting })
    | inr t ↦ elim (Bool-cases (l.type == log_record_txn_finished)) [
      | inl u ↦
          rw (t, u)
            (record {
              index = apply_entries-Each (r.waiting l.seq_no) r.index (h.waiting l.seq_no) h.index;
              waiting = waiting-Each l.seq_no [] r tt h;
            })
      | inr u ↦
          rw (t, u)
            (record {
              index = h.index;
              waiting =
                  waiting-Each l.seq_no (r.waiting l.seq_no ++ (l, pos) ∷ []) r
                    (All-snoc OfEntry (r.waiting l.seq_no) (l, pos) (h.waiting l.seq_no) p) h;
            })
    ]
  ]

  pub recover-Everywhere :
      (es : List Entry) (r : Recovered) → All OfEntry es → Everywhere r → Everywhere (recover es r)
  unfolding recover
  recover-Everywhere [] r p h = h
  recover-Everywhere (e ∷ es) r p h =
      recover-Everywhere es (recover_entry e r) p.1 (recover_entry-Everywhere e r p.0 h)

-- The entries of a log lie in its files.
module _ (P : ℕ → Type 0) where
  abbrev pub InFile : LogRecordPos → Type 0
  InFile pos = P pos.fid

  All-join :
      (es fs : List Entry)
      → All (OfEntry InFile) es
      → All (OfEntry InFile) fs
      → All (OfEntry InFile) (es ++ fs)
  All-join [] fs p q = q
  All-join (e ∷ es) fs p q = (p.0, All-join es fs p.1 q)

  entries_from-InFile :
      (i offset : ℕ) (ls : List Logged) → P i → All (OfEntry InFile) (entries_from i offset ls)
  unfolding entries_from
  entries_from-InFile i offset [] p = tt
  entries_from-InFile i offset (l ∷ ls) p =
      (p, entries_from-InFile i (offset + (encode_log_record (to_record l)).1) ls p)

  pub all_entries-InFile :
      (records : ℕ → List Logged) (is : List ℕ)
      → All P is
      → All (OfEntry InFile) (all_entries records is)
  unfolding all_entries
  all_entries-InFile records [] p = tt
  all_entries-InFile records (i ∷ is) p =
      All-join (entries_from i 0 (records i)) (all_entries records is)
        (entries_from-InFile i 0 (records i) p.0) (all_entries-InFile records is p.1)

-- No transaction with a higher number than the recovered one waits.
abbrev pub IsQuiet : Recovered → Type 0
IsQuiet r = (n : ℕ) → r.seq_no < n → r.waiting n ≡ []

highest : (a b n : ℕ) → (if ltb a b then b else a) < n → (a < n) × (b < n)
highest a b n h = ground (arith, h)

recover_entry-IsQuiet : (e : Entry) (r : Recovered) → IsQuiet r → IsQuiet (recover_entry e r)
unfolding recover_entry
recover_entry-IsQuiet (l, pos) r q n = elim (Bool-cases (l.seq_no == non_transaction_seq_no)) [
  | inl t ↦ rw t (λ h. q n (highest r.seq_no l.seq_no n h).0)
  | inr t ↦ elim (Bool-cases (l.type == log_record_txn_finished)) [
    | inl u ↦ rw (t, u) (λ h. others [] (highest r.seq_no l.seq_no n h))
    | inr u ↦
        rw (t, u)
          (λ h. others (r.waiting l.seq_no ++ (l, pos) ∷ []) (highest r.seq_no l.seq_no n h))
  ]
]
  where
    others :
        (es : List Entry) → (r.seq_no < n) × (l.seq_no < n) → at_seq l.seq_no es r.waiting n ≡ []
    others es h = let apart : (l.seq_no == n) ≡ false = ground (arith, h.1) in rw apart (q n h.0)

pub recover-IsQuiet : (es : List Entry) (r : Recovered) → IsQuiet r → IsQuiet (recover es r)
unfolding recover
recover-IsQuiet [] r q = q
recover-IsQuiet (e ∷ es) r q = recover-IsQuiet es (recover_entry e r) (recover_entry-IsQuiet e r q)
