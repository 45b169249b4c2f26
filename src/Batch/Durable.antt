-- ===== src/Batch/Durable.antt =====
-- batch.go: what Commit adds to the log in the data files. The records of a transaction wait in the
-- log until the record of its end.
pub mod Publish
pub mod Commit
pub mod Whole
use bitcask_go.Common.{
  ℕ, ◌+◌, ◌≤◌, ◌<◌, ◌^◌, ◌≡◌, ◌≢◌, ◌⊎◌, refl, sym, ap, subst, ◌∙◌, Bool-cases, inl, inr, true,
  false, Option, none, some, List, [], ◌∷◌, ◌++◌, Bytes, length, All, arith, ◌==◌, append-nil,
  append_assoc, if◌then◌else◌,
}
use bitcask_go.Common.Assoc.{Assoc, lookup, insert, lookup-insert}
use bitcask_go.Common.Eq.{◌=?◌, bytes_eq, bytes_beq_iff}
use bitcask_go.Common.Exec.Post.{Post, Post-continue, Post-mono}
use bitcask_go.Data.Record.{
  LogRecord, LogRecordPos, log_record_normal, log_record_deleted, log_record_txn_finished,
}
use bitcask_go.Index.{Indexer}
use bitcask_go.Batch.Key.{non_transaction_seq_no}
use bitcask_go.Batch.{with_seq, write_all}
use bitcask_go.Batch.Append.{IsPending, record_at, Distinct, record_at-none, with_seq-IsFit}
use bitcask_go.Db.State.{Db}
use bitcask_go.Db.Invariant.{IsWf, Extends, Extends-refl, Extends-trans, active_id}
use bitcask_go.Db.Append.Whole.{Appended, append_log_record-Post}
use bitcask_go.Db.Refine.Writes.{encode_log_record_size-lt}
use bitcask_go.Db.Log.{
  Logged, to_record, IsLogged, Entry, Positions, apply_entry, apply_entries, Recovered, at_seq,
  recover_entry,
}
use bitcask_go.Db.Durable.{HasLog, Appended-HasLog}
use bitcask_go.Db.Durable.Methods.{recovered, recovered-snoc}

-- A pending record in the log.
abbrev pub part : ℕ → LogRecord → Logged
part s r = record { key = r.key; seq_no = s; value = r.value; type = r.type }

-- What a key gets from a pending record and the position of its value.
abbrev pub chosen :
    Option LogRecord → Option LogRecordPos → Option LogRecordPos → Option LogRecordPos
chosen none p old = old
chosen (some r) p old = if r.type == log_record_normal then p else none

-- The entry of a pending record changes nothing yet.
record Waiting (s : ℕ) (e : Entry) (r r' : Recovered) : Type 0 where
  index : r'.index ≡ r.index
  waits : r'.waiting s ≡ r.waiting s ++ e ∷ []
  apart : (n : ℕ) → (s == n) ≡ false → r'.waiting n ≡ r.waiting n

part-Waiting :
    (s : ℕ) (r : LogRecord) (pos : LogRecordPos) (q : Recovered)
    → 0 < s
    → IsPending r
    → Waiting s (part s r, pos) q (recover_entry (part s r, pos) q)
unfolding recover_entry
part-Waiting s r pos q h pending =
    let own : (s == non_transaction_seq_no) ≡ false = ground (arith, h) in
    let unfinished : (r.type == log_record_txn_finished) ≡ false = ground (arith, pending.type) in
    let self : (s == s) ≡ true = ground arith in
    rw (own, unfinished) (record { index = refl; waits = rw self refl; apart = λ n t. rw t refl })

-- One more record in front.
applied-cons :
    (s : ℕ) (r : LogRecord) (rs : List LogRecord) (pos : LogRecordPos)
    (before positions : Assoc Bytes LogRecordPos) (parts : List Entry)
    → IsPending r
    → record_at r.key rs ≡ none
    → ((k : Bytes)
        → record_at k rs ≡ none
        → lookup k positions ≡ lookup k (insert r.key pos before))
    → ((at : Positions) (k : Bytes)
        → apply_entries parts at k ≡ chosen (record_at k rs) (lookup k positions) (at k))
    → (at : Positions) (k : Bytes)
    → apply_entries ((part s r, pos) ∷ parts) at k
      ≡ chosen (record_at k (r ∷ rs)) (lookup k positions) (at k)
unfolding apply_entries record_at
applied-cons s r rs pos before positions parts pending fresh others rest at k =
    rest (apply_entry (part s r, pos) at) k ∙ elim (Bool-cases (r.key =? k)) [
      | inl t ↦
          let gone : record_at k rs ≡ none =
            subst (λ u. record_at u rs ≡ none) ((bytes_beq_iff r.key k).0 t) fresh in
          let there : lookup k positions ≡ some pos =
            others k gone ∙ lookup-insert r.key k pos before ∙ rw t refl in
          elim pending.type [
            | inl normal ↦ rw (gone, there, t, normal) refl
            | inr deletion ↦ rw (gone, there, t, deletion) refl
          ]
      | inr t ↦ rw t refl
    ]

module _ {ix : Indexer} where
  -- What the first loop of Commit leaves behind.
  pub record Written (s : ℕ) (rs : List LogRecord) (before : Assoc Bytes LogRecordPos) (db : Db ix)
      (log : List Entry) (positions : Assoc Bytes LogRecordPos) (db' : Db ix) : Type 0 where
    pub log' : List Entry
    pub has_log : HasLog db' log'
    pub index : (recovered log').index ≡ (recovered log).index
    pub parts : List Entry
    pub waits : (recovered log').waiting s ≡ (recovered log).waiting s ++ parts
    pub apart : (n : ℕ) → (s == n) ≡ false → (recovered log').waiting n ≡ (recovered log).waiting n
    pub applied :
        (at : Positions) (k : Bytes)
        → apply_entries parts at k ≡ chosen (record_at k rs) (lookup k positions) (at k)
    pub others : (k : Bytes) → record_at k rs ≡ none → lookup k positions ≡ lookup k before
    pub extends : Extends db db'
    pub wf : IsWf db'
    pub next : active_id db'.active_file ≤ active_id db.active_file + length rs

  Written-cons :
      (s : ℕ) (r : LogRecord) (rs : List LogRecord) (before : Assoc Bytes LogRecordPos)
      (log : List Entry) {db db1 db2 : Db ix} {pos : LogRecordPos}
      {positions : Assoc Bytes LogRecordPos}
      → 0 < s
      → IsPending r
      → record_at r.key rs ≡ none
      → Appended (with_seq s r) db pos db1
      → Written s rs (insert r.key pos before) db1 (log ++ (part s r, pos) ∷ []) positions db2
      → Written s (r ∷ rs) before db log positions db2
  Written-cons s r rs before log {db} {db1} {db2} {pos} {positions} h pending fresh a w =
      let e : Entry = (part s r, pos) in
      let one : Waiting s e (recovered log) (recovered (log ++ e ∷ [])) =
        subst (λ (q : Recovered). Waiting s e (recovered log) q) (sym (recovered-snoc log e))
          (part-Waiting s r pos (recovered log) h pending) in
      record {
        log' = w.log';
        has_log = w.has_log;
        index = w.index ∙ one.index;
        parts = e ∷ w.parts;
        waits =
            w.waits
            ∙ ap (λ (t : List Entry). t ++ w.parts) one.waits
            ∙ append_assoc ((recovered log).waiting s) (e ∷ []) w.parts;
        apart = λ n t. w.apart n t ∙ one.apart n t;
        applied = applied-cons s r rs pos before positions w.parts pending fresh w.others w.applied;
        others = λ k t.
            let split = record_at-none k r rs t in
            w.others k split.1 ∙ lookup-insert r.key k pos before ∙ rw (split.0) refl;
        extends = Extends-trans a.extends w.extends;
        wf = w.wf;
        next = omega (arith, a.next, w.next);
      }

  pub write_all-Written :
      (s : ℕ) (rs : List LogRecord) (before : Assoc Bytes LogRecordPos) (db : Db ix)
      (log : List Entry)
      → 0 < s
      → s < 2 ^ 64
      → All IsPending rs
      → Distinct rs
      → HasLog db log
      → IsWf db
      → active_id db.active_file + length rs < 2 ^ 32
      → Post
          (λ positions db'. Written s rs before db log positions db')
          (λ _. Unit {0})
          (write_all s rs before db)
  unfolding write_all
  write_all-Written s [] before db log h h' pending distinct has_log wf spare = record {
    log' = log;
    has_log = has_log;
    index = refl;
    parts = [];
    waits = sym (append-nil _);
    apart = λ n t. refl;
    applied = λ at k. unfold apply_entries record_at in refl;
    others = λ k t. refl;
    extends = Extends-refl db;
    wf = wf;
    next = omega arith;
  }
  write_all-Written s (r ∷ rs) before db log h h' pending distinct has_log wf spare =
      let fits = with_seq-IsFit s r pending.0 in
      Post-continue (λ pos db1. Appended (with_seq s r) db pos db1) (λ db1. Extends db db1)
        (λ positions db'. Written s (r ∷ rs) before db log positions db') (λ _. Unit {0}) _ _
        (append_log_record-Post (with_seq s r) db wf (omega (arith, spare))
          (encode_log_record_size-lt (with_seq s r) fits))
        (λ pos db1 a.
          Post-mono
            (λ positions db'.
              Written s rs (insert r.key pos before) db1 (log ++ (part s r, pos) ∷ []) positions
                db')
            (λ positions db'. Written s (r ∷ rs) before db log positions db') (λ _. Unit {0})
            (λ _. Unit {0}) _
            (write_all-Written s rs (insert r.key pos before) db1 (log ++ (part s r, pos) ∷ []) h h'
              pending.1 distinct.1
              (Appended-HasLog db db1 log (part s r) pos has_log
                (record { seq_fits = h'; fit = fits }) wf a)
              a.wf (omega (arith, a.next, spare)))
            (λ positions db2 w. Written-cons s r rs before log h pending.0 distinct.0 a w)
            (λ _ x. x))
        (λ _ _. tt)
