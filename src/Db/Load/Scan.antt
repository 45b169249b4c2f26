-- ===== src/Db/Load/Scan.antt =====
-- The loop over one data file reads the records that the file holds, in order, up to its end.
use bitcask_go.Common.{
  ℕ, zero, suc, ◌+◌, ◌%◌, ◌^◌, ◌<◌, ◌≡◌, refl, sym, ap, subst, ◌∙◌, Bool-cases, inl, inr, some,
  List, [], ◌∷◌, ◌++◌, Bytes, length, All, ◌==◌, length-append, append-nil, append_assoc, arith,
}
use bitcask_go.Common.Result.{ok, err, eof}
use bitcask_go.Varint.{u32}
use bitcask_go.Fio
use bitcask_go.Fio.{Disk, contents}
use bitcask_go.Data.Record.{
  LogRecord, LogRecordPos, TransactionRecord, log_record_deleted, log_record_txn_finished,
  encode_log_record, decode_log_record_header,
}
use bitcask_go.Data.Record.RoundTrip.{length-encode_log_record}
use bitcask_go.Data.File.{DataFile, read_log_record, read_after_header, header_bytes, read_n_bytes}
use bitcask_go.Data.File.Read.{read_log_record-append}
use bitcask_go.Index.{Indexer}
use bitcask_go.Batch.Key.{
  parse-log_record_key_with_seq, length-log_record_key_with_seq, non_transaction_seq_no,
}
use bitcask_go.Db.State.{Db}
use bitcask_go.Db.Load.{update_index}
use bitcask_go.Db.Load.Loop.{Loading, update_all, load_parsed, load_round, load_file}
use bitcask_go.Db.Log.{Logged, to_record, IsLogged, log_bytes, entries_from, Entry}

header_bytes-end : (n : ℕ) → n < 2 ^ 62 → header_bytes n n ≡ 0
unfolding header_bytes
header_bytes-end n h = ground arith

read_nothing :
    (f : DataFile) (offset : ℕ) (d : Disk) → offset < 2 ^ 62 → read_n_bytes f 0 offset d ≡ ok []
unfolding read_n_bytes Fio.read
read_nothing f offset d h = ground arith

-- Behind the last byte there is no record.
pub read_log_record-end :
    (f : DataFile) (d : Disk)
    → length (contents d f.io_manager.path) < 2 ^ 62
    → read_log_record f (length (contents d f.io_manager.path)) d ≡ err eof
unfolding read_log_record read_after_header Fio.size decode_log_record_header
read_log_record-end f d small = rw (
  header_bytes-end (length (contents d f.io_manager.path)) small,
  read_nothing f (length (contents d f.io_manager.path)) d small,
)

module _ {ix : Indexer} where
  -- the entries of a log, one after the other
  unfoldable pub load_entries : List Entry → Loading ix → Loading ix
  load_entries [] s = s
  load_entries ((l, pos) ∷ es) s = load_entries es (load_parsed (to_record l) pos l.key l.seq_no s)

  load_round-log :
      (file_id : ℕ) (f : DataFile) (l : Logged) (pre post : Bytes) (s : Loading ix)
      → contents s.db.disk f.io_manager.path ≡ pre ++ ((encode_log_record (to_record l)).0 ++ post)
      → IsLogged l
      → length (contents s.db.disk f.io_manager.path) < 2 ^ 62
      → load_round file_id f (length pre) s
        ≡ ok (
          load_parsed
              (to_record l)
              (record {
                fid = file_id;
                offset = length pre;
                size = u32 (encode_log_record (to_record l)).1;
              })
              l.key
              l.seq_no
              s,
          length pre + (encode_log_record (to_record l)).1,
        )
  unfolding load_round
  load_round-log file_id f l pre post s e h small =
      let some_key : 0 < length (to_record l).key =
        omega (arith, length-log_record_key_with_seq l.key l.seq_no) in
      let next : (length pre + (encode_log_record (to_record l)).1) % 2 ^ 64
          ≡ length pre + (encode_log_record (to_record l)).1 =
        omega (
          arith,
          ap length e,
          length-append pre ((encode_log_record (to_record l)).0 ++ post),
          length-append (encode_log_record (to_record l)).0 post,
          length-encode_log_record (to_record l),
          small,
        ) in
      rw (
        read_log_record-append f s.db.disk (to_record l) pre post e h.fit some_key small,
        parse-log_record_key_with_seq l.key l.seq_no h.seq_fits,
        next,
      )

  load_round-end :
      (file_id : ℕ) (f : DataFile) (s : Loading ix)
      → length (contents s.db.disk f.io_manager.path) < 2 ^ 62
      → load_round file_id f (length (contents s.db.disk f.io_manager.path)) s ≡ err eof
  unfolding load_round
  load_round-end file_id f s small = rw (read_log_record-end f s.db.disk small)

  update_index-disk :
      (key : Bytes) (type : ℕ) (pos : LogRecordPos) (db : Db ix)
      → (update_index key type pos db).disk ≡ db.disk
  unfolding update_index
  update_index-disk key type pos db = elim (Bool-cases (type == log_record_deleted)) [
    | inl t ↦ rw t
    | inr t ↦ rw t
  ]

  update_all-disk : (ts : List TransactionRecord) (db : Db ix) → (update_all ts db).disk ≡ db.disk
  unfolding update_all
  update_all-disk [] db = refl
  update_all-disk (t ∷ ts) db =
      update_all-disk ts (update_index t.record_of.key t.record_of.type t.pos db)
      ∙ update_index-disk t.record_of.key t.record_of.type t.pos db

  load_parsed-disk :
      (r : LogRecord) (pos : LogRecordPos) (key : Bytes) (seq_no : ℕ) (s : Loading ix)
      → (load_parsed r pos key seq_no s).db.disk ≡ s.db.disk
  unfolding load_parsed
  load_parsed-disk r pos key seq_no s = elim (Bool-cases (seq_no == non_transaction_seq_no)) [
    | inl t ↦ rw t (update_index-disk key r.type pos s.db)
    | inr t ↦ elim (Bool-cases (r.type == log_record_txn_finished)) [
      | inl u ↦ rw (t, u) (update_all-disk _ s.db)
      | inr u ↦ rw (t, u)
    ]
  ]

  -- The loop of loadIndexFromDataFiles over one file below 2 ^ 62 bytes, from an offset where
  -- encoded records stand up to the end of the file, ends within one round more than there are
  -- records, without an error, with every record taken in their order, and with the offset at
  -- the end of the file.
  pub load_file-log_bytes :
      (ls : List Logged) (fuel file_id : ℕ) (f : DataFile) (pre : Bytes) (s : Loading ix)
      → contents s.db.disk f.io_manager.path ≡ pre ++ log_bytes ls
      → All IsLogged ls
      → length (contents s.db.disk f.io_manager.path) < 2 ^ 62
      → length ls < fuel
      → load_file fuel file_id f (length pre) s
        ≡ some (
            ok (
              load_entries (entries_from file_id (length pre) ls) s,
              length pre + length (log_bytes ls),
            ))
  unfolding load_file log_bytes entries_from load_entries
  load_file-log_bytes ls zero file_id f pre s e h small hf = absurd (omega arith)
  load_file-log_bytes [] (suc fuel) file_id f pre s e h small hf =
      let all : contents s.db.disk f.io_manager.path ≡ pre = e ∙ append-nil pre in
      let done : load_round file_id f (length pre) s ≡ err eof =
        subst (λ (n : ℕ). load_round file_id f n s ≡ err eof) (ap length all)
          (load_round-end file_id f s small) in
      let len : length pre ≡ length pre + 0 = omega arith in
      rw done (ap (λ (n : ℕ). some (ok (s, n))) len)
  load_file-log_bytes (l ∷ ls) (suc fuel) file_id f pre s e h small hf =
      let bytes = (encode_log_record (to_record l)).0 in
      let pos : LogRecordPos = record {
        fid = file_id;
        offset = length pre;
        size = u32 (encode_log_record (to_record l)).1;
      } in
      let s' = load_parsed (to_record l) pos l.key l.seq_no s in
      let disk : s'.db.disk ≡ s.db.disk = load_parsed-disk (to_record l) pos l.key l.seq_no s in
      let same : contents s'.db.disk f.io_manager.path ≡ contents s.db.disk f.io_manager.path =
        ap (λ d. contents d f.io_manager.path) disk in
      let len : length (pre ++ bytes) ≡ length pre + (encode_log_record (to_record l)).1 =
        length-append pre bytes
        ∙ ap (λ (n : ℕ). length pre + n) (length-encode_log_record (to_record l)) in
      let split : contents s'.db.disk f.io_manager.path ≡ (pre ++ bytes) ++ log_bytes ls =
        same ∙ e ∙ sym (append_assoc pre bytes (log_bytes ls)) in
      let small' : length (contents s'.db.disk f.io_manager.path) < 2 ^ 62 =
        omega (arith, ap length same, small) in
      let rest : load_file fuel file_id f (length pre + (encode_log_record (to_record l)).1) s'
          ≡ some (
              ok (
                load_entries
                    (entries_from file_id (length pre + (encode_log_record (to_record l)).1) ls) s',
                length pre + (encode_log_record (to_record l)).1 + length (log_bytes ls),
              )) =
        subst
          (λ (n : ℕ).
            load_file fuel file_id f n s'
            ≡ some (ok (load_entries (entries_from file_id n ls) s', n + length (log_bytes ls))))
          len
          (load_file-log_bytes ls fuel file_id f (pre ++ bytes) s' split h.1 small'
            (omega arith)) in
      let total : length pre + (encode_log_record (to_record l)).1 + length (log_bytes ls)
          ≡ length pre + length (bytes ++ log_bytes ls) =
        omega (arith, length-append bytes (log_bytes ls), length-encode_log_record (to_record l)) in
      rw (load_round-log file_id f l pre (log_bytes ls) s e h.0 small) (
        rest
        ∙ ap
            (λ (n : ℕ). some (
              ok (
                load_entries
                    (entries_from file_id (length pre + (encode_log_record (to_record l)).1) ls) s',
                n,
              )))
            total)
