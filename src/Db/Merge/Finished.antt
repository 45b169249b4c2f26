-- ===== src/Db/Merge/Finished.antt =====
-- merge.go: getNonMergeFileId on the file of a finished merge, on a disk that answers every call.
use bitcask_go.Common.{
  ℕ, ◌%◌, ◌^◌, ◌<◌, ◌≡◌, refl, sym, ap, ◌∙◌, Bool-cases, inl, inr, false, some, [], Bytes, length,
  ◌==◌, arith, append-nil,
}
use bitcask_go.Common.Assoc.{Assoc, lookup, insert, lookup-insert}
use bitcask_go.Common.Eq.{◌=?◌, bytes_eq}
use bitcask_go.Common.Result.{ok}
use bitcask_go.Decimal.{atoi}
use bitcask_go.Fio.{
  Disk, FilePath, path_eq, path_beq_iff, contents, merge_finished_file, open_file, new_io_manager,
  new_file_io_manager, file_io,
}
use bitcask_go.Data.Record.{LogRecord, encode_log_record}
use bitcask_go.Data.Record.RoundTrip.{IsFit}
use bitcask_go.Data.File.{DataFile, read_log_record, new_datafile, open_merge_finished_file}
use bitcask_go.Data.File.Read.{read_log_record-append}
use bitcask_go.Index.{Indexer}
use bitcask_go.Db.State.{Db}
use bitcask_go.Db.Load.{get_non_merge_file_id}
use bitcask_go.Db.Append.Healthy.{IsHealthy}
use bitcask_go.Db.Merge.Moves.{path}

-- The file of a finished merge holds a record of the id n.
pub record HoldsId (d : Disk) (merge_path : Bytes) (n : ℕ) : Type 0 where
  pub kept : LogRecord
  pub fit : IsFit kept
  pub some_key : (length kept.key == 0) ≡ false
  pub is_there :
      lookup (path merge_path merge_finished_file) d.files ≡ some (encode_log_record kept).0
  pub small : length (encode_log_record kept).0 < 2 ^ 62
  pub number : atoi kept.value ≡ some n
  pub fits : n < 2 ^ 32

-- Opening a file that is there changes no file.
pub same_after_open :
    (p q : FilePath) (bs : Bytes) (files : Assoc FilePath Bytes)
    → lookup p files ≡ some bs
    → lookup q (insert p bs files) ≡ lookup q files
same_after_open p q bs files e = elim (Bool-cases (p =? q)) [
  | inl t ↦
      rw (lookup-insert p q bs files, t)
        (sym e ∙ ap (λ (x : FilePath). lookup x files) ((path_beq_iff p q).0 t))
  | inr t ↦ rw (lookup-insert p q bs files, t) refl
]

abbrev finished_path : Bytes → FilePath
finished_path merge_path = path merge_path merge_finished_file

abbrev finished_file : Bytes → DataFile
finished_file merge_path = record {
  file_id = 0;
  write_off = 0;
  io_manager = record { path = finished_path merge_path; kind = file_io };
}

-- The disk after the file was opened.
abbrev pub touched : Bytes → Disk → Disk
touched merge_path d = record d {
  files = insert (finished_path merge_path) (contents d (finished_path merge_path)) d.files;
}

open-touched :
    (merge_path : Bytes) (d : Disk)
    → IsHealthy d
    → open_merge_finished_file merge_path d ≡ (touched merge_path d, ok (finished_file merge_path))
unfolding open_merge_finished_file new_datafile new_io_manager new_file_io_manager open_file
open-touched merge_path d h = rw h refl

contents-there :
    (d : Disk) (p : FilePath) (bs : Bytes) → lookup p d.files ≡ some bs → contents d p ≡ bs
unfolding contents
contents-there d p bs e = rw e refl

module _ (merge_path : Bytes) (n : ℕ) (d : Disk) (holds : HoldsId d merge_path n) where
  pub lookup-touched : (q : FilePath) → lookup q (touched merge_path d).files ≡ lookup q d.files
  lookup-touched q =
      let p = finished_path merge_path in
      rw (contents-there d p (encode_log_record holds.kept).0 holds.is_there)
        (same_after_open p q (encode_log_record holds.kept).0 d.files holds.is_there)

  read_finished :
      read_log_record (finished_file merge_path) 0 (touched merge_path d)
      ≡ ok (holds.kept, (encode_log_record holds.kept).1)
  read_finished =
      let bs = (encode_log_record holds.kept).0 in
      let there : contents (touched merge_path d) (finished_path merge_path) ≡ bs =
        contents-there (touched merge_path d) (finished_path merge_path) bs
          (lookup-touched (finished_path merge_path) ∙ holds.is_there) in
      read_log_record-append (finished_file merge_path) (touched merge_path d) holds.kept [] []
        (there ∙ sym (append-nil bs)) holds.fit (ground (arith, holds.some_key))
        (omega (arith, ap length there, holds.small))

module _ {ix : Indexer} where
  -- getNonMergeFileId answers the id of the record.
  pub get_non_merge_file_id-HoldsId :
      (merge_path : Bytes) (n : ℕ) (db : Db ix)
      → IsHealthy db.disk
      → HoldsId db.disk merge_path n
      → get_non_merge_file_id merge_path db
        ≡ (record db { disk = touched merge_path db.disk }, ok n)
  unfolding get_non_merge_file_id
  get_non_merge_file_id-HoldsId merge_path n db h holds =
      let word : n % 2 ^ 32 ≡ n = omega (arith, holds.fits) in
      rw
        (
          open-touched merge_path db.disk h,
          read_finished merge_path n db.disk holds,
          holds.number,
          word,
        )
        refl
