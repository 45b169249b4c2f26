-- ===== src/Db/Append/Healthy.antt =====
-- appendLogRecord on a disk that answers every call: it returns.
use bitcask_go.Common.{
  ℕ, ◌+◌, ◌%◌, ◌^◌, ◌≡◌, refl, Bool-cases, inl, inr, Option, none, some, [], Bytes,
}
use bitcask_go.Common.Exec.Post.{Post, Post-continue, Post-mono}
use bitcask_go.Common.Result.{ok}
use bitcask_go.Varint.{signed_lt}
use bitcask_go.Fio.{
  Disk, FilePath, IoManager, file_io, stander_fio, open_file, write_file, sync_file,
  new_file_io_manager, new_io_manager,
}
use bitcask_go.Fio
use bitcask_go.Data.Record.{LogRecord, encode_log_record}
use bitcask_go.Data.File
use bitcask_go.Data.File.{DataFile, open_data_file, new_datafile}
use bitcask_go.Index.{Indexer}
use bitcask_go.Db.State.{Db, on_disk}
use bitcask_go.Db.Invariant.{Post-on_disk}
use bitcask_go.Db.Append.{
  next_file_id, need_sync, ensure_file, ensure_active_file, set_active_data_file, retire_file,
  rotate_file, rotate_active_file, write_active_file, count_and_sync, write_record,
  append_log_record,
}
use bitcask_go.Db.Append.Write.{Post-with_file}

-- No call is going to fail.
abbrev pub IsHealthy : Disk → Type 0
IsHealthy d = d.answers ≡ []

open_data_file-IsHealthy :
    (dir : Bytes) (id : ℕ) (d : Disk)
    → IsHealthy d
    → Post
        (λ f d'. (f.io_manager.kind ≡ file_io) × IsHealthy d')
        (λ _. ⊥)
        (open_data_file dir id stander_fio d)
unfolding open_data_file new_datafile new_io_manager new_file_io_manager open_file
open_data_file-IsHealthy dir id d h = rw h (refl, refl)

write-IsHealthy :
    (f : DataFile) (buf : Bytes) (d : Disk)
    → f.io_manager.kind ≡ file_io
    → IsHealthy d
    → Post (λ g d'. (g.io_manager.kind ≡ file_io) × IsHealthy d') (λ _. ⊥) (File.write f buf d)
unfolding File.write Fio.write write_file
write-IsHealthy f buf d k h = rw (k, h) (refl, refl)

sync-IsHealthy :
    (f : DataFile) (d : Disk)
    → f.io_manager.kind ≡ file_io
    → IsHealthy d
    → Post (λ _ d'. IsHealthy d') (λ _. ⊥) (File.sync f d)
unfolding File.sync Fio.sync sync_file
sync-IsHealthy f d k h = rw (k, h) refl

module _ {ix : Indexer} where
  -- There is an active file that can be written, and no call is going to fail.
  pub record Ready (db : Db ix) : Type 0 where
    pub file : DataFile
    pub is_active : db.active_file ≡ some file
    pub writable : file.io_manager.kind ≡ file_io
    pub healthy : IsHealthy db.disk

  set_active-Ready :
      (db : Db ix)
      → IsHealthy db.disk
      → Post (λ _ db'. Ready db') (λ _. ⊥) (set_active_data_file db)
  unfolding set_active_data_file
  set_active-Ready db h =
      Post-continue {B = Unit {0}}
        (λ (f : DataFile) db1. (f.io_manager.kind ≡ file_io) × IsHealthy db1.disk) (λ _. ⊥)
        (λ _ db'. Ready db') (λ _. ⊥)
        (on_disk (open_data_file db.options.dir_path (next_file_id db.active_file) stander_fio) db)
        (λ f db1. (record db1 { active_file = some f }, ok tt))
        (Post-on_disk (λ (f : DataFile) db1. (f.io_manager.kind ≡ file_io) × IsHealthy db1.disk)
          (λ _. ⊥) (open_data_file db.options.dir_path (next_file_id db.active_file) stander_fio) db
          (open_data_file-IsHealthy db.options.dir_path (next_file_id db.active_file) db.disk h))
        (λ f db1 q. record { file = f; is_active = refl; writable = q.0; healthy = q.1 }) (λ _ x. x)

  synced-Ready :
      (f : DataFile) (db : Db ix)
      → f.io_manager.kind ≡ file_io
      → IsHealthy db.disk
      → db.active_file ≡ some f
      → Post (λ _ db'. Ready db') (λ _. ⊥) (on_disk (File.sync f) db)
  synced-Ready f db k h e =
      Post-on_disk (λ _ db'. Ready db') (λ _. ⊥) (File.sync f) db
        (Post-mono (λ _ d. IsHealthy d) (λ _ d. Ready (record db { disk = d })) (λ _. ⊥) (λ _. ⊥) _
          (sync-IsHealthy f db.disk k h)
          (λ _ d q. record { file = f; is_active = e; writable = k; healthy = q }) (λ _ x. x))

  ensure_file-Ready :
      (active : Option DataFile) (db : Db ix)
      → db.active_file ≡ active
      → ((f : DataFile) → db.active_file ≡ some f → f.io_manager.kind ≡ file_io)
      → IsHealthy db.disk
      → Post (λ _ db'. Ready db') (λ _. ⊥) (ensure_file active db)
  ensure_file-Ready none db e w h = set_active-Ready db h
  ensure_file-Ready (some f) db e w h = record {
    file = f;
    is_active = e;
    writable = w f e;
    healthy = h;
  }

  rotate_file-Ready :
      (size : ℕ) (db : Db ix) (r : Ready db)
      → Post (λ _ db'. Ready db') (λ _. ⊥) (rotate_file size r.file db)
  unfolding rotate_file retire_file
  rotate_file-Ready size db r =
      elim (Bool-cases (signed_lt db.options.data_file_size ((r.file.write_off + size) % 2 ^ 64))) [
        | inl full ↦ rw full (
            Post-continue (λ _ db'. Ready db') (λ _. ⊥) (λ _ db'. Ready db') (λ _. ⊥) _ _
              (synced-Ready r.file db r.writable r.healthy r.is_active)
              (λ _ db1 q. set_active-Ready _ q.healthy) (λ _ x. x))
        | inr room ↦ rw room r
      ]

  write_active-Ready :
      (buf : Bytes) (db : Db ix)
      → Ready db
      → Post (λ _ db'. Ready db') (λ _. ⊥) (write_active_file buf db)
  unfolding write_active_file
  write_active-Ready buf db r =
      Post-with_file (λ _ db'. Ready db') (λ _. ⊥) _ db db.active_file r.file r.is_active
        (Post-continue (λ (f : DataFile) db1. (f.io_manager.kind ≡ file_io) × IsHealthy db1.disk)
          (λ _. ⊥) (λ _ db'. Ready db') (λ _. ⊥) _ _
          (Post-on_disk (λ (f : DataFile) db1. (f.io_manager.kind ≡ file_io) × IsHealthy db1.disk)
            (λ _. ⊥) (File.write r.file buf) db
            (write-IsHealthy r.file buf db.disk r.writable r.healthy))
          (λ f db1 q. record { file = f; is_active = refl; writable = q.0; healthy = q.1 })
          (λ _ x. x))

  count_and_sync-Ready :
      (size : ℕ) (db : Db ix)
      → Ready db
      → Post (λ _ db'. Ready db') (λ _. ⊥) (count_and_sync size db)
  unfolding count_and_sync
  count_and_sync-Ready size db r =
      let counted : Db ix = record db { bytes_write = (db.bytes_write + size) % 2 ^ 64 } in
      elim (Bool-cases (need_sync counted.options counted.bytes_write)) [
        | inl t ↦ rw t (
            Post-continue (λ _ db'. Ready db') (λ _. ⊥) (λ _ db'. Ready db') (λ _. ⊥) _ _
              (Post-with_file (λ _ db'. Ready db') (λ _. ⊥) _ counted counted.active_file r.file
                r.is_active (synced-Ready r.file counted r.writable r.healthy r.is_active))
              (λ _ db1 q. recounted db1 0 q) (λ _ x. x))
        | inr t ↦ rw t (recounted db _ r)
      ]
    where
      recounted : (db1 : Db ix) (n : ℕ) → Ready db1 → Ready (record db1 { bytes_write = n })
      recounted db1 n q = record {
        file = q.file;
        is_active = q.is_active;
        writable = q.writable;
        healthy = q.healthy;
      }

  write_record-Ready :
      (r : LogRecord) (db : Db ix)
      → Ready db
      → Post (λ _ db'. Ready db') (λ _. ⊥) (write_record r db)
  unfolding write_record
  write_record-Ready r db q =
      Post-with_file (λ _ db'. Ready db') (λ _. ⊥) _ db db.active_file q.file q.is_active
        (Post-continue (λ _ db'. Ready db') (λ _. ⊥) (λ _ db'. Ready db') (λ _. ⊥) _ _
          (write_active-Ready (encode_log_record r).0 db q)
          (λ _ db1 q1.
            Post-continue (λ _ db'. Ready db') (λ _. ⊥) (λ _ db'. Ready db') (λ _. ⊥) _ _
              (count_and_sync-Ready (encode_log_record r).1 db1 q1)
              (λ _ db2 q2.
                Post-with_file (λ _ db'. Ready db') (λ _. ⊥) _ db2 db2.active_file q2.file
                  q2.is_active q2)
              (λ _ x. x))
          (λ _ x. x))

  -- On a disk that answers every call, a record is appended: no error is returned.
  pub append_log_record-Ready :
      (r : LogRecord) (db : Db ix)
      → ((f : DataFile) → db.active_file ≡ some f → f.io_manager.kind ≡ file_io)
      → IsHealthy db.disk
      → Post (λ _ db'. Ready db') (λ _. ⊥) (append_log_record r db)
  unfolding append_log_record ensure_active_file rotate_active_file
  append_log_record-Ready r db w h =
      Post-continue (λ _ db'. Ready db') (λ _. ⊥) (λ _ db'. Ready db') (λ _. ⊥) _ _
        (ensure_file-Ready db.active_file db refl w h)
        (λ _ db1 q.
          Post-continue (λ _ db'. Ready db') (λ _. ⊥) (λ _ db'. Ready db') (λ _. ⊥) _ _
            (Post-with_file (λ _ db'. Ready db') (λ _. ⊥) _ db1 db1.active_file q.file q.is_active
              (rotate_file-Ready (encode_log_record r).1 db1 q))
            (λ _ db2 q2. write_record-Ready r db2 q2) (λ _ x. x))
        (λ _ x. x)
