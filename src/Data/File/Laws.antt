-- ===== src/Data/File/Laws.antt =====
-- Opening, writing and syncing a data file.
use bitcask_go.Common.{ℕ, ◌+◌, ◌%◌, ◌^◌, ◌≡◌, refl, Bytes, length, take, ap}
use bitcask_go.Common.Exec.Post.{Post, Post-continue}
use bitcask_go.Fio
use bitcask_go.Fio.{
  Disk, IoManager, file_io, mmap, open_file, new_io_manager, write_file, sync_file, stander_fio,
}
use bitcask_go.Fio.Laws.{SameContents, open_file-Post, sync_file-Post, Grown, io_write-Post}
use bitcask_go.Data.File.{DataFile, get_data_file_name, open_data_file, write, sync}

-- A data file as it is just after OpenDataFile.
abbrev pub opened : Bytes → ℕ → DataFile
opened dir id = record {
  file_id = id;
  write_off = 0;
  io_manager = record { path = get_data_file_name dir id; kind = file_io };
}

pub open_data_file-Post :
    (dir : Bytes) (id : ℕ) (d : Disk)
    → Post
        (λ f d'. (f ≡ opened dir id) × SameContents d d')
        (λ d'. SameContents d d')
        (open_data_file dir id stander_fio d)
unfolding open_data_file new_io_manager
open_data_file-Post dir id d =
    Post-continue (λ m d'. (m ≡ (opened dir id).io_manager) × SameContents d d')
      (λ d'. SameContents d d') (λ f d'. (f ≡ opened dir id) × SameContents d d')
      (λ d'. SameContents d d') _ _
      (Post-continue (λ _ d'. SameContents d d') (λ d'. SameContents d d')
        (λ m d'. (m ≡ (opened dir id).io_manager) × SameContents d d') (λ d'. SameContents d d') _ _
        (open_file-Post (get_data_file_name dir id) d) (λ _ d' h. (refl, h)) (λ d' h. h))
      (λ m d' h. (ap (λ (t : IoManager). opened_with t) h.0, h.1)) (λ d' h. h)
  where
    opened_with : IoManager → DataFile
    opened_with m = record { file_id = id; write_off = 0; io_manager = m }

abbrev pub advanced : DataFile → ℕ → DataFile
advanced f n = record f { write_off = (f.write_off + n) % 2 ^ 64 }

pub write-Post :
    (f : DataFile) (buf : Bytes) (d : Disk)
    → f.io_manager.kind ≡ file_io
    → Post
        (λ g d'. (g ≡ advanced f (length buf)) × Grown f.io_manager.path buf d d')
        (λ d'. (n : ℕ) × Grown f.io_manager.path (take n buf) d d')
        (write f buf d)
unfolding write
write-Post f buf d k =
    Post-continue (λ n d'. (n ≡ length buf) × Grown f.io_manager.path buf d d')
      (λ d'. (n : ℕ) × Grown f.io_manager.path (take n buf) d d')
      (λ g d'. (g ≡ advanced f (length buf)) × Grown f.io_manager.path buf d d')
      (λ d'. (n : ℕ) × Grown f.io_manager.path (take n buf) d d') _ _
      (io_write-Post f.io_manager buf d k) (λ n d' h. (ap (λ (t : ℕ). advanced f t) h.0, h.1))
      (λ d' h. h)

pub sync-Post :
    (f : DataFile) (d : Disk)
    → f.io_manager.kind ≡ file_io
    → Post (λ _ d'. SameContents d d') (λ d'. SameContents d d') (sync f d)
unfolding sync Fio.sync
sync-Post f d k = rw k (sync_file-Post d)
