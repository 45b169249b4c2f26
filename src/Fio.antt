-- ===== src/Fio.antt =====
-- fio/: files behind the IOManager interface, over a disk that an operation may find failing.
pub mod Laws
use bitcask_go.Common.{
  ℕ, ◌+◌, ◌≡◌, ◌↔◌, Bool, true, false, ◌&&◌, Option, none, some, List, [], ◌∷◌, ◌++◌, Bytes, length,
  take, drop, ltb, ◌==◌, if◌then◌else◌, arith,
}
use bitcask_go.Common.Eq.{Eq, ◌=?◌, bytes_beq, bytes_beq_iff}
use bitcask_go.Common.Assoc.{Assoc, lookup, insert, remove, lookup-insert}
use bitcask_go.Common.Result.{Res, ok, err, panicked, io_failed, eof}
use bitcask_go.Common.Exec.{Exec, ◌>>◌, pure}
use bitcask_go.Varint.{negative}

-- The files of a data directory; `data_file id` is the name that GetDataFileName gives, `lock_file`
-- the name flock, and `other_file` any other name that does not end in .data.
pub data FileName : Type 0 where
  data_file : ℕ → FileName
  hint_file merge_finished_file seq_no_file lock_file : FileName
  other_file : Bytes → FileName

abbrev pub name_beq : FileName → FileName → Bool
name_beq (data_file a) (data_file b) = a == b
name_beq hint_file hint_file = true
name_beq merge_finished_file merge_finished_file = true
name_beq seq_no_file seq_no_file = true
name_beq lock_file lock_file = true
name_beq (other_file a) (other_file b) = bytes_beq a b
name_beq _ _ = false

pub record FilePath : Type 0 where
  pub dir : Bytes
  pub name : FileName

abbrev pub path_beq : FilePath → FilePath → Bool
path_beq p q = bytes_beq p.dir q.dir && name_beq p.name q.name

pub name_beq_iff : (a b : FileName) → (name_beq a b ≡ true) ↔ (a ≡ b)
name_beq_iff (other_file a) (other_file b) = ground (arith, bytes_beq_iff a b)
name_beq_iff a b = ground arith

pub path_beq_iff : (p q : FilePath) → (path_beq p q ≡ true) ↔ (p ≡ q)
path_beq_iff p q = ground (arith, bytes_beq_iff p.dir q.dir, name_beq_iff p.name q.name)

instance abbrev pub path_eq : Eq FilePath
path_eq = record { beq = path_beq; beq_iff = path_beq_iff }

-- What the operating system answers to an open, a write or a sync: a write that fails may have
-- stored its first n bytes.
pub data Answer : Type 0 where
  done : Answer
  failed : ℕ → Answer

-- `answers` is what the calls to come will get; behind its end every call succeeds.
pub record Disk : Type 0 where
  pub files : Assoc FilePath Bytes
  pub answers : List Answer

abbrev pub or_empty : Option Bytes → Bytes
or_empty none = []
or_empty (some bs) = bs

-- A file that is not there has no bytes.
unfoldable pub contents : Disk → FilePath → Bytes
contents d p = or_empty (lookup p d.files)

unfoldable pub file_exists : Disk → FilePath → Bool
file_exists d p = elim (lookup p d.files) [ none ↦ false | some bs ↦ true ]

abbrev pub next_answer : List Answer → Answer
next_answer [] = done
next_answer (a ∷ rest) = a

abbrev pub later_answers : List Answer → List Answer
later_answers [] = []
later_answers (a ∷ rest) = rest

-- What a call does on either answer.
abbrev pub on_answer : {A : Type 0} → Answer → A → (ℕ → A) → A
on_answer done a b = a
on_answer (failed n) a b = b n

-- FileIOType
abbrev pub stander_fio : ℕ
stander_fio = 0

abbrev pub memory_map : ℕ
memory_map = 1

pub data IoKind : Type 0 where
  file_io mmap : IoKind

pub record IoManager : Type 0 where
  pub path : FilePath
  pub kind : IoKind

-- os.OpenFile with O_CREATE
unfoldable pub open_file : FilePath → Exec Disk (Unit {0})
open_file p d =
    let d' : Disk = record d { answers = later_answers d.answers } in
    on_answer (next_answer d.answers) (record d' { files = insert p (contents d p) d.files }, ok tt)
      (λ n. (d', err io_failed))

unfoldable pub new_file_io_manager : FilePath → Exec Disk IoManager
unfolding open_file
new_file_io_manager p = do open_file p; pure (record { path = p; kind = file_io })

-- The descriptor of the first open is not used; mmap.Open is a second one.
unfoldable pub new_mmap_io_manager : FilePath → Exec Disk IoManager
unfolding open_file
new_mmap_io_manager p = do open_file p; open_file p; pure (record { path = p; kind = mmap })

unfoldable pub new_io_manager : FilePath → ℕ → Exec Disk IoManager
unfolding new_file_io_manager new_mmap_io_manager
new_io_manager p io_type d =
    if io_type == stander_fio
    then new_file_io_manager p d
    else if io_type == memory_map
    then new_mmap_io_manager p d
    else (d, panicked)

-- os.File.Write on a file opened with O_APPEND
unfoldable pub write_file : FilePath → Bytes → Exec Disk ℕ
write_file p bs d =
    let d' : Disk = record d { answers = later_answers d.answers } in
    on_answer (next_answer d.answers)
      (record d' { files = insert p (contents d p ++ bs) d.files }, ok (length bs))
      (λ n. (record d' { files = insert p (contents d p ++ take n bs) d.files }, err io_failed))

-- FileIO.Write and MMap.Write
unfoldable pub write : IoManager → Bytes → Exec Disk ℕ
write m bs d = elim m.kind [ file_io ↦ write_file m.path bs d | mmap ↦ (d, panicked) ]

-- os.File.Sync: what was written is in `files` already
unfoldable pub sync_file : Exec Disk (Unit {0})
sync_file d =
    let d' : Disk = record d { answers = later_answers d.answers } in
    on_answer (next_answer d.answers) (d', ok tt) (λ n. (d', err io_failed))

-- FileIO.Sync and MMap.Sync
unfoldable pub sync : IoManager → Exec Disk (Unit {0})
sync m d = elim m.kind [ file_io ↦ sync_file d | mmap ↦ (d, panicked) ]

-- FileIO.Close and MMap.Close
unfoldable pub close : IoManager → Exec Disk (Unit {0})
unfolding sync_file
close m d = sync_file d

-- os.Remove
unfoldable pub remove_file : FilePath → Exec Disk (Unit {0})
remove_file p d =
    let d' : Disk = record d { answers = later_answers d.answers } in
    on_answer (next_answer d.answers) (record d' { files = remove p d.files }, ok tt)
      (λ n. (d', err io_failed))

-- FileIO.Size and MMap.Size
unfoldable pub size : IoManager → Disk → ℕ
size m d = length (contents d m.path)

-- FileIO.Read and MMap.Read into a buffer of n bytes: the buffer, if it was filled.
unfoldable pub read : IoManager → ℕ → ℕ → Disk → Res Bytes
read m n offset d =
    let bs = contents d m.path in
    if negative offset
    then err io_failed
    else if ltb (length bs) (offset + n) && ltb 0 n
    then err eof
    else ok (take n (drop offset bs))

pub contents-insert :
    (d : Disk) (p q : FilePath) (bs : Bytes) (answers : List Answer)
    → contents (record { files = insert p bs d.files; answers = answers }) q
      ≡ (if p =? q then bs else contents d q)
unfolding contents
contents-insert d p q bs answers = ground (arith, lookup-insert p q bs d.files)
