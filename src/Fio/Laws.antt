-- ===== src/Fio/Laws.antt =====
-- What opening, writing and syncing a file does to the contents of every file.
use bitcask_go.Common.{ℕ, ◌≡◌, ◌≢◌, refl, List, ◌++◌, Bytes, length, take, arith}
use bitcask_go.Common.Eq.{beq_self, beq_ne}
use bitcask_go.Common.Assoc.{insert}
use bitcask_go.Common.Exec.Post.{Post}
use bitcask_go.Common.Result.{Res}
use bitcask_go.Fio.{
  on_answer, path_eq, Disk, Answer, done, failed, FilePath, path_beq_iff, contents, contents-insert,
  IoManager, next_answer, file_io, open_file, write_file, write, sync_file,
}

-- Writing back what is there changes nothing.
pub contents-insert_same :
    (d : Disk) (p q : FilePath) (answers : List Answer)
    → contents (record { files = insert p (contents d p) d.files; answers = answers }) q
      ≡ contents d q
contents-insert_same d p q answers =
    ground (arith, contents-insert d p q (contents d p) answers, path_beq_iff p q)

Post-on_answer :
    {S A : Type 0} (Q : A → S → Type 0) (E : S → Type 0) (a : Answer) (x : S × Res A)
    (f : ℕ → S × Res A)
    → Post Q E x
    → ((n : ℕ) → Post Q E (f n))
    → Post Q E (on_answer a x f)
Post-on_answer Q E done x f h k = h
Post-on_answer Q E (failed n) x f h k = k n

-- An open keeps every file's contents.
pub record SameContents (d d' : Disk) : Type 0 where
  pub at : (q : FilePath) → contents d' q ≡ contents d q

pub open_file-Post :
    (p : FilePath) (d : Disk)
    → Post (λ _ d'. SameContents d d') (λ d'. SameContents d d') (open_file p d)
unfolding open_file
open_file-Post p d =
    Post-on_answer (λ _ d'. SameContents d d') (λ d'. SameContents d d') (next_answer d.answers) _ _
      (record { at = λ q. contents-insert_same d p q _ })
      (λ n. record { at = λ q. unfold contents in refl })

pub sync_file-Post :
    (d : Disk) → Post (λ _ d'. SameContents d d') (λ d'. SameContents d d') (sync_file d)
unfolding sync_file
sync_file-Post d =
    Post-on_answer (λ _ d'. SameContents d d') (λ d'. SameContents d d') (next_answer d.answers) _ _
      (record { at = λ q. unfold contents in refl })
      (λ n. record { at = λ q. unfold contents in refl })

-- A file grew by `more`, and no other file changed.
pub record Grown (p : FilePath) (more : Bytes) (d d' : Disk) : Type 0 where
  pub at_path : contents d' p ≡ contents d p ++ more
  pub elsewhere : (q : FilePath) → p ≢ q → contents d' q ≡ contents d q

contents-insert-Grown :
    (p : FilePath) (more : Bytes) (d : Disk) (answers : List Answer)
    → Grown p more d (record { files = insert p (contents d p ++ more) d.files; answers = answers })
contents-insert-Grown p more d answers = record {
  at_path = rw (contents-insert d p p (contents d p ++ more) answers, beq_self p);
  elsewhere = λ q ne. rw (contents-insert d p q (contents d p ++ more) answers, beq_ne p q ne);
}

-- A failed write may have stored the first bytes.
pub write_file-Post :
    (p : FilePath) (bs : Bytes) (d : Disk)
    → Post
        (λ n d'. (n ≡ length bs) × Grown p bs d d')
        (λ d'. (n : ℕ) × Grown p (take n bs) d d')
        (write_file p bs d)
unfolding write_file
write_file-Post p bs d =
    Post-on_answer (λ n d'. (n ≡ length bs) × Grown p bs d d')
      (λ d'. (n : ℕ) × Grown p (take n bs) d d') (next_answer d.answers) _ _
      (refl, contents-insert-Grown p bs d _) (λ n. (n, contents-insert-Grown p (take n bs) d _))

-- Both kinds of IOManager read; only the standard one writes and syncs.
pub io_write-Post :
    (m : IoManager) (bs : Bytes) (d : Disk)
    → m.kind ≡ file_io
    → Post
        (λ n d'. (n ≡ length bs) × Grown m.path bs d d')
        (λ d'. (n : ℕ) × Grown m.path (take n bs) d d')
        (write m bs d)
unfolding write
io_write-Post m bs d k = rw k (write_file-Post m.path bs d)
