-- ===== src/Db/Merge/Moves.antt =====
-- merge.go: the loops that remove and move files, on a disk that answers every call.
use bitcask_go.Common.{
  ℕ, zero, suc, ◌+◌, ◌≡◌, refl, sym, ap, ◌∙◌, Bool, Bool-cases, inl, inr, true, false, ◌&&◌, ◌||◌,
  Option, none, some, List, [], ◌∷◌, All, Bytes, ltb, leb, if◌then◌else◌, arith,
}
use bitcask_go.Common.Assoc.{lookup, insert, remove, lookup-insert, lookup-remove}
use bitcask_go.Common.Assoc.Size.{present}
use bitcask_go.Common.Eq.{◌=?◌, bytes_eq, beq_self}
use bitcask_go.Common.Result.{ok}
use bitcask_go.Fio.{
  Disk, FilePath, FileName, data_file, hint_file, merge_finished_file, name_beq, name_beq_iff,
  path_eq, path_beq_iff, remove_file, seq_no_file, lock_file, other_file,
}
use bitcask_go.Data.File.{get_data_file_name}
use bitcask_go.Db.Append.Healthy.{IsHealthy}
use bitcask_go.Db.Merge.{has_name, rename_file, remove_there, remove_old, move_files}

-- A data file with an id from i on, below i + n.
abbrev pub is_old : ℕ → ℕ → FileName → Bool
is_old i n (data_file j) = leb i j && ltb j (i + n)
is_old i n name = false

-- A disk that answers every call has these files.
pub record HasFiles (d : Disk) (file : FilePath → Option Bytes) : Type 0 where
  pub healthy : IsHealthy d
  pub at : (q : FilePath) → lookup q d.files ≡ file q

abbrev pub is_old_path : Bytes → ℕ → ℕ → FilePath → Bool
is_old_path dir i n q = (dir =? q.dir) && is_old i n q.name

is_old-suc :
    (i n : ℕ) (name : FileName)
    → is_old i (suc n) name ≡ (is_old (i + 1) n name || name_beq (data_file i) name)
is_old-suc i n (data_file j) = ground arith
is_old-suc i n hint_file = refl
is_old-suc i n merge_finished_file = refl
is_old-suc i n seq_no_file = refl
is_old-suc i n lock_file = refl
is_old-suc i n (other_file name) = refl

is_old-zero : (i : ℕ) (name : FileName) → is_old i 0 name ≡ false
is_old-zero i (data_file j) = ground arith
is_old-zero i hint_file = refl
is_old-zero i merge_finished_file = refl
is_old-zero i seq_no_file = refl
is_old-zero i lock_file = refl
is_old-zero i (other_file name) = refl

remove_there-HasFiles :
    (p : FilePath) (d : Disk)
    → IsHealthy d
    → (d' : Disk) × ((remove_there p (lookup p d.files) d ≡ (d', ok tt))
        × HasFiles d' (λ q. if p =? q then none else lookup q d.files))
unfolding remove_file
remove_there-HasFiles p d h = at (lookup p d.files) refl
  where
    at :
        (o : Option Bytes)
        → lookup p d.files ≡ o
        → (d' : Disk) × ((remove_there p (lookup p d.files) d ≡ (d', ok tt))
            × HasFiles d' (λ q. if p =? q then none else lookup q d.files))
    at none e = (
      d,
      (
        rw e refl,
        record {
          healthy = h;
          at = λ q. elim (Bool-cases (p =? q)) [
            | inl t ↦
                rw (t) (ap (λ (x : FilePath). lookup x d.files) (sym ((path_beq_iff p q).0 t)) ∙ e)
            | inr t ↦ rw t refl
          ];
        },
      ),
    )
    at (some bs) e = (
      record d { files = remove p d.files },
      (rw (e, h) refl, record { healthy = h; at = λ q. lookup-remove p q d.files }),
    )

if-or :
    (a b : Bool) (o : Option Bytes)
    → (if a then none else if b then none else o) ≡ (if a || b then none else o)
if-or true b o = refl
if-or false b o = refl

pub remove_old-HasFiles :
    (dir : Bytes) (n i : ℕ) (d : Disk)
    → IsHealthy d
    → (d' : Disk) × ((remove_old dir n i d ≡ (d', ok tt))
        × HasFiles d' (λ q. if is_old_path dir i n q then none else lookup q d.files))
unfolding remove_old
remove_old-HasFiles dir zero i d h =
    (d, (refl, record { healthy = h; at = λ q. rw (is_old-zero i q.name) (ground arith) }))
remove_old-HasFiles dir (suc n) i d h =
    let (d1, (removed, has1)) = remove_there-HasFiles (get_data_file_name dir i) d h in
    let (d2, (more, has2)) = remove_old-HasFiles dir n (i + 1) d1 has1.healthy in
    (
      d2,
      (
        rw (removed, more) refl,
        record {
          healthy = has2.healthy;
          at = λ q.
              has2.at q
              ∙ rw (has1.at q, is_old-suc i n q.name)
                  (joined (dir =? q.dir) (is_old (i + 1) n q.name) (name_beq (data_file i) q.name)
                    (lookup q d.files));
        },
      ),
    )
  where
    joined :
        (same a b : Bool) (o : Option Bytes)
        → (if same && a then none else if same && b then none else o)
          ≡ (if same && (a || b) then none else o)
    joined true a b o = if-or a b o
    joined false a b o = refl

-- No name comes twice.
abbrev pub IsOnce : List FileName → Type 0
IsOnce [] = Unit {0}
IsOnce (name ∷ names) = (has_name name names ≡ false) × IsOnce names

abbrev pub path : Bytes → FileName → FilePath
path dir name = record { dir = dir; name = name }

-- Every name is that of a file of the directory.
abbrev pub AreThere : Bytes → List FileName → Disk → Type 0
AreThere dir names d = All (λ name. present (lookup (path dir name) d.files) ≡ true) names

name_beq-sym : (a b : FileName) → name_beq a b ≡ name_beq b a
name_beq-sym a b = ground (arith, name_beq_iff a b, name_beq_iff b a)

-- The files after one of them was moved.
abbrev moved_one : Bytes → Bytes → FileName → Bytes → Disk → Disk
moved_one src dst name bs d = record d {
  files = insert (path dst name) bs (remove (path src name) d.files);
}

lookup-moved_one :
    (src dst : Bytes) (name : FileName) (bs : Bytes) (d : Disk) (q : FilePath)
    → lookup q (moved_one src dst name bs d).files ≡ (
        if (dst =? q.dir) && name_beq name q.name
        then some bs
        else if (src =? q.dir) && name_beq name q.name
        then none
        else lookup q d.files)
lookup-moved_one src dst name bs d q =
    lookup-insert (path dst name) q bs (remove (path src name) d.files)
    ∙ ap (λ (o : Option Bytes). if path dst name =? q then some bs else o)
        (lookup-remove (path src name) q d.files)

AreThere-moved_one :
    (src dst : Bytes) (name : FileName) (bs : Bytes) (d : Disk) (names : List FileName)
    → (dst =? src) ≡ false
    → has_name name names ≡ false
    → AreThere src names d
    → AreThere src names (moved_one src dst name bs d)
AreThere-moved_one src dst name bs d [] other fresh there = tt
AreThere-moved_one src dst name bs d (n ∷ names) other fresh there =
    let apart : name_beq name n ≡ false = ground (arith, name_beq-sym name n) in
    let rest : has_name name names ≡ false = ground arith in
    (
      rw (lookup-moved_one src dst name bs d (path src n), other, apart, beq_self src) there.0,
      AreThere-moved_one src dst name bs d names other rest there.1,
    )

-- The files after those of some names were moved.
abbrev pub after_moves :
    Bytes → Bytes → List FileName → (FilePath → Option Bytes) → FilePath → Option Bytes
after_moves src dst names file q =
    if (dst =? q.dir) && has_name q.name names
    then file (path src q.name)
    else if (src =? q.dir) && has_name q.name names
    then none
    else file q

after_moves-joined :
    (a b x h : Bool) (m l : Option Bytes) (bs : Bytes)
    → (x ≡ true → (h ≡ false) × (m ≡ some bs))
    → (if a && h
        then (if x then none else m)
        else if b && h
        then none
        else if a && x
        then some bs
        else if b && x
        then none
        else l)
      ≡ (if a && (x || h) then m else if b && (x || h) then none else l)
after_moves-joined true b true h m l bs e = rw ((e refl).0, (e refl).1) (ground arith)
after_moves-joined false true true h m l bs e = rw (e refl).0 refl
after_moves-joined false false true h m l bs e = refl
after_moves-joined true b false true m l bs e = refl
after_moves-joined false true false true m l bs e = refl
after_moves-joined false false false true m l bs e = refl
after_moves-joined true b false false m l bs e = ground arith
after_moves-joined false true false false m l bs e = refl
after_moves-joined false false false false m l bs e = refl

after_moves-moved_one :
    (src dst : Bytes) (name : FileName) (bs : Bytes) (d : Disk) (names : List FileName)
    (q : FilePath)
    → (dst =? src) ≡ false
    → has_name name names ≡ false
    → lookup (path src name) d.files ≡ some bs
    → after_moves src dst names (λ p. lookup p (moved_one src dst name bs d).files) q
      ≡ after_moves src dst (name ∷ names) (λ p. lookup p d.files) q
after_moves-moved_one src dst name bs d names q other fresh e =
    rw
      (
        lookup-moved_one src dst name bs d (path src q.name),
        lookup-moved_one src dst name bs d q,
        other,
        beq_self src,
      )
      (after_moves-joined (dst =? q.dir) (src =? q.dir) (name_beq name q.name)
        (has_name q.name names) (lookup (path src q.name) d.files) (lookup q d.files) bs
        (λ t.
          let same : name ≡ q.name = (name_beq_iff name q.name).0 t in
          (
            ap (λ (n : FileName). has_name n names) (sym same) ∙ fresh,
            ap (λ (n : FileName). lookup (path src n) d.files) (sym same) ∙ e,
          )))

rename_file-moved_one :
    (src dst : Bytes) (name : FileName) (bs : Bytes) (d : Disk)
    → IsHealthy d
    → lookup (path src name) d.files ≡ some bs
    → rename_file (path src name) (path dst name) d ≡ (moved_one src dst name bs d, ok tt)
unfolding rename_file
rename_file-moved_one src dst name bs d h e = rw (e, h) refl

pub move_files-HasFiles :
    (src dst : Bytes) (names : List FileName) (d : Disk)
    → (dst =? src) ≡ false
    → IsHealthy d
    → IsOnce names
    → AreThere src names d
    → (d' : Disk) × ((move_files src dst names d ≡ (d', ok tt))
        × HasFiles d' (after_moves src dst names (λ q. lookup q d.files)))
unfolding move_files
move_files-HasFiles src dst [] d other h once there =
    (d, (refl, record { healthy = h; at = λ q. ground arith }))
move_files-HasFiles src dst (name ∷ names) d other h once there =
    at (lookup (path src name) d.files) refl there.0
      (λ d1 h1 there1. move_files-HasFiles src dst names d1 other h1 once.1 there1)
  where
    at :
        (o : Option Bytes)
        → lookup (path src name) d.files ≡ o
        → present (lookup (path src name) d.files) ≡ true
        → ((d1 : Disk)
            → IsHealthy d1
            → AreThere src names d1
            → (d' : Disk) × ((move_files src dst names d1 ≡ (d', ok tt))
                × HasFiles d' (after_moves src dst names (λ q. lookup q d1.files))))
        → (d' : Disk) × ((move_files src dst (name ∷ names) d ≡ (d', ok tt))
            × HasFiles d' (after_moves src dst (name ∷ names) (λ q. lookup q d.files)))
    at none e some_file later = cc (rw e at some_file)
    at (some bs) e some_file later =
        let d1 = moved_one src dst name bs d in
        let (d2, (more, has)) =
          later d1 h (AreThere-moved_one src dst name bs d names other once.0 there.1) in
        (
          d2,
          (
            rw (rename_file-moved_one src dst name bs d h e) more,
            record {
              healthy = has.healthy;
              at = λ q. has.at q ∙ after_moves-moved_one src dst name bs d names q other once.0 e;
            },
          ),
        )
