-- ===== src/Db/Merge/Names.antt =====
-- merge.go: the listing of a directory and what LoadMergeFiles takes of it.
use bitcask_go.Common.{
  ◌≡◌, refl, sym, ap, ◌∙◌, Bool-cases, inl, inr, true, false, ◌&&◌, ◌||◌, not, none, List, [], ◌∷◌,
  All, Bytes, if◌then◌else◌, arith,
}
use bitcask_go.Common.Assoc.{Assoc, lookup}
use bitcask_go.Common.Assoc.Size.{IsMap, present}
use bitcask_go.Common.Eq.{◌=?◌, bytes_eq, bytes_beq_iff}
use bitcask_go.Fio.{
  FilePath, FileName, name_beq, name_beq_iff, path_eq, path_beq_iff, seq_no_file, lock_file,
}
use bitcask_go.Db.Merge.{names_in, has_name, merge_file_names, without_dir}
use bitcask_go.Db.Merge.Moves.{IsOnce, path}

pub bytes_beq-sym : (a b : Bytes) → (a =? b) ≡ (b =? a)
bytes_beq-sym a b = ground (arith, bytes_beq_iff a b, bytes_beq_iff b a)

pub lookup-without_dir :
    (dir : Bytes) (files : Assoc FilePath Bytes) (q : FilePath)
    → lookup q (without_dir dir files) ≡ (if dir =? q.dir then none else lookup q files)
unfolding lookup without_dir
lookup-without_dir dir [] q = ground arith
lookup-without_dir dir ((p, bs) ∷ rest) q =
    let ih = lookup-without_dir dir rest q in
    elim (Bool-cases (p =? q)) [
      | inl t ↦
          let same : p.dir ≡ q.dir = ap (λ (x : FilePath). x.dir) ((path_beq_iff p q).0 t) in
          elim (Bool-cases (dir =? q.dir)) [
            | inl u ↦
                let v : (p.dir =? dir) ≡ true =
                  (bytes_beq_iff p.dir dir).1 (same ∙ sym ((bytes_beq_iff dir q.dir).0 u)) in
                rw (v, u) (rw u at ih)
            | inr u ↦
                let v : (p.dir =? dir) ≡ false =
                  ap (λ (x : Bytes). x =? dir) same ∙ bytes_beq-sym q.dir dir ∙ u in
                rw (v, t, u) refl
          ]
      | inr t ↦ elim (Bool-cases (p.dir =? dir)) [ inl u ↦ rw (u, t) ih | inr u ↦ rw (u, t) ih ]
    ]

pub has_name-names_in :
    (dir : Bytes) (files : Assoc FilePath Bytes) (n : FileName)
    → has_name n (names_in dir files) ≡ present (lookup (path dir n) files)
unfolding lookup names_in
has_name-names_in dir [] n = refl
has_name-names_in dir ((p, bs) ∷ rest) n = elim (Bool-cases (p.dir =? dir)) [
  | inl t ↦
      rw (t, has_name-names_in dir rest n)
        (elim (Bool-cases (name_beq p.name n)) [ inl v ↦ rw v refl | inr v ↦ rw v refl ])
  | inr t ↦ rw (t, has_name-names_in dir rest n) refl
]

pub names_in-IsOnce :
    (dir : Bytes) (files : Assoc FilePath Bytes) → IsMap files → IsOnce (names_in dir files)
unfolding names_in
names_in-IsOnce dir [] is = tt
names_in-IsOnce dir ((p, bs) ∷ rest) is = elim (Bool-cases (p.dir =? dir)) [
  | inl t ↦ rw t (
    has_name-names_in dir rest p.name
        ∙ ap (λ (x : Bytes). present (lookup (path x p.name) rest))
            (sym ((bytes_beq_iff p.dir dir).0 t))
        ∙ ap present is.0,
    names_in-IsOnce dir rest is.1,
  )
  | inr t ↦ rw t (names_in-IsOnce dir rest is.1)
]

pub has_name-merge_file_names :
    (names : List FileName) (n : FileName)
    → has_name n (merge_file_names names)
      ≡ (has_name n names && not (name_beq n seq_no_file || name_beq n lock_file))
unfolding merge_file_names
has_name-merge_file_names [] n = refl
has_name-merge_file_names (name ∷ names) n = ground (
  arith,
  has_name-merge_file_names names n,
  name_beq_iff name n,
  name_beq_iff name seq_no_file,
  name_beq_iff n seq_no_file,
  name_beq_iff name lock_file,
  name_beq_iff n lock_file,
)

pub merge_file_names-IsOnce :
    (names : List FileName) → IsOnce names → IsOnce (merge_file_names names)
unfolding merge_file_names
merge_file_names-IsOnce [] once = tt
merge_file_names-IsOnce (name ∷ names) once = elim (Bool-cases (name_beq name seq_no_file)) [
  | inl t ↦ rw t (merge_file_names-IsOnce names once.1)
  | inr t ↦ elim (Bool-cases (name_beq name lock_file)) [
    | inl u ↦ rw (t, u) (merge_file_names-IsOnce names once.1)
    | inr u ↦
        rw (t, u)
          (
            rw (has_name-merge_file_names names name, once.0) refl,
            merge_file_names-IsOnce names once.1,
          )
  ]
]

pub All-has_name :
    (P : FileName → Type 0) (names : List FileName)
    → ((n : FileName) → has_name n names ≡ true → P n)
    → All P names
All-has_name P [] h = tt
All-has_name P (name ∷ names) h = (
  h name (rw ((name_beq_iff name name).1 refl) refl),
  All-has_name P names (λ n t. h n (rw t (ground arith))),
)
