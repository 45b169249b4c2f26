-- ===== src/Common/Assoc/Size.antt =====
-- The number of entries of a map that holds each key once.
use bitcask_go.Common.{
  ◌+◌, ◌≡◌, ◌≢◌, refl, Bool-cases, inl, inr, Option, none, some, Bool, true, false, [], ◌∷◌, length,
  arith, if◌then◌else◌,
}
use bitcask_go.Common.Eq.{Eq, ◌=?◌}
use bitcask_go.Common.Assoc.{Assoc, lookup, insert, remove, lookup-insert, lookup-remove}

abbrev pub present {ℓ} : {A : Type ℓ} → Option A → Bool
present none = false
present (some a) = true

module _ {ℓ κ} {K : Type ℓ} ⦃e : Eq K⦄ {V : Type κ} where
  -- Every key stands once.
  abbrev pub IsMap : Assoc K V → Type (ℓ ⊔ κ)
  IsMap [] = Unit
  IsMap ((k, v) ∷ m) = (lookup k m ≡ none) × IsMap m

  pub insert-IsMap : (k : K) (v : V) (m : Assoc K V) → IsMap m → IsMap (insert k v m)
  unfolding insert lookup
  insert-IsMap k v [] h = (refl, tt)
  insert-IsMap k v ((j, w) ∷ m) h = elim (Bool-cases (j =? k)) [
    | inl t ↦ rw t (ground (arith, e.beq_iff j k, h.0), h.1)
    | inr t ↦ rw t (
      ground (arith, e.beq_iff j k, e.beq_iff k j, lookup-insert k j v m, h.0),
      insert-IsMap k v m h.1,
    )
  ]

  pub remove-IsMap : (k : K) (m : Assoc K V) → IsMap m → IsMap (remove k m)
  unfolding remove
  remove-IsMap k [] h = tt
  remove-IsMap k ((j, w) ∷ m) h = elim (Bool-cases (j =? k)) [
    | inl t ↦ rw t (remove-IsMap k m h.1)
    | inr t ↦ rw t (ground (arith, lookup-remove k j m, h.0), remove-IsMap k m h.1)
  ]

  pub length-insert :
      (k : K) (v : V) (m : Assoc K V)
      → length (insert k v m) ≡ (if present (lookup k m) then length m else length m + 1)
  unfolding insert lookup
  length-insert k v [] = refl
  length-insert k v ((j, w) ∷ m) = elim (Bool-cases (j =? k)) [
    | inl t ↦ rw t refl
    | inr t ↦ rw (t, length-insert k v m) (ground arith)
  ]

  absent-remove : (k : K) (m : Assoc K V) → lookup k m ≡ none → remove k m ≡ m
  unfolding remove lookup
  absent-remove k [] h = refl
  absent-remove k ((j, w) ∷ m) h = ground (arith, absent-remove k m)

  pub length-remove :
      (k : K) (m : Assoc K V)
      → IsMap m
      → length m ≡ length (remove k m) + (if present (lookup k m) then 1 else 0)
  unfolding remove lookup
  length-remove k [] h = refl
  length-remove k ((j, w) ∷ m) h = elim (Bool-cases (j =? k)) [
    | inl t ↦
        let gone : remove k m ≡ m = absent-remove k m (ground (arith, e.beq_iff j k, h.0)) in
        rw (t, gone) (omega arith)
    | inr t ↦ rw t (omega (arith, length-remove k m h.1))
  ]

  -- Nothing stands in an empty map.
  pub absent-empty : (k : K) (m : Assoc K V) → length m ≡ 0 → present (lookup k m) ≡ false
  unfolding lookup
  absent-empty k [] h = refl
  absent-empty k ((j, w) ∷ m) h = ground arith

  pub insert-some : (k : K) (v : V) (m : Assoc K V) → length (insert k v m) ≢ 0
  insert-some k v m = elim (Bool-cases (present (lookup k m))) [
    | inl t ↦ ground (arith, length-insert k v m, absent-empty k m)
    | inr t ↦ ground (arith, length-insert k v m)
  ]
