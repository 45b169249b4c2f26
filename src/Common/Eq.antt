-- ===== src/Common/Eq.antt =====
-- Equality tests as an interface: the keys of Go maps and byte slices are compared by it.
use bitcask_go.Common.{
  Bool-cases, inl, inr, ℕ, ◌≡◌, refl, ◌↔◌, ◌≢◌, Bool, true, false, ◌&&◌, List, [], ◌∷◌, arith,
  ◌==◌ as nat_beq, ==_iff,
}

pub record Eq {ℓ} (A : Type ℓ) : Type ℓ where
  pub beq : A → A → Bool
  pub beq_iff : (a b : A) → (beq a b ≡ true) ↔ (a ≡ b)

infix 50 ◌=?◌
abbrev pub ◌=?◌ {ℓ} : {A : Type ℓ} ⦃e : Eq A⦄ → A → A → Bool
◌=?◌ ⦃e⦄ = e.beq

instance abbrev pub nat_eq : Eq ℕ
nat_eq = record { beq = nat_beq; beq_iff = ==_iff }

-- bytes.Equal
unfoldable pub bytes_beq : List ℕ → List ℕ → Bool
bytes_beq [] [] = true
bytes_beq [] (y ∷ ys) = false
bytes_beq (x ∷ xs) [] = false
bytes_beq (x ∷ xs) (y ∷ ys) = nat_beq x y && bytes_beq xs ys

bytes_beq→eq : (xs ys : List ℕ) → bytes_beq xs ys ≡ true → xs ≡ ys
unfolding bytes_beq
bytes_beq→eq [] [] h = refl
bytes_beq→eq [] (y ∷ ys) h = cc
bytes_beq→eq (x ∷ xs) [] h = cc
bytes_beq→eq (x ∷ xs) (y ∷ ys) h = ground (arith, bytes_beq→eq xs ys)

bytes_beq_self : (xs : List ℕ) → bytes_beq xs xs ≡ true
unfolding bytes_beq
bytes_beq_self [] = refl
bytes_beq_self (x ∷ xs) = ground (arith, bytes_beq_self xs)

pub bytes_beq_iff : (xs ys : List ℕ) → (bytes_beq xs ys ≡ true) ↔ (xs ≡ ys)
bytes_beq_iff xs ys = (bytes_beq→eq xs ys, λ e. rw e (bytes_beq_self ys))

instance abbrev pub bytes_eq : Eq (List ℕ)
bytes_eq = record { beq = bytes_beq; beq_iff = bytes_beq_iff }

module _ {ℓ} {A : Type ℓ} ⦃e : Eq A⦄ where
  pub beq_self : (a : A) → (a =? a) ≡ true
  beq_self a = (e.beq_iff a a).1 refl

  pub beq_ne : (a b : A) → a ≢ b → (a =? b) ≡ false
  beq_ne a b h = ground (arith, e.beq_iff a b)

-- An injective function keeps the answer of the test.
pub beq-injective :
    {A B : Type 0} ⦃d : Eq A⦄ ⦃e : Eq B⦄ (f : A → B)
    → ((a b : A) → f a ≡ f b → a ≡ b)
    → (a b : A) → (f a =? f b) ≡ (a =? b)
beq-injective ⦃d⦄ ⦃e⦄ f inj a b = elim (Bool-cases (a =? b)) [
  | inl t ↦ rw (t, (d.beq_iff a b).0 t) (beq_self (f b))
  | inr t ↦ rw t (beq_ne (f a) (f b) (λ h. absurd a b t (inj a b h)))
]
  where
    absurd : {A : Type 0} ⦃d : Eq A⦄ (a b : A) → (a =? b) ≡ false → a ≢ b
    absurd ⦃d⦄ a b t h = ground (arith, d.beq_iff a b)
