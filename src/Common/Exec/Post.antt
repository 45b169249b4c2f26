-- ===== src/Common/Exec/Post.antt =====
-- What a method ensures, whether it returns or fails; it does not panic.
use bitcask_go.Common.Result.{Res, ok, err, panicked}
use bitcask_go.Common.{◌≡◌, refl}
use bitcask_go.Common.Exec.{Exec, continue, pure}

-- Q of the value and the state if the method returns, E of the state if it fails.
abbrev pub Post : {S A : Type 0} → (A → S → Type 0) → (S → Type 0) → S × Res A → Type 0
Post Q E (s, ok a) = Q a s
Post Q E (s, err e) = E s
Post Q E (s, panicked) = ⊥

module _ {S A B : Type 0} where
  pub Post-continue :
      (Q : A → S → Type 0) (E : S → Type 0) (R : B → S → Type 0) (F : S → Type 0) (x : S × Res A)
      (f : A → Exec S B)
      → Post Q E x
      → ((a : A) (s : S) → Q a s → Post R F (f a s))
      → ((s : S) → E s → F s)
      → Post R F (continue x.0 x.1 f)
  Post-continue Q E R F (s, ok a) f h k l = k a s h
  Post-continue Q E R F (s, err e) f h k l = l s h
  Post-continue Q E R F (s, panicked) f h k l = h

module _ {S A : Type 0} where
  pub Post-mono :
      (Q R : A → S → Type 0) (E F : S → Type 0) (x : S × Res A)
      → Post Q E x
      → ((a : A) (s : S) → Q a s → R a s)
      → ((s : S) → E s → F s)
      → Post R F x
  Post-mono Q R E F (s, ok a) h k l = k a s h
  Post-mono Q R E F (s, err e) h k l = l s h
  Post-mono Q R E F (s, panicked) h k l = h

  pub Post-both :
      (Q R : A → S → Type 0) (E F : S → Type 0) (x : S × Res A)
      → Post Q E x
      → Post R F x
      → Post (λ a s. Q a s × R a s) (λ s. E s × F s) x
  Post-both Q R E F (s, ok a) h k = (h, k)
  Post-both Q R E F (s, err e) h k = (h, k)
  Post-both Q R E F (s, panicked) h k = h

  -- A call, and then the return of a value.
  pub Post-return :
      {B : Type 0} (Q : S → Type 0) (E : S → Type 0) (x : S × Res A) (b : B)
      → Post (λ _ s. Q s) E x
      → Post (λ b' s. (b' ≡ b) × Q s) E (continue x.0 x.1 (λ _. pure b))
  Post-return Q E (s, ok a) b h = (refl, h)
  Post-return Q E (s, err e) b h = h
  Post-return Q E (s, panicked) b h = h
