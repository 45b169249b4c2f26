-- ===== src/Common/Exec.antt =====
-- Go methods that change state and return (value, error): the state comes back beside the error too,
-- since what was written before an error stays written.
pub mod Post
use bitcask_go.Common.Result.{Error, Res, ok, err, panicked}

abbrev pub Exec {ℓ κ} : Type ℓ → Type κ → Type (ℓ ⊔ κ)
Exec S A = S → S × Res A

module _ {ℓ κ} {S : Type ℓ} {A : Type κ} where
  abbrev pub pure : A → Exec S A
  pure a s = (s, ok a)

  abbrev pub raise : Error → Exec S A
  raise e s = (s, err e)

  -- a call that reads the state and leaves it alone
  abbrev pub reads : (S → Res A) → Exec S A
  reads f s = (s, f s)

module _ {ℓ} {S : Type ℓ} where
  -- an assignment to fields of the state
  abbrev pub modify : (S → S) → Exec S (Unit {0})
  modify f s = (f s, ok tt)

module _ {ℓ κ μ} {S : Type ℓ} {A : Type κ} {B : Type μ} where
  abbrev pub continue : S → Res A → (A → Exec S B) → S × Res B
  continue s (ok a) f = f a s
  continue s (err e) f = (s, err e)
  continue s panicked f = (s, panicked)

  infixl 5 ◌>>=◌ ◌>>◌
  abbrev pub ◌>>=◌ : Exec S A → (A → Exec S B) → Exec S B
  ◌>>=◌ m f s = let (s', r) = m s in continue s' r f

  abbrev pub ◌>>◌ : Exec S A → Exec S B → Exec S B
  m >> n = m >>= λ _. n
