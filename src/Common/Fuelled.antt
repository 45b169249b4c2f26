-- ===== src/Common/Fuelled.antt =====
-- A loop that is given rounds: `none` is a loop that has not ended on them.
use bitcask_go.Common.{Option, none, some}
use bitcask_go.Common.Result.{Res, ok, err, panicked}

abbrev pub Fuelled {ℓ} : Type ℓ → Type ℓ
Fuelled A = Option (Res A)

infixl 5 ◌>>=◌
abbrev pub ◌>>=◌ {ℓ κ} : {A : Type ℓ} {B : Type κ} → Fuelled A → (A → Fuelled B) → Fuelled B
none >>= f = none
some (ok a) >>= f = f a
some (err e) >>= f = some (err e)
some panicked >>= f = some panicked

-- where the code follows a pointer
abbrev pub or_panic {ℓ} : {A : Type ℓ} → Option A → Res A
or_panic none = panicked
or_panic (some a) = ok a
