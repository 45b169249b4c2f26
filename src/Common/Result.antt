-- ===== src/Common/Result.antt =====
-- What a Go function that may fail returns: a value, an error, or a panic.

-- errors.go, redis/types.go, data.ErrinvalidCRC, io.EOF, `io_failed` for an error of the operating
-- system, `invalid_number` for one of strconv, `invalid_options` for one of checkOptions and
-- `data_inconsistency` for the one that LAll makes.
pub data Error : Type 0 where
  key_is_empty index_update_failed key_not_found data_file_not_found data_directory_corrupted :
      Error
  exceed_max_batch_num merge_is_process database_is_using merge_ratio_unreached : Error
  no_enough_space_merge invalid_crc eof io_failed : Error
  invalid_number invalid_options : Error
  wrong_type_operation key_expired value_is_null data_inconsistency : Error

-- `panicked` is a Go panic.
pub data Res {ℓ} (A : Type ℓ) : Type ℓ where
  ok : A → Res A
  err : Error → Res A
  panicked : Res A

infixl 5 ◌>>=◌ ◌>>◌
abbrev pub ◌>>=◌ {ℓ κ} : {A : Type ℓ} {B : Type κ} → Res A → (A → Res B) → Res B
ok a >>= f = f a
err e >>= f = err e
panicked >>= f = panicked

abbrev pub ◌>>◌ {ℓ} : {B : Type ℓ} → Res (Unit {0}) → Res B → Res B
m >> k = m >>= λ _. k
