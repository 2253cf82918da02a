-- ===== src/Errors.antt =====
-- bitcask-rs/src/errors.rs: the error type of the engine, and the outcome of a fallible function.
use bitcask_rs.Base.{◌≡◌, refl, Bool, true, false, if◌then◌else◌, Option, none, some}

-- `AppError`, with the source's variants.
pub data AppError : Type 0 where
  failed_to_read_from_data_file failed_to_write_data_file failed_to_sync_data_file : AppError
  failed_to_open_data_file key_is_empty key_not_found file_not_found data_file_not_found : AppError
  dir_path_is_empty data_file_size_too_small failed_to_create_database_dir : AppError
  failed_to_read_database_dir failed_to_delete_database_dir failed_to_delete_file : AppError
  failed_to_rename failed_to_get_merge_file data_directory_corrupted read_data_file_eof : AppError
  index_update_failed invalid_path decode_error encode_error get_value_failed : AppError
  invalid_log_record_crc iterator_next_error exceed_max_batch_num merge_in_progress : AppError
  parse_error unable_to_user_write_batch database_is_using failed_to_unlock_file : AppError
  invalid_merge_ratio merge_ratio_unreached merge_no_enough_space failed_to_copy_dir : AppError
  wrong_type_operation : AppError

-- `e == AppError::ReadDataFileEOF`.
unfoldable pub is_eof : AppError → Bool
is_eof read_data_file_eof = true
is_eof _ = false

-- `e == AppError::KeyNotFound`.
unfoldable pub is_key_not_found : AppError → Bool
is_key_not_found key_not_found = true
is_key_not_found _ = false

-- What a call of the program ends in: `Ok`, `Err`, or a panic. `stuck` is no outcome of the program:
-- a loop of the model ran out of fuel.
pub data Result {ℓ} (A : Type ℓ) : Type ℓ where
  ok : A → Result A
  err : AppError → Result A
  panic : Result A
  stuck : Result A

infixl 5 ◌>>=◌ ◌>>◌
abbrev pub ◌>>=◌ {ℓ κ} : {A : Type ℓ} {B : Type κ} → Result A → (A → Result B) → Result B
ok a >>= f = f a
err e >>= f = err e
panic >>= f = panic
stuck >>= f = stuck

abbrev pub ◌>>◌ {ℓ} : {B : Type ℓ} → Result (Unit {0}) → Result B → Result B
m >> k = m >>= λ _. k

-- An `if` with an early `return Err(e)`.
abbrev pub fail_if : Bool → AppError → Result (Unit {0})
fail_if true e = err e
fail_if false e = ok tt

-- `let Some(x) = o else { return Err(e) }`.
abbrev pub or_err {ℓ} : {A : Type ℓ} → Option A → AppError → Result A
or_err none e = err e
or_err (some a) e = ok a

-- `unwrap`, `expect`, or a `match` that panics.
abbrev pub or_panic {ℓ} : {A : Type ℓ} → Option A → Result A
or_panic none = panic
or_panic (some a) = ok a

-- A loop's test on what it read: the end of the file ends the loop with `a`.
abbrev pub on_read {ℓ κ} : {R : Type ℓ} {A : Type κ} → Result R → (R → Result A) → A → Result A
on_read (ok r) k a = k r
on_read (err e) k a = if is_eof e then ok a else err e
on_read panic k a = panic
on_read stuck k a = stuck

pub >>=_congr {ℓ κ} :
    {A : Type ℓ} {B : Type κ} (m : Result A) {f g : A → Result B}
    → ((a : A) → f a ≡ g a)
    → (m >>= f) ≡ (m >>= g)
>>=_congr (ok a) h = h a
>>=_congr (err e) h = refl
>>=_congr panic h = refl
>>=_congr stuck h = refl

pub >>=_assoc {ℓ κ μ} :
    {A : Type ℓ} {B : Type κ} {C : Type μ} (m : Result A) (f : A → Result B) (g : B → Result C)
    → (m >>= f >>= g) ≡ (m >>= λ a. f a >>= g)
>>=_assoc (ok a) f g = refl
>>=_assoc (err e) f g = refl
>>=_assoc panic f g = refl
>>=_assoc stuck f g = refl

module _ {ℓ κ} {A : Type ℓ} {B : Type κ} (next : A → Result B) where
  -- A chain that ends in `ok` got `ok` from its first step.
  pub first_of_ok :
      {last : B} (first : Result A)
      → first >>= next ≡ ok last
      → (a : A) × (next a ≡ ok last) × (first ≡ ok a)
  first_of_ok (ok a) ends = (a, ends, refl)
  first_of_ok (err e) ends = cc
  first_of_ok panic ends = cc
  first_of_ok stuck ends = cc
