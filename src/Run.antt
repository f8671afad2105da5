-- ===== src/Run.antt =====
-- How a call of the runtime ends. The panic codes are those of runtime/panic.h; 0 is success.
use nballerina.Prelude.{ℕ, ◌≡◌}

abbrev pub PanicCode : Type 0
PanicCode = ℕ

abbrev pub panic_arithmetic_overflow : PanicCode
panic_arithmetic_overflow = 1

abbrev pub panic_divide_by_zero : PanicCode
panic_divide_by_zero = 2

abbrev pub panic_index_out_of_bounds : PanicCode
panic_index_out_of_bounds = 5

abbrev pub panic_list_too_long : PanicCode
panic_list_too_long = 6

abbrev pub panic_string_too_long : PanicCode
panic_string_too_long = 7

abbrev pub panic_list_store : PanicCode
panic_list_store = 8

abbrev pub panic_mapping_store : PanicCode
panic_mapping_store = 9

abbrev pub panic_no_filler : PanicCode
panic_no_filler = 10

abbrev pub panic_internal_error : PanicCode
panic_internal_error = 11

abbrev pub panic_invalid_decimal : PanicCode
panic_invalid_decimal = 12

-- `panicked`: `_bal_panic` was called, which does not return. `fault`: an access outside of an
-- allocated block. `diverged`: a loop with no bound was still running when its fuel was spent.
pub data Run {ℓ} (A : Type ℓ) : Type ℓ where
  done : A → Run A
  panicked : PanicCode → Run A
  fault : Run A
  diverged : Run A

infixl 5 ◌>>=◌
abbrev pub ◌>>=◌ {ℓ κ} : {A : Type ℓ} {B : Type κ} → Run A → (A → Run B) → Run B
done a >>= f = f a
panicked c >>= f = panicked c
fault >>= f = fault
diverged >>= f = diverged

-- the call returns, with a result that satisfies `P`
abbrev pub Returns {ℓ κ} : {A : Type ℓ} → Run A → (A → Type κ) → Type (ℓ ⊔ κ)
Returns {A} r P = (a : A) × (r ≡ done a) × P a
