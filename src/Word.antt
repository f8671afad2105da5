-- ===== src/Word.antt =====
-- `int64_t` values as 64-bit patterns: a number below 2 ^ 64. A cast to `uint64_t` changes nothing,
-- and an order on `int64_t` compares the patterns with the sign bit flipped.
use nballerina.Prelude.{ℕ, ◌+◌, ◌-◌, ◌%◌, ◌^◌, Bool, ltb, leb}

abbrev pub word : ℕ
word = 2 ^ 64

abbrev pub int64_max : ℕ
int64_max = 2 ^ 63 - 1

-- n < 0
abbrev pub is_negative : ℕ → Bool
is_negative n = leb (2 ^ 63) n

abbrev flip_sign : ℕ → ℕ
flip_sign n = (n + 2 ^ 63) % 2 ^ 64

-- a < b
abbrev pub lt_signed : ℕ → ℕ → Bool
lt_signed a b = ltb (flip_sign a) (flip_sign b)

-- a <= b
abbrev pub le_signed : ℕ → ℕ → Bool
le_signed a b = leb (flip_sign a) (flip_sign b)
