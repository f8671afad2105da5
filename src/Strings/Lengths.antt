-- ===== src/Strings/Lengths.antt =====
-- Lengths of immediate strings.
use native.Mathlib.Nat.{pow-le-pow_right}
use nballerina.Prelude.{
  ℕ, zero, suc, ◌-◌, ◌/◌, ◌%◌, ◌^◌, ◌≤◌, ◌<◌, ◌≡◌, inl, inr, arith, true, ◌==◌, lt-or-le,
}
use nballerina.Strings.{count_leading_zeros, immediate_string_length, tagged_string_is_char}
use nballerina.Tagged.{TaggedPtr, is_immediate}

-- a number below 2 ^ k has at least the zeros above bit k
count_leading_zeros-below : (w k n : ℕ) → n < 2 ^ k → k ≤ w → w - k ≤ count_leading_zeros w n
unfolding count_leading_zeros
count_leading_zeros-below zero k n h le = omega arith
count_leading_zeros-below (suc w) k n h le = elim (lt-or-le k (suc w)) [
  | inl lt ↦
      let wide : 2 ^ k ≤ 2 ^ w = pow-le-pow_right (omega arith) (omega arith) in
      ground (arith, count_leading_zeros-below w k n h (omega arith))
  | inr ge ↦ omega arith
]

-- and a number from 2 ^ k on has fewer
count_leading_zeros-above : (w k n : ℕ) → 2 ^ k ≤ n → k < w → count_leading_zeros w n < w - k
unfolding count_leading_zeros
count_leading_zeros-above zero k n h lt = omega arith
count_leading_zeros-above (suc w) k n h lt = elim (lt-or-le k w) [
  | inl less ↦ ground (arith, count_leading_zeros-above w k n h less)
  | inr ge ↦ let top : 2 ^ w ≤ 2 ^ k = pow-le-pow_right (omega arith) ge in ground arith
]

-- the number of bytes of an immediate string of one-byte characters, by the padding in front
module _ (c : ℕ) (padded : c < 2 ^ 56) (some_char : 2 ^ 7 ≤ c) where
  one_byte : c < 2 ^ 8 → (8 - count_leading_zeros 64 c / 8) ≡ 1
  one_byte h = omega (
    arith,
    count_leading_zeros-below 64 8 c h (omega arith),
    count_leading_zeros-above 64 7 c some_char (omega arith),
  )

  more_bytes : 2 ^ 8 ≤ c → 1 < 8 - count_leading_zeros 64 c / 8
  more_bytes h = omega (arith, count_leading_zeros-above 64 8 c h (omega arith))

-- For every immediate pointer `taggedStringIsChar` says whether `immediateStringLength` counts one
-- code point
pub tagged_string_is_char-immediate_string_length :
    (p : TaggedPtr)
    → is_immediate p ≡ true
    → tagged_string_is_char p ≡ ((immediate_string_length p).n_code_points == 1)
unfolding tagged_string_is_char immediate_string_length
tagged_string_is_char-immediate_string_length p h = elim (lt-or-le (p % 256) 0x80) [
  | inr high ↦ ground arith
  | inl low ↦
      let c : ℕ = 2 ^ 56 - 1 - p % 2 ^ 56 in
      elim (lt-or-le c (2 ^ 8)) [
        | inl one ↦ ground (arith, one_byte c (omega arith) (omega arith) one)
        | inr more ↦ ground (arith, more_bytes c (omega arith) (omega arith) more)
      ]
]
