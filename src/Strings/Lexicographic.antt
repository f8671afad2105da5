-- ===== src/Strings/Lexicographic.antt =====
-- `_bal_string_cmp` is the lexicographic order on the bytes of strings.
use nballerina.Prelude.{
  ℕ, ◌+◌, ◌-◌, ◌*◌, ◌/◌, ◌%◌, ◌^◌, ◌<◌, ◌≤◌, ◌≡◌, sym, ap, ap₂, ◌∙◌, arith, leb, ◌==◌,
  if◌then◌else◌, cells_from,
}
use native.Mathlib.Nat.{mod-lt}
use nballerina.Compare.{int_compare}
use nballerina.Compare.Lists.{lexicographic}
use nballerina.Strings.{medium_string_size, large_string_size}
use nballerina.Strings.Bytes.{
  order, or_else, or_else_assoc, bytes_compare, bytes_compare-append, bytes_compare-ext,
  lexicographic-bytes_compare,
}
use nballerina.Strings.WordOrder.{reverse_bytes-order, memcmp8-bytes_compare, bswap-low}
use nballerina.Strings.Order.{
  digit, bswap, byte_of, memcmp8, minus, string_cmp_medium, string_cmp_large,
}
use nballerina.Strings.Padding.{padded_compare}

-- the string at `offset` in the words, followed by zeros up to the end of its last word
pub record Padded (offset len : ℕ) (p : ℕ → ℕ) : Type 0 where
  pub words : (j : ℕ) → p j < 2 ^ 64
  pub zeros : (k : ℕ) → offset + len ≤ k → k < (offset + len + 7) / 8 * 8 → byte_of p k ≡ 0

-- a result that is 0 leaves it to the lengths
pub then_lengths :
    (result n m : ℕ)
    → n < 2 ^ 63
    → m < 2 ^ 63
    → int_compare (if result == 0 then minus n m else result) 0
      ≡ or_else (int_compare result 0) (order n m)
unfolding int_compare
then_lengths result n m h k = ground arith

-- a difference that is 0 leaves it to the rest
then_rest :
    (d rest : ℕ)
    → int_compare (if d == 0 then rest else d) 0 ≡ or_else (int_compare d 0) (int_compare rest 0)
unfolding int_compare
then_rest d rest = ground arith

minus-order : (x y : ℕ) → x < 2 ^ 32 → y < 2 ^ 32 → int_compare (minus x y) 0 ≡ order x y
unfolding int_compare
minus-order x y h k = ground arith

byte_of-first : (p : ℕ → ℕ) (k : ℕ) → k < 4 → byte_of p (4 + k) ≡ digit (p 0) (4 + k)
byte_of-first p k h =
    let word : (4 + k) / 8 ≡ 0 = omega arith in
    let place : (4 + k) % 8 ≡ 4 + k = omega arith in ap₂ (λ w j. digit (p w) j) word place

byte_of-lt : (p : ℕ → ℕ) (k : ℕ) → byte_of p k < 256
byte_of-lt p k = mod-lt _ (omega arith)

module _ (p q : ℕ → ℕ) where
  -- whole words up to the end of the shorter string
  words_lexicographic :
      (offset n m size : ℕ)
      → Padded offset n p
      → Padded offset m q
      → offset + size ≡ (offset + (if leb n m then n else m) + 7) / 8 * 8
      → or_else (bytes_compare size offset (byte_of p) (byte_of q)) (order n m)
        ≡ lexicographic (cells_from n offset (byte_of p)) (cells_from m offset (byte_of q))
  words_lexicographic offset n m size pad₁ pad₂ whole =
      padded_compare n m offset (byte_of p) (byte_of q) size (omega arith)
        (λ k a b. pad₁.zeros k a (ground arith)) (λ k a b. pad₂.zeros k a (ground arith))
      ∙ sym (
          lexicographic-bytes_compare n m offset (byte_of p) (byte_of q) (byte_of-lt p)
            (byte_of-lt q))

  pub string_cmp_large-lexicographic :
      p 0 < 2 ^ 62
      → q 0 < 2 ^ 62
      → Padded 16 (p 0) p
      → Padded 16 (q 0) q
      → int_compare (string_cmp_large p q) 0
        ≡ lexicographic (cells_from (p 0) 16 (byte_of p)) (cells_from (q 0) 16 (byte_of q))
  unfolding string_cmp_large
  string_cmp_large-lexicographic h k pad₁ pad₂ =
      let min = if leb (p 0) (q 0) then p 0 else q 0 in
      let small : min < 2 ^ 62 = ground arith in
      let rounds = large_string_size min / 8 - 2 in
      then_lengths (memcmp8 rounds 2 p q) (p 0) (q 0) (omega arith) (omega arith)
      ∙ ap (λ c. or_else c (order (p 0) (q 0)))
          (memcmp8-bytes_compare rounds 2 p q pad₁.words pad₂.words)
      ∙ words_lexicographic 16 (p 0) (q 0) (8 * rounds) pad₁ pad₂ (omega (arith, small))

  first_bytes :
      int_compare (minus (bswap (p 0) % 2 ^ 32) (bswap (q 0) % 2 ^ 32)) 0
      ≡ bytes_compare 4 4 (byte_of p) (byte_of q)
  first_bytes =
      let (low₁, fits₁) = bswap-low (p 0) in
      let (low₂, fits₂) = bswap-low (q 0) in
      minus-order (bswap (p 0) % 2 ^ 32) (bswap (q 0) % 2 ^ 32) (omega arith) (omega arith)
      ∙ ap₂ order low₁ low₂
      ∙ sym (reverse_bytes-order 4 4 (p 0) (q 0))
      ∙ sym (
          bytes_compare-ext 4 4 4 (byte_of p) (byte_of q) (digit (p 0)) (digit (q 0))
            (λ k h. (byte_of-first p k h, byte_of-first q k h)))

  pub string_cmp_medium-lexicographic :
      Padded 4 (p 0 % 2 ^ 16) p
      → Padded 4 (q 0 % 2 ^ 16) q
      → int_compare (string_cmp_medium p q) 0
        ≡ lexicographic
            (cells_from (p 0 % 2 ^ 16) 4 (byte_of p))
            (cells_from (q 0 % 2 ^ 16) 4 (byte_of q))
  unfolding string_cmp_medium
  string_cmp_medium-lexicographic pad₁ pad₂ =
      let n = p 0 % 2 ^ 16 in
      let m = q 0 % 2 ^ 16 in
      let min = if leb n m then n else m in
      let rounds = medium_string_size min / 8 - 1 in
      let d = minus (bswap (p 0) % 2 ^ 32) (bswap (q 0) % 2 ^ 32) in
      let result = memcmp8 rounds 1 p q in
      then_rest d (if result == 0 then minus n m else result)
      ∙ ap₂ or_else first_bytes (
          then_lengths result n m (omega arith) (omega arith)
          ∙ ap (λ c. or_else c (order n m))
              (memcmp8-bytes_compare rounds 1 p q pad₁.words pad₂.words))
      ∙ sym (
          or_else_assoc (bytes_compare 4 4 (byte_of p) (byte_of q))
            (bytes_compare (8 * rounds) 8 (byte_of p) (byte_of q)) (order n m))
      ∙ ap (λ c. or_else c (order n m))
          (sym (bytes_compare-append 4 (8 * rounds) 4 (byte_of p) (byte_of q)))
      ∙ words_lexicographic 4 n m (4 + 8 * rounds) pad₁ pad₂ (omega arith)
