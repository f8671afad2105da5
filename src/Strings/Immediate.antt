-- ===== src/Strings/Immediate.antt =====
-- `stringCmpImmediate`: the lowest byte in which two words differ.
use native.Mathlib.Nat.{div-div-eq-div-mul, mod-lt, pow-succ'}
use nballerina.Prelude.{
  ℕ, zero, suc, ◌+◌, ◌*◌, ◌/◌, ◌%◌, ◌^◌, ◌<◌, ◌≤◌, ◌≡◌, ◌≢◌, inl, inr, refl, sym, ap, ap₂, ◌∙◌,
  arith, ltb, leb, ◌==◌, if◌then◌else◌, Bool-cases, cells_from, pow-sum, lt-or-le, ==_iff, ==_false,
}
use nballerina.Compare.{CompareResult, int_compare}
use nballerina.Compare.Lists.{lexicographic}
use nballerina.Strings.{word_xor}
use nballerina.Strings.Bytes.{
  First, order, or_else, bytes_compare, bytes_compare-First, bytes_compare-same, unequal_byte,
  lexicographic-bytes_compare,
}
use nballerina.Strings.WordOrder.{digits_injective}
use nballerina.Strings.Order.{digit, minus_one, count_trailing_zeros, string_cmp_immediate}

-- the lowest bit in which two numbers of `width` bits differ
abbrev pub lowest : (width w v : ℕ) → ℕ
lowest width w v = count_trailing_zeros width (word_xor width w v)

bit_step :
    (n w v : ℕ) → lowest (suc n) w v ≡ (if w % 2 == v % 2 then 1 + lowest n (w / 2) (v / 2) else 0)
unfolding count_trailing_zeros word_xor
bit_step n w v =
    let x = word_xor n (w / 2) (v / 2) in
    let half : ((w % 2 + v % 2) % 2 + 2 * x) / 2 ≡ x = omega arith in rw half (ground arith)

four_bits :
    (w v x₀ x₁ x₂ x₃ x₄ : ℕ)
    → x₀ ≡ (if w % 2 == v % 2 then 1 + x₁ else 0)
    → x₁ ≡ (if w / 2 % 2 == v / 2 % 2 then 1 + x₂ else 0)
    → x₂ ≡ (if w / 2 / 2 % 2 == v / 2 / 2 % 2 then 1 + x₃ else 0)
    → x₃ ≡ (if w / 2 / 2 / 2 % 2 == v / 2 / 2 / 2 % 2 then 1 + x₄ else 0)
    → (w % 16 ≡ v % 16 → x₀ ≡ 4 + x₄) × (w % 16 ≢ v % 16 → x₀ < 4)
four_bits w v x₀ x₁ x₂ x₃ x₄ e₀ e₁ e₂ e₃ = (λ e. ground arith, λ d. ground arith)

nibble_step :
    (n w v : ℕ)
    → (w % 16 ≡ v % 16 → lowest (4 + n) w v ≡ 4 + lowest n (w / 16) (v / 16))
      × (w % 16 ≢ v % 16 → lowest (4 + n) w v < 4)
nibble_step n w v =
    let e : 4 + n ≡ suc (suc (suc (suc n))) = omega arith in
    let a : w / 2 / 2 / 2 / 2 ≡ w / 16 = omega arith in
    let b : v / 2 / 2 / 2 / 2 ≡ v / 16 = omega arith in
    rw (e, ← a, ← b)
      (four_bits w v _ _ _ _ _ (bit_step (suc (suc (suc n))) w v)
        (bit_step (suc (suc n)) (w / 2) (v / 2)) (bit_step (suc n) (w / 2 / 2) (v / 2 / 2))
        (bit_step n (w / 2 / 2 / 2) (v / 2 / 2 / 2)))

byte_step :
    (n w v : ℕ)
    → (w % 256 ≡ v % 256 → lowest (8 + n) w v ≡ 8 + lowest n (w / 256) (v / 256))
      × (w % 256 ≢ v % 256 → lowest (8 + n) w v < 8)
byte_step n w v =
    let split : 8 + n ≡ 4 + (4 + n) = omega arith in
    let (same₁, less₁) = nibble_step (4 + n) w v in
    let (same₂, less₂) = nibble_step n (w / 16) (v / 16) in
    let a : w / 16 / 16 ≡ w / 256 = omega arith in
    let b : v / 16 / 16 ≡ v / 256 = omega arith in
    (
      λ e. rw split (
          let low : w % 16 ≡ v % 16 = omega (arith, e) in
          let high : w / 16 % 16 ≡ v / 16 % 16 = omega (arith, e) in
          same₁ low
          ∙ ap (λ x. 4 + x) (same₂ high ∙ ap₂ (λ x y. 4 + lowest n x y) a b)
          ∙ omega arith),
      λ d. rw split (elim (Bool-cases (w % 16 == v % 16)) [
        | inr e ↦ (let low = less₁ (==_false _ _ e) in omega (arith, low))
        | inl e ↦
            let low : w % 16 ≡ v % 16 = (==_iff _ _).0 e in
            let high : w / 16 % 16 ≢ v / 16 % 16 = λ h. d (omega (arith, low, h)) in
            omega (arith, same₁ low, less₂ high)
      ]),
    )

digit-next : (w i : ℕ) → digit (w / 256) i ≡ digit w (suc i)
digit-next w i =
    ap (λ x. x % 256) (div-div-eq-div-mul w 256 (256 ^ i) ∙ ap (λ p. w / p) (sym (pow-succ' 256 i)))

First-next :
    (w v j : ℕ) → First (digit w) (digit v) (suc j) → First (digit (w / 256)) (digit (v / 256)) j
unfolding First
First-next w v j (same, differ) = (
  λ k h. digit-next w k ∙ same (suc k) (omega arith) ∙ sym (digit-next v k),
  λ e. differ (sym (digit-next w j) ∙ e ∙ digit-next v j),
)

-- the lowest byte in which two words differ
lowest_byte : (k j w v : ℕ) → j < k → First (digit w) (digit v) j → lowest (8 * k) w v / 8 ≡ j
unfolding First
lowest_byte zero j w v h first = absurd (omega arith)
lowest_byte (suc k) zero w v h (same, differ) =
    let e : 8 * suc k ≡ 8 + 8 * k = omega arith in
    let (_, less) = byte_step (8 * k) w v in
    let low : w % 256 ≢ v % 256 = λ q. differ (omega (arith, q)) in
    let small = less low in rw e (omega (arith, small))
lowest_byte (suc k) (suc j) w v h (same, differ) =
    let e : 8 * suc k ≡ 8 + 8 * k = omega arith in
    let (next, _) = byte_step (8 * k) w v in
    let first : digit w 0 ≡ digit v 0 = same 0 (omega arith) in
    let low : w % 256 ≡ v % 256 = omega (arith, first) in
    let rest =
      lowest_byte k j (w / 256) (v / 256) (omega arith) (First-next w v j (same, differ)) in
    rw (e, next low) (omega (arith, rest))

byte_shift : (j : ℕ) → 2 ^ (j * 8) ≡ 256 ^ j
byte_shift zero = refl
byte_shift (suc j) =
    let e : suc j * 8 ≡ 8 + j * 8 = omega arith in
    ap (λ n. 2 ^ n) e ∙ pow-sum 8 (j * 8) ∙ ap (λ x. 256 * x) (byte_shift j) ∙ sym (pow-succ' 256 j)

-- the comparison of the bytes in the lowest place where they differ
pub string_cmp_immediate-digit :
    (w v j : ℕ)
    → j < 8
    → First (digit w) (digit v) j
    → string_cmp_immediate w v ≡ (
        if ltb (digit w j) (digit v j)
        then if digit v j == 0xFF then 1 else minus_one
        else if digit w j == 0xFF
        then minus_one
        else 1)
unfolding string_cmp_immediate
string_cmp_immediate-digit w v j h first =
    let place : lowest 64 w v / 8 ≡ j = lowest_byte 8 j w v h first in
    let shift : 2 ^ (j * 8) ≡ 256 ^ j = byte_shift j in rw (place, shift)

-- An immediate string of `n` bytes: no byte of it is all ones, and all ones fill its place.
pub record Immediate (n w : ℕ) : Type 0 where
  pub small : w < 2 ^ 64
  pub short : n ≤ 7
  pub top : digit w 7 ≡ 0x25
  pub text : (k : ℕ) → k < n → digit w k ≢ 0xFF
  pub filled : (k : ℕ) → n ≤ k → k < 7 → digit w k ≡ 0xFF

-- what the two bytes say
abbrev verdict : (x y : ℕ) → ℕ
verdict x y =
    if ltb x y then if y == 0xFF then 1 else minus_one else if x == 0xFF then minus_one else 1

inside_both :
    (x y : ℕ) (rest : CompareResult)
    → x ≢ 0xFF
    → y ≢ 0xFF
    → x ≢ y
    → int_compare (verdict x y) 0 ≡ or_else (order x y) rest
unfolding int_compare
inside_both x y rest h k d = ground arith

left_ended :
    (x y n m : ℕ) → x ≡ 0xFF → y < 256 → y ≢ 0xFF → n < m → int_compare (verdict x y) 0 ≡ order n m
unfolding int_compare
left_ended x y n m e h d l = ground arith

right_ended :
    (x y n m : ℕ) → y ≡ 0xFF → x < 256 → x ≢ 0xFF → m < n → int_compare (verdict x y) 0 ≡ order n m
unfolding int_compare
right_ended x y n m e h d l = ground arith

module _ (n m w v j : ℕ) (left : Immediate n w) (right : Immediate m v) (inside : j < 7)
    (differ : digit w j ≢ digit v j) where
  -- the place of the difference is past the end of the shorter string, and in the other one
  after_end :
      (if leb n m then n else m) ≤ j → int_compare (verdict (digit w j) (digit v j)) 0 ≡ order n m
  after_end past = elim (lt-or-le j n) [
    | inl longer ↦
        let ended : digit v j ≡ 0xFF = right.filled j (ground arith) inside in
        let more : digit w j ≢ 0xFF = λ e. differ (e ∙ sym ended) in
        right_ended (digit w j) (digit v j) n m ended (mod-lt _ (omega arith)) more (ground arith)
    | inr shorter ↦
        let ended : digit w j ≡ 0xFF = left.filled j shorter inside in
        let more : digit v j ≢ 0xFF = λ e. differ (ended ∙ sym e) in
        elim (lt-or-le n m) [
          | inl lt ↦ left_ended (digit w j) (digit v j) n m ended (mod-lt _ (omega arith)) more lt
          | inr ge ↦ absurd (more (right.filled j (omega arith) inside))
        ]
  ]

  -- the byte decides, or the end of the shorter string
  first_decides :
      ((k : ℕ) → k < j → digit w k ≡ digit v k)
      → int_compare (verdict (digit w j) (digit v j)) 0
        ≡ or_else (bytes_compare (if leb n m then n else m) 0 (digit w) (digit v)) (order n m)
  unfolding First
  first_decides same = elim (lt-or-le j (if leb n m then n else m)) [
    | inl lt ↦
        rw (bytes_compare-First (if leb n m then n else m) j (digit w) (digit v) (same, differ) lt)
          (inside_both (digit w j) (digit v j) (order n m) (left.text j (ground arith))
            (right.text j (ground arith)) differ)
    | inr past ↦
        rw
          (bytes_compare-same (if leb n m then n else m) 0 (digit w) (digit v)
            (λ k p q. same k (omega arith)))
          (after_end past)
  ]

-- two immediate strings that are not the same
pub string_cmp_immediate-lexicographic :
    (n m w v : ℕ)
    → Immediate n w
    → Immediate m v
    → w ≢ v
    → int_compare (string_cmp_immediate w v) 0
      ≡ lexicographic (cells_from n 0 (digit w)) (cells_from m 0 (digit v))
unfolding First
string_cmp_immediate-lexicographic n m w v left right differ =
    elim (unequal_byte 8 (digit w) (digit v)) [
      | inl same ↦ absurd (differ (digits_injective w v left.small right.small same))
      | inr (j, h, (same, other)) ↦
          let inside : j < 7 = elim (lt-or-le j 7) [
            | inl lt ↦ lt
            | inr ge ↦
                let last : j ≡ 7 = omega arith in
                absurd (rw last at other (left.top ∙ sym right.top))
          ] in
          ap (λ r. int_compare r 0) (string_cmp_immediate-digit w v j h (same, other))
          ∙ first_decides n m w v j left right inside other same
          ∙ sym (
              lexicographic-bytes_compare n m 0 (digit w) (digit v) (λ k. mod-lt _ (omega arith))
                (λ k. mod-lt _ (omega arith)))
    ]
