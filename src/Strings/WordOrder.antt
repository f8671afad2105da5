-- ===== src/Strings/WordOrder.antt =====
-- The comparison by words, whose bytes are reversed, is one by bytes.
use native.Mathlib.Nat.{pow-succ', mod-lt}
use nballerina.Prelude.{
  ℕ, zero, suc, ◌+◌, ◌-◌, ◌*◌, ◌/◌, ◌%◌, ◌^◌, ◌<◌, ◌≡◌, inl, inr, refl, sym, ap, ap₂, ne→==,
  ==_false, ◌∙◌, arith, false, ltb, ◌==◌, if◌then◌else◌, Bool-cases, ==_iff, ==_refl, lt-or-le,
}
use nballerina.Array.Growth.{mul_mono}
use nballerina.Compare.{int_compare}
use nballerina.Strings.Order.{digit, reverse_bytes, bswap, byte_of, memcmp8, minus_one}
use nballerina.Strings.Bytes.{
  order, or_else, bytes_compare, bytes_compare-append, bytes_compare-ext,
}

-- reversed bytes fit
reverse_bytes-lt : (count j n : ℕ) → reverse_bytes count j n < 256 ^ count
unfolding reverse_bytes
reverse_bytes-lt zero j n = omega arith
reverse_bytes-lt (suc count) j n =
    let d : digit n j < 256 = mod-lt _ (omega arith) in
    omega (
      arith,
      pow-succ' 256 count,
      reverse_bytes-lt count (suc j) n,
      mul_mono (digit n j + 1) 256 (256 ^ count) (omega arith),
    )

digits_order :
    (d e r s p : ℕ)
    → r < p
    → s < p
    → order (d * p + r) (e * p + s) ≡ or_else (order d e) (order r s)
digits_order d e r s p h k = elim (lt-or-le d e) [
  | inl less ↦ let above = mul_mono (d + 1) e p (omega arith) in ground (arith, above)
  | inr ge ↦ elim (lt-or-le e d) [
    | inl more ↦ let above = mul_mono (e + 1) d p (omega arith) in ground (arith, above)
    | inr le ↦ let same : d ≡ e = omega arith in rw (same, ==_refl) (ground arith)
  ]
]

pub reverse_bytes-order :
    (count j n m : ℕ)
    → bytes_compare count j (digit n) (digit m)
      ≡ order (reverse_bytes count j n) (reverse_bytes count j m)
unfolding bytes_compare reverse_bytes
reverse_bytes-order zero j n m = refl
reverse_bytes-order (suc count) j n m =
    ap (or_else (order (digit n j) (digit m j))) (reverse_bytes-order count (suc j) n m)
    ∙ sym (
        digits_order (digit n j) (digit m j) _ _ (256 ^ count) (reverse_bytes-lt count (suc j) n)
          (reverse_bytes-lt count (suc j) m))

pub byte_of-word : (p : ℕ → ℕ) (i k : ℕ) → k < 8 → byte_of p (8 * i + k) ≡ digit (p i) (0 + k)
byte_of-word p i k h =
    let word : (8 * i + k) / 8 ≡ i = omega arith in
    let place : (8 * i + k) % 8 ≡ 0 + k = omega arith in ap₂ (λ w j. digit (p w) j) word place

same_parts : (d e r s p : ℕ) → r < p → s < p → d * p + r ≡ e * p + s → (d ≡ e) × (r ≡ s)
same_parts d e r s p h k q = elim (lt-or-le d e) [
  | inl less ↦ absurd (omega (arith, mul_mono (d + 1) e p (omega arith)))
  | inr ge ↦ elim (lt-or-le e d) [
    | inl more ↦ absurd (omega (arith, mul_mono (e + 1) d p (omega arith)))
    | inr le ↦
        let same : d ≡ e = omega arith in
        let product : d * p ≡ e * p = ap (λ x. x * p) same in (same, omega arith)
  ]
]

same_digits :
    (count j n m : ℕ)
    → reverse_bytes count j n ≡ reverse_bytes count j m
    → (k : ℕ) → k < count
    → digit n (j + k) ≡ digit m (j + k)
unfolding reverse_bytes
same_digits zero j n m e k h = absurd (omega arith)
same_digits (suc count) j n m e k h =
    let (first, rest) =
      same_parts (digit n j) (digit m j) _ _ (256 ^ count) (reverse_bytes-lt count (suc j) n)
        (reverse_bytes-lt count (suc j) m) e in
    elim (lt-or-le 0 k) [
      | inr le ↦ let here : j + k ≡ j = omega arith in rw here first
      | inl more ↦
          let there : suc j + (k - 1) ≡ j + k = omega arith in
          ap (digit n) (sym there)
          ∙ same_digits count (suc j) n m rest (k - 1) (omega arith)
          ∙ ap (digit m) there
    ]

low_half :
    (n m : ℕ)
    → digit n 0 ≡ digit m 0
    → digit n 1 ≡ digit m 1
    → digit n 2 ≡ digit m 2
    → digit n 3 ≡ digit m 3
    → n % 2 ^ 32 ≡ m % 2 ^ 32
low_half n m e₀ e₁ e₂ e₃ = omega (arith, e₀, e₁, e₂, e₃)

pub digits_injective :
    (n m : ℕ) → n < 2 ^ 64 → m < 2 ^ 64 → ((k : ℕ) → k < 8 → digit n k ≡ digit m k) → n ≡ m
digits_injective n m h k same =
    let low =
      low_half n m (same 0 (omega arith)) (same 1 (omega arith)) (same 2 (omega arith))
        (same 3 (omega arith)) in
    let e₄ : digit n 4 ≡ digit m 4 = same 4 (omega arith) in
    let e₅ : digit n 5 ≡ digit m 5 = same 5 (omega arith) in
    let e₆ : digit n 6 ≡ digit m 6 = same 6 (omega arith) in
    let e₇ : digit n 7 ≡ digit m 7 = same 7 (omega arith) in
    let high =
      low_half (n / 2 ^ 32) (m / 2 ^ 32) (omega (arith, e₄)) (omega (arith, e₅)) (omega (arith, e₆))
        (omega (arith, e₇)) in
    omega (arith, low, high)

bswap_injective : (n m : ℕ) → n < 2 ^ 64 → m < 2 ^ 64 → bswap n ≡ bswap m → n ≡ m
bswap_injective n m h k e = digits_injective n m h k (λ j l.
    (let at : 0 + j ≡ j = omega arith in
      ap (digit n) (sym at) ∙ same_digits 8 0 n m e j l ∙ ap (digit m) at))

-- one word decides, or the rest does
word_step :
    (w v : ℕ) (rest : ℕ)
    → w < 2 ^ 64
    → v < 2 ^ 64
    → int_compare (if w == v then rest else if ltb (bswap w) (bswap v) then minus_one else 1) 0
      ≡ or_else (order (bswap w) (bswap v)) (int_compare rest 0)
unfolding int_compare
word_step w v rest h k = elim (Bool-cases (w == v)) [
  | inl e ↦ let same : w ≡ v = (==_iff w v).0 e in rw (same, ==_refl v, ==_refl (bswap v))
  | inr e ↦
      let differ : (bswap w == bswap v) ≡ false =
        ne→== _ _ (λ q. ==_false w v e (bswap_injective w v h k q)) in
      elim (Bool-cases (ltb (bswap w) (bswap v))) [
        | inl l ↦ rw (e, differ, l)
        | inr l ↦ rw (e, differ, l)
      ]
]

-- the comparison by words is one by bytes
pub memcmp8-bytes_compare :
    (rounds i : ℕ) (p q : ℕ → ℕ)
    → ((j : ℕ) → p j < 2 ^ 64)
    → ((j : ℕ) → q j < 2 ^ 64)
    → int_compare (memcmp8 rounds i p q) 0
      ≡ bytes_compare (8 * rounds) (8 * i) (byte_of p) (byte_of q)
unfolding memcmp8 bytes_compare int_compare
memcmp8-bytes_compare zero i p q h k = refl
memcmp8-bytes_compare (suc rounds) i p q h k =
    let n : 8 + 8 * rounds ≡ 8 * suc rounds = omega arith in
    let next : 8 * suc i ≡ 8 * i + 8 = omega arith in
    word_step (p i) (q i) (memcmp8 rounds (suc i) p q) (h i) (k i)
    ∙ ap₂ or_else
        (sym (
          bytes_compare-ext 8 (8 * i) 0 (byte_of p) (byte_of q) (digit (p i)) (digit (q i))
            (λ j l. (byte_of-word p i j l, byte_of-word q i j l))
          ∙ reverse_bytes-order 8 0 (p i) (q i)))
        (memcmp8-bytes_compare rounds (suc i) p q h k
          ∙ ap (λ o. bytes_compare (8 * rounds) o (byte_of p) (byte_of q)) next)
    ∙ sym (bytes_compare-append 8 (8 * rounds) (8 * i) (byte_of p) (byte_of q))
    ∙ ap (λ r. bytes_compare r (8 * i) (byte_of p) (byte_of q)) n

low_part :
    (a b c d r : ℕ)
    → r < 2 ^ 32
    → (a * 256 ^ 7 + (b * 256 ^ 6 + (c * 256 ^ 5 + (d * 256 ^ 4 + r)))) % 2 ^ 32 ≡ r
low_part a b c d r h = omega arith

-- the low half of the reversed bytes
pub bswap-low : (n : ℕ) → (bswap n % 2 ^ 32 ≡ reverse_bytes 4 4 n) × (reverse_bytes 4 4 n < 2 ^ 32)
unfolding reverse_bytes
bswap-low n =
    let fits : reverse_bytes 4 4 n < 2 ^ 32 = reverse_bytes-lt 4 4 n in
    (low_part (digit n 0) (digit n 1) (digit n 2) (digit n 3) (reverse_bytes 4 4 n) fits, fits)
