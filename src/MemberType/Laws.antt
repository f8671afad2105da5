-- ===== src/MemberType/Laws.antt =====
-- What the member type tests decide.
use Prim.Native.Nat.{max}
use native.Mathlib.Nat.{pow-succ', add-zero, add-suc, mod-add-div, le_refl, div-div-eq-div-mul}
use nballerina.Prelude.{
  ℕ, zero, suc, ◌+◌, ◌-◌, ◌*◌, ◌/◌, ◌%◌, ◌^◌, ◌<◌, ◌≤◌, ◌≡◌, refl, arith, true, ==_iff, sym, ◌∙◌,
  ◌↔◌,
}
use nballerina.Tagged.{TaggedPtr, uniform_type}
use nballerina.MemberType.{
  bit, popcount, word_or, word_and_not, ComplexType, MemberType, simple, complex,
  bitset_member_type, subtype_index, member_type_contains_tagged, member_bit_set,
  member_type_is_subtype_simple, member_type_is_supertype_simple,
}

pub bit-suc : (n i : ℕ) → bit n (suc i) ≡ bit (n / 2) i
bit-suc n i = rw (pow-succ', ← div-div-eq-div-mul)

pub bit-zero : (n : ℕ) → bit n 0 ≡ n % 2
bit-zero n = omega arith

pub popcount-suc : (w n : ℕ) → popcount (suc w) n ≡ popcount w n + bit n w
unfolding popcount
popcount-suc zero n = omega (arith, bit-zero n)
popcount-suc (suc w) n = omega (arith, popcount-suc w (n / 2), bit-suc n w)

popcount_mono : (k w n : ℕ) → popcount w n ≤ popcount (w + k) n
popcount_mono zero w n = rw add-zero (le_refl _)
popcount_mono (suc k) w n = rw add-suc (omega (arith, popcount_mono k w n, popcount-suc (w + k) n))

-- Bits that are set count: a set bit's index among the set bits is below their number, and two set
-- bits have two indices.
pub popcount-lt : (i w n : ℕ) → i < w → bit n i ≡ 1 → popcount i n < popcount w n
popcount-lt i w n h e =
    let k : ℕ = w - suc i in
    let s : suc i + k ≡ w = omega arith in
    omega (arith, popcount-suc i n, rw s at (popcount_mono k (suc i) n))

bit-word_or : (w i a b : ℕ) → i < w → bit (word_or w a b) i ≡ max (bit a i) (bit b i)
unfolding word_or
bit-word_or zero i a b h = absurd (omega arith)
bit-word_or (suc w) zero a b h = rw (bit-zero, bit-zero, bit-zero) (omega arith)
bit-word_or (suc w) (suc i) a b h =
    let half : word_or (suc w) a b / 2 ≡ word_or w (a / 2) (b / 2) = omega arith in
    rw (bit-suc, half, bit-suc a, bit-suc b) (bit-word_or w i (a / 2) (b / 2) (omega arith))

-- Nothing is left of `a & ~b` exactly when every bit of `a` is one of `b`.
word_and_not-bit : (w i a b : ℕ) → i < w → word_and_not w a b ≡ 0 → bit a i ≡ 1 → bit b i ≡ 1
unfolding word_and_not
word_and_not-bit zero i a b h e k = absurd (omega arith)
word_and_not-bit (suc w) zero a b h e k = omega (arith, bit-zero a, bit-zero b)
word_and_not-bit (suc w) (suc i) a b h e k =
    rw (bit-suc b i)
      (word_and_not-bit w i (a / 2) (b / 2) (omega arith) (omega arith) (rw bit-suc at k))

word_and_not-eq-zero :
    (w a b : ℕ) → ((i : ℕ) → i < w → bit a i ≡ 1 → bit b i ≡ 1) → word_and_not w a b ≡ 0
unfolding word_and_not
word_and_not-eq-zero zero a b h = refl
word_and_not-eq-zero (suc w) a b h =
    let low : a % 2 ≡ 1 → b % 2 ≡ 1 =
      λ e. omega (arith, h 0 (omega arith) (omega (arith, bit-zero a)), bit-zero b) in
    let high =
      word_and_not-eq-zero w (a / 2) (b / 2)
        (λ i p e. rw bit-suc at (h (suc i) (omega arith) (rw bit-suc e))) in
    grind (arith, low, high)

mod-div_half : (n k : ℕ) → (n % (2 * k)) / 2 ≡ (n / 2) % k
mod-div_half n k =
    let whole = rw (← div-div-eq-div-mul n 2 k) at (mod-add-div n (2 * k)) in
    omega (arith, whole, mod-add-div (n / 2) k)

mod-mod_half : (n k : ℕ) → 0 < k → (n % (2 * k)) % 2 ≡ n % 2
mod-mod_half n k h =
    let whole = rw (← div-div-eq-div-mul n 2 k) at (mod-add-div n (2 * k)) in omega (arith, whole)

pow-pos : (w : ℕ) → 0 < 2 ^ w
pow-pos zero = omega arith
pow-pos (suc w) = rw pow-succ' (omega (arith, pow-pos w))

pub bit-mod : (w i n : ℕ) → i < w → bit (n % 2 ^ w) i ≡ bit n i
bit-mod zero i n h = absurd (omega arith)
bit-mod (suc w) zero n h = rw (bit-zero, bit-zero n, pow-succ') (mod-mod_half n (2 ^ w) (pow-pos w))
bit-mod (suc w) (suc i) n h =
    rw (bit-suc, bit-suc n, pow-succ', mod-div_half) (bit-mod w i (n / 2) (omega arith))

suc-eq : (t : ℕ) → suc t ≡ 1 + t
suc-eq t = omega arith

module _ {H : Type 0} where
  -- A tagged pointer in a simple member type has its basic type in the bit set.
  contains_simple :
      (m : ℕ) (h : H) (p : TaggedPtr)
      → member_type_contains_tagged (simple m) h p ≡ true
      → bit (m / 2 % 2 ^ 32) (uniform_type p) ≡ 1
  unfolding member_type_contains_tagged
  contains_simple m h p e =
      let t : ℕ = uniform_type p in
      let e' : bit m (suc t) ≡ 1 = rw (suc-eq t) ((==_iff _ 1).0 e) in
      bit-mod 32 t (m / 2) (omega arith) ∙ sym (bit-suc m t) ∙ e'

  -- Whatever a member type contains has a basic type of its bit set.
  pub contains-member_bit_set :
      (mt : MemberType H) (h : H) (p : TaggedPtr)
      → member_type_contains_tagged mt h p ≡ true
      → bit (member_bit_set mt) (uniform_type p) ≡ 1
  unfolding member_bit_set member_type_contains_tagged
  contains-member_bit_set (simple m) h p e = contains_simple m h p e
  contains-member_bit_set (complex ct) h p e =
      rw (bit-word_or 32 (uniform_type p) ct.all ct.some_of (omega arith)) (ground arith)

  -- Where `memberTypeIsSubtypeSimple` accepts a bit set for a member type, simple or complex, the
  -- basic type of each value of the member type is in the set
  pub member_type_is_subtype_simple_sound :
      (mt : MemberType H) (bit_set : ℕ) (h : H) (p : TaggedPtr)
      → member_type_is_subtype_simple mt bit_set ≡ true
      → member_type_contains_tagged mt h p ≡ true
      → bit bit_set (uniform_type p) ≡ 1
  unfolding member_type_is_subtype_simple
  member_type_is_subtype_simple_sound mt bit_set h p e c =
      word_and_not-bit 32 (uniform_type p) (member_bit_set mt) bit_set (omega arith)
        ((==_iff _ 0).0 e) (contains-member_bit_set mt h p c)

  -- The member type of a 32-bit set of basic types contains exactly the values whose basic type is
  -- in the set
  pub bitset_member_type_contains :
      (bit_set : ℕ) (h : H) (p : TaggedPtr)
      → bit_set < 2 ^ 32
      → (member_type_contains_tagged (bitset_member_type bit_set) h p ≡ true)
        ↔ (bit bit_set (uniform_type p) ≡ 1)
  unfolding member_type_contains_tagged bitset_member_type
  bitset_member_type_contains bit_set h p b =
      let t : ℕ = uniform_type p in
      let m : ℕ = bit_set * 2 % 2 ^ 64 + 1 in
      let half : m / 2 ≡ bit_set = omega arith in
      let same : bit m (1 + t) ≡ bit bit_set t = rw (← suc-eq t, bit-suc, half) in
      (λ e. sym same ∙ (==_iff _ 1).0 e, λ e. (==_iff _ 1).1 (same ∙ e))

  -- Where `memberTypeIsSupertypeSimple` accepts a bit set for the member type of a 32-bit set of
  -- basic types, the member type contains each value whose basic type is in the accepted set
  pub member_type_is_supertype_simple_sound :
      (b bit_set : ℕ) (h : H) (p : TaggedPtr)
      → b < 2 ^ 32
      → member_type_is_supertype_simple {H = H} (bitset_member_type b) bit_set ≡ true
      → bit bit_set (uniform_type p) ≡ 1
      → member_type_contains_tagged (bitset_member_type b) h p ≡ true
  unfolding member_type_is_supertype_simple bitset_member_type member_bit_set
  member_type_is_supertype_simple_sound b bit_set h p lt e k =
      let same : (b * 2 % 2 ^ 64 + 1) / 2 % 2 ^ 32 ≡ b = omega arith in
      (bitset_member_type_contains b h p lt).1 (
        rw same at
          (word_and_not-bit 32 (uniform_type p) bit_set _ (omega arith) ((==_iff _ 0).0 e) k))

  -- A basic type below another below 32 that is partly included has its subtype inside the array
  -- of subtypes and before that of the other
  pub subtype_index_lem :
      (ct : ComplexType H) (t u : ℕ)
      → u < 32
      → bit ct.some_of t ≡ 1
      → t < u
      → (subtype_index ct t < popcount 32 ct.some_of) × (subtype_index ct t < subtype_index ct u)
  unfolding subtype_index
  subtype_index_lem ct t u h e lt =
      (popcount-lt t 32 ct.some_of (omega arith) e, popcount-lt t u ct.some_of lt e)
