-- ===== src/Decimal/Results.antt =====
-- What the arithmetic on decimals gives.
use nballerina.Prelude.{
  ℕ, ◌%◌, ◌^◌, ◌<◌, ◌≡◌, ◌⊎◌, inl, inr, refl, ap, arith, Bool, true, false, ◌==◌, ◌||◌, Bool-cases,
  ==_refl,
}
use nballerina.Decimal.{
  DecClass, snan, qnan, neg_inf, neg_normal, neg_subnormal, neg_zero, pos_zero, pos_subnormal,
  pos_normal, pos_inf, Status, Number, Decimals, Outcome, is_zero_class, is_class_pos_zero,
  status_fails, create_decimal, created, tagged_to_quad, finish, decimal_add, decimal_sub,
  decimal_mul, decimal_div, decimal_rem, decimal_neg,
}
use nballerina.Run.{
  PanicCode, panic_divide_by_zero, panic_arithmetic_overflow, panic_invalid_decimal,
}
use nballerina.Tagged.{TaggedPtr, get_tag, tag_decimal, tagged_to_ptr, ptr_add_shifted_tag}

-- the classes of the decimals of the language: +0, and what is neither subnormal nor special
abbrev pub is_valid_class : DecClass → Bool
is_valid_class pos_zero = true
is_valid_class pos_normal = true
is_valid_class neg_normal = true
is_valid_class other = false

abbrev is_special : DecClass → Bool
is_special snan = true
is_special qnan = true
is_special neg_inf = true
is_special pos_inf = true
is_special other = false

abbrev pub is_decimal : {D : Type 0} → Number D → D → Bool
is_decimal number d = is_valid_class (number.class d)

-- an operation gives a special value only with one of the failing bits set
abbrev pub Flags : {D : Type 0} → Number D → (D → D → D × Status) → Type 0
Flags {D} number op =
    (a b : D)
    → is_decimal number a ≡ true
    → is_decimal number b ≡ true
    → status_fails ((op a b).1) ≡ false
    → is_special (number.class ((op a b).0)) ≡ false

-- what decNumber documents of its arithmetic
pub record Arithmetic {D : Type 0} (number : Number D) : Type 0 where
  pub zero : number.class number.zero_quad ≡ pos_zero
  pub add : Flags number number.add
  pub subtract : Flags number number.subtract
  pub multiply : Flags number number.multiply
  pub divide : Flags number number.divide
  pub remainder : Flags number number.remainder
  pub negated :
      (d : D)
      → is_decimal number d ≡ true
      → is_class_pos_zero (number.class d) ≡ false
      → is_decimal number (number.copy_negate d) ≡ true

-- the next box is aligned and below 2 ^ 56
abbrev pub IsAligned : {D : Type 0} → Decimals D → Type 0
IsAligned heap = (heap.next % 8 ≡ 0) × (heap.next < 2 ^ 56)

-- a new box with a decimal of the language, beside the old ones
pub record Boxed {D : Type 0} (number : Number D) (heap : Decimals D) (tp : TaggedPtr)
    (heap' : Decimals D) : Type 0 where
  pub tag : get_tag tp ≡ tag_decimal
  pub valid : is_decimal number (tagged_to_quad tp heap') ≡ true
  pub kept : (a : ℕ) → a < heap.next → heap'.at a ≡ heap.at a

-- an operation gives a decimal, or a panic code for its failing bits and changes nothing
abbrev pub IsResult :
    {D : Type 0} → Number D → Decimals D → (PanicCode → Type 0) → Outcome × Decimals D → Type 0
IsResult number heap Reason (inr tp, heap') = Boxed number heap tp heap'
IsResult number heap Reason (inl code, heap') = (heap' ≡ heap) × Reason code

-- the bits behind a panic code
abbrev pub Reported : Status → PanicCode → Type 0
Reported s code =
    ((code ≡ panic_divide_by_zero) × (s.division_by_zero ≡ true))
    ⊎ ((code ≡ panic_arithmetic_overflow) × (s.overflow ≡ true))
    ⊎ ((code ≡ panic_invalid_decimal) × ((s.invalid_operation || s.other_invalid) ≡ true))

-- the result of an operation on two decimals, with the bits that it sets
abbrev pub GivesResult :
    {D : Type 0}
    → Number D
    → Decimals D
    → (tp₁ tp₂ : TaggedPtr) → (D → D → D × Status)
    → Outcome × Decimals D
    → Type 0
GivesResult number heap tp₁ tp₂ op =
    IsResult number heap (Reported ((op (tagged_to_quad tp₁ heap) (tagged_to_quad tp₂ heap)).1))

valid_class :
    (c : DecClass) → is_zero_class c ≡ false → is_special c ≡ false → is_valid_class c ≡ true
valid_class snan z n = cc
valid_class qnan z n = cc
valid_class neg_inf z n = cc
valid_class neg_normal z n = refl
valid_class neg_subnormal z n = cc
valid_class neg_zero z n = cc
valid_class pos_zero z n = cc
valid_class pos_subnormal z n = cc
valid_class pos_normal z n = refl
valid_class pos_inf z n = cc

module _ {D : Type 0} (number : Number D) (laws : Arithmetic number) (heap : Decimals D)
    (aligned : IsAligned heap) where
  create_decimal-Boxed :
      (d : D)
      → is_decimal number d ≡ true
      → Boxed number heap ((create_decimal d heap).0) ((create_decimal d heap).1)
  unfolding create_decimal
  create_decimal-Boxed d valid =
      let address : tagged_to_ptr (ptr_add_shifted_tag heap.next tag_decimal) ≡ heap.next =
        omega (arith, aligned.0, aligned.1) in
      record {
        tag = omega (arith, aligned.1);
        valid = rw (address, ==_refl heap.next) valid;
        kept = λ a h. (let other : (heap.next == a) ≡ false = ground arith in rw other);
      }

  zero_valid : is_decimal number number.zero_quad ≡ true
  zero_valid = ap is_valid_class laws.zero

  finish-IsResult :
      (d : D) (s : Status)
      → (status_fails s ≡ false → is_special (number.class d) ≡ false)
      → IsResult number heap (Reported s) (finish number (d, s) heap)
  unfolding finish created
  finish-IsResult d s flags = elim (Bool-cases (is_zero_class (number.class d))) [
    | inl e ↦ rw e (create_decimal-Boxed number.zero_quad zero_valid)
    | inr e ↦ elim (Bool-cases (status_fails s)) [
      | inr ok ↦ rw (e, ok) (create_decimal-Boxed d (valid_class (number.class d) e (flags ok)))
      | inl bad ↦ elim (Bool-cases s.division_by_zero) [
        | inl z ↦ rw (e, bad, z) (refl, inl (refl, refl))
        | inr b₁ ↦ elim (Bool-cases s.overflow) [
          | inl o ↦ rw (e, bad, b₁, o) (refl, inr (inl (refl, refl)))
          | inr b₂ ↦ elim (Bool-cases s.underflow) [
            | inl u ↦ rw (e, bad, b₁, b₂, u) (create_decimal-Boxed number.zero_quad zero_valid)
            | inr b₃ ↦ rw (e, bad, b₁, b₂, b₃) (refl, inr (inr (refl, rw (b₁, b₂, b₃) at bad)))
          ]
        ]
      ]
    ]
  ]

  module _ (tp₁ tp₂ : TaggedPtr) (valid₁ : is_decimal number (tagged_to_quad tp₁ heap) ≡ true)
      (valid₂ : is_decimal number (tagged_to_quad tp₂ heap) ≡ true) where
    operation-GivesResult :
        (op : D → D → D × Status)
        → Flags number op
        → GivesResult number heap tp₁ tp₂ op
            (finish number (op (tagged_to_quad tp₁ heap) (tagged_to_quad tp₂ heap)) heap)
    operation-GivesResult op flags =
        let r = op (tagged_to_quad tp₁ heap) (tagged_to_quad tp₂ heap) in
        finish-IsResult (r.0) (r.1)
          (flags (tagged_to_quad tp₁ heap) (tagged_to_quad tp₂ heap) valid₁ valid₂)

    negated-Boxed :
        Boxed number heap ((decimal_neg number tp₁ heap).0) ((decimal_neg number tp₁ heap).1)
        ⊎ (decimal_neg number tp₁ heap ≡ (tp₁, heap))
    unfolding decimal_neg
    negated-Boxed =
        let d = tagged_to_quad tp₁ heap in
        elim (Bool-cases (is_class_pos_zero (number.class d))) [
          | inl e ↦ inr (rw e)
          | inr e ↦
              inl (rw e (create_decimal-Boxed (number.copy_negate d) (laws.negated d valid₁ e)))
        ]

    -- Where decNumber gives a special value only with a failing status bit, each of the five
    -- operations on two decimals of the language (+0 or a normal number) gives a new box with a
    -- decimal of the language and keeps the old boxes, or changes nothing and gives the panic code
    -- for division by zero, overflow or an invalid operation, of which the status has the bit;
    -- negation gives such a box or the pointer itself
    pub decimal_arithmetic_results :
        GivesResult number heap tp₁ tp₂ number.add (decimal_add number tp₁ tp₂ heap)
        × GivesResult number heap tp₁ tp₂ number.subtract (decimal_sub number tp₁ tp₂ heap)
        × GivesResult number heap tp₁ tp₂ number.multiply (decimal_mul number tp₁ tp₂ heap)
        × GivesResult number heap tp₁ tp₂ number.divide (decimal_div number tp₁ tp₂ heap)
        × GivesResult number heap tp₁ tp₂ number.remainder (decimal_rem number tp₁ tp₂ heap)
        × (Boxed number heap ((decimal_neg number tp₁ heap).0) ((decimal_neg number tp₁ heap).1)
            ⊎ (decimal_neg number tp₁ heap ≡ (tp₁, heap)))
    unfolding decimal_add decimal_sub decimal_mul decimal_div decimal_rem
    decimal_arithmetic_results = (
      operation-GivesResult number.add laws.add,
      operation-GivesResult number.subtract laws.subtract,
      operation-GivesResult number.multiply laws.multiply,
      operation-GivesResult number.divide laws.divide,
      operation-GivesResult number.remainder laws.remainder,
      negated-Boxed,
    )
