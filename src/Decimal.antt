-- ===== src/Decimal.antt =====
-- Decimals (runtime/decimal.c), over decNumber, which is the parameter `Number`. A decimal of the
-- program is a boxed decQuad.
pub mod Results
pub mod Order
use nballerina.Prelude.{
  ℕ, zero, suc, ◌+◌, ◌-◌, ◌/◌, ◌^◌, Bool, true, false, not, Option, none, some, ltb, ◌==◌, ◌||◌,
  ◌&&◌, if◌then◌else◌, List, ◌⊎◌, inl, inr,
}
use nballerina.Run.{
  Run, done, diverged, ◌>>=◌, PanicCode, panic_divide_by_zero, panic_arithmetic_overflow,
  panic_invalid_decimal,
}
use nballerina.Tagged.{TaggedPtr, tag_decimal, tagged_to_ptr, ptr_add_shifted_tag}
use nballerina.Word.{le_signed}

-- `enum decClass`
pub data DecClass : Type 0 where
  snan qnan neg_inf neg_normal neg_subnormal neg_zero pos_zero pos_subnormal pos_normal pos_inf :
      DecClass

-- The status bits that are tested. `other_invalid` are the bits of
-- `DEC_IEEE_754_Invalid_operation` beside `DEC_Invalid_operation`.
pub record Status : Type 0 where
  pub division_by_zero : Bool
  pub overflow : Bool
  pub underflow : Bool
  pub invalid_operation : Bool
  pub other_invalid : Bool

abbrev pub Text : Type 0
Text = List ℕ

-- The functions of decQuad.h on decimals `D`, each from a fresh context with half even rounding.
-- `canonical_equal` compares the bytes of the canonical forms.
pub record Number (D : Type 0) : Type 0 where
  pub class : D → DecClass
  pub zero_quad : D
  pub add : D → D → D × Status
  pub subtract : D → D → D × Status
  pub multiply : D → D → D × Status
  pub divide : D → D → D × Status
  pub remainder : D → D → D × Status
  pub compare_quad : D → D → D
  pub quantize : D → D → D × Status
  pub copy_negate : D → D
  pub reduce : D → D
  pub canonical_equal : D → D → Bool
  pub from_int32 : ℕ → D
  pub from_string : Text → D
  pub to_string : D → Text

-- The C library and dtoa. `strtol` in base 0 gives the value and whether `errno` is `ERANGE`.
pub record Formats : Type 0 where
  pub is_nan : ℕ → Bool
  pub is_inf : ℕ → Bool
  pub is_zero : ℕ → Bool
  pub print_int : ℕ → Text
  pub print_double : ℕ → Text
  pub strtol : Text → ℕ × Bool
  pub strtod : Text → ℕ

-- the boxed decimals, and the first address that has none
pub record Decimals (D : Type 0) : Type 0 where
  pub next : ℕ
  pub at : ℕ → D

-- `TaggedPtrPanicCode`: the pointer is not set where there is a code
abbrev pub Outcome : Type 0
Outcome = PanicCode ⊎ TaggedPtr

abbrev pub is_zero_class : DecClass → Bool
is_zero_class pos_zero = true
is_zero_class neg_zero = true
is_zero_class pos_subnormal = true
is_zero_class neg_subnormal = true
is_zero_class other = false

abbrev pub is_class_pos_zero : DecClass → Bool
is_class_pos_zero pos_zero = true
is_class_pos_zero other = false

abbrev pub is_class_pos_normal : DecClass → Bool
is_class_pos_normal pos_normal = true
is_class_pos_normal other = false

abbrev pub is_class_neg_normal : DecClass → Bool
is_class_neg_normal neg_normal = true
is_class_neg_normal other = false

-- `status & DEC_Errors`
abbrev pub status_fails : Status → Bool
status_fails s =
    s.division_by_zero || s.overflow || s.underflow || s.invalid_operation || s.other_invalid

module _ {D : Type 0} where
  unfoldable pub create_decimal : D → Decimals D → TaggedPtr × Decimals D
  create_decimal d heap = (
    ptr_add_shifted_tag heap.next tag_decimal,
    record { next = heap.next + 16; at = λ a. if heap.next == a then d else heap.at a },
  )

  abbrev pub tagged_to_quad : TaggedPtr → Decimals D → D
  tagged_to_quad tp heap = heap.at (tagged_to_ptr tp)

  unfoldable pub created : D → Decimals D → Outcome × Decimals D
  unfolding create_decimal
  created d heap = let (tp, heap') = create_decimal d heap in (inr tp, heap')

module _ {D : Type 0} (number : Number D) where
  unfoldable pub finish : D × Status → Decimals D → Outcome × Decimals D
  unfolding created
  finish (d, status) heap =
      if is_zero_class (number.class d)
      then created number.zero_quad heap
      else if status_fails status
      then if status.division_by_zero
        then (inl panic_divide_by_zero, heap)
        else if status.overflow
        then (inl panic_arithmetic_overflow, heap)
        else if status.underflow
        then created number.zero_quad heap
        else (inl panic_invalid_decimal, heap)
      else created d heap

  module _ (tp₁ tp₂ : TaggedPtr) (heap : Decimals D) where
    unfoldable pub decimal_add : Outcome × Decimals D
    unfolding finish
    decimal_add = finish (number.add (tagged_to_quad tp₁ heap) (tagged_to_quad tp₂ heap)) heap

    unfoldable pub decimal_sub : Outcome × Decimals D
    unfolding finish
    decimal_sub = finish (number.subtract (tagged_to_quad tp₁ heap) (tagged_to_quad tp₂ heap)) heap

    unfoldable pub decimal_mul : Outcome × Decimals D
    unfolding finish
    decimal_mul = finish (number.multiply (tagged_to_quad tp₁ heap) (tagged_to_quad tp₂ heap)) heap

    unfoldable pub decimal_div : Outcome × Decimals D
    unfolding finish
    decimal_div = finish (number.divide (tagged_to_quad tp₁ heap) (tagged_to_quad tp₂ heap)) heap

    unfoldable pub decimal_rem : Outcome × Decimals D
    unfolding finish
    decimal_rem = finish (number.remainder (tagged_to_quad tp₁ heap) (tagged_to_quad tp₂ heap)) heap

  unfoldable pub decimal_neg : TaggedPtr → Decimals D → TaggedPtr × Decimals D
  unfolding create_decimal
  decimal_neg tp heap =
      let d = tagged_to_quad tp heap in
      if is_class_pos_zero (number.class d)
      then (tp, heap)
      else create_decimal (number.copy_negate d) heap

  abbrev pub decimal_exact_eq : (tp₁ tp₂ : TaggedPtr) → Decimals D → Bool
  decimal_exact_eq tp₁ tp₂ heap =
      number.canonical_equal (tagged_to_quad tp₁ heap) (tagged_to_quad tp₂ heap)

  -- -1 as an int64_t
  unfoldable pub decimal_cmp : (tp₁ tp₂ : TaggedPtr) → Decimals D → ℕ
  decimal_cmp tp₁ tp₂ heap =
      let class =
        number.class (number.compare_quad (tagged_to_quad tp₁ heap) (tagged_to_quad tp₂ heap)) in
      if is_class_pos_zero class then 0 else if is_class_pos_normal class then 1 else 2 ^ 64 - 1

  -- the loop of `decimalListContains`, with fuel
  unfoldable pub decimal_list_contains :
      (fuel : ℕ) → (decimals : ℕ → D) → (start stop : ℕ) → D → Run Bool
  decimal_list_contains zero decimals start stop d = diverged
  decimal_list_contains (suc fuel) decimals start stop d =
      let mid = start + (stop - start) / 2 in
      let before = decimal_list_contains fuel decimals start mid d in
      let after = decimal_list_contains fuel decimals (mid + 1) stop d in
      let class = number.class (number.compare_quad d (decimals mid)) in
      if ltb start stop
      then if is_class_pos_zero class
        then done true
        else if is_class_neg_normal class
        then before
        else after
      else done false

  -- `included` says whether the members are in the type, or all others
  unfoldable pub decimal_subtype_contains :
      (n_decimals : ℕ) → (decimals : ℕ → D) → (included : Bool) → TaggedPtr → Decimals D → Run Bool
  unfolding decimal_list_contains
  decimal_subtype_contains n decimals included tp heap =
      decimal_list_contains (n + 1) decimals 0 n (tagged_to_quad tp heap) >>= λ found.
      done (if found then included else not included)

  -- the filler of a decimal type
  abbrev pub decimal_filler_create : (val : D) → Decimals D → TaggedPtr × Bool × Decimals D
  decimal_filler_create val heap = let (tp, heap') = create_decimal val heap in (tp, false, heap')

  module _ (formats : Formats) where
    abbrev pub decimal_to_float : TaggedPtr → Decimals D → ℕ
    decimal_to_float tp heap = formats.strtod (number.to_string (tagged_to_quad tp heap))

    unfoldable pub decimal_from_int : (val : ℕ) → Decimals D → TaggedPtr × Decimals D
    unfolding create_decimal
    decimal_from_int val heap =
        create_decimal
          (if le_signed (2 ^ 64 - 2 ^ 31) val && le_signed val (2 ^ 31 - 1)
            then number.from_int32 val
            else number.from_string (formats.print_int val))
          heap

    unfoldable pub decimal_from_float : (val : ℕ) → Decimals D → Outcome × Decimals D
    unfolding created
    decimal_from_float val heap =
        if formats.is_nan val
        then (inl panic_invalid_decimal, heap)
        else if formats.is_inf val
        then (inl panic_arithmetic_overflow, heap)
        else if formats.is_zero val
        then created number.zero_quad heap
        else created (number.reduce (number.from_string (formats.print_double val))) heap

    -- `IntWithOverflow`: `none` is an overflow
    unfoldable pub decimal_to_int : TaggedPtr → Decimals D → Option ℕ
    decimal_to_int tp heap =
        let (d, status) = number.quantize (tagged_to_quad tp heap) number.zero_quad in
        let (value, out_of_range) = formats.strtol (number.to_string d) in
        if status.invalid_operation then none else if out_of_range then none else some value
