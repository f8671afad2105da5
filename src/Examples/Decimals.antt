-- ===== src/Examples/Decimals.antt =====
-- Decimals at concrete inputs, with codes for decimals: 0 is zero, an odd code is positive, any other
-- is negative.
use nballerina.Prelude.{
  ℕ, ◌+◌, ◌-◌, ◌*◌, ◌/◌, ◌%◌, ◌^◌, ◌≡◌, ◌⊎◌, inr, refl, arith, true, false, ◌==◌, ltb,
  if◌then◌else◌, List, [], ◌∷◌, some, ==_refl,
}
use nballerina.Compare.{int_compare}
use nballerina.Compare.Laws.{flip}
use nballerina.Convert.{Numbers, Doubles, convert_to_int, convert_to_decimal}
use nballerina.Convert.Integers.{IntegerFormats, convert_to_int-convert_to_decimal}
use nballerina.Decimal.{
  pos_zero, pos_normal, neg_normal, Status, Number, Formats, Decimals, decimal_add, decimal_sub,
  decimal_mul, decimal_div, decimal_rem, decimal_neg, decimal_cmp, decimal_subtype_contains,
}
use nballerina.Decimal.Order.{
  Compares, class_of, DecimalAnswers, numeric_compare, decimal_subtype_contains-DecimalAnswers,
  decimal_cmp-flip,
}
use nballerina.Decimal.Results.{Arithmetic, GivesResult, Boxed, decimal_arithmetic_results}
use nballerina.Prelude.{lt→ltb}
use nballerina.Run.{Returns}
use nballerina.Subtype.{tid_order}
use nballerina.Tagged.{TaggedPtr, uniform_type, tag_decimal, tag_int}
use nballerina.Tagged.Ints.{int_to_tagged, tagged_to_int}

abbrev pub clear : Status
clear = record {
  division_by_zero = false;
  overflow = false;
  underflow = false;
  invalid_operation = false;
  other_invalid = false;
}

abbrev pub by_zero : Status
by_zero = record {
  division_by_zero = true;
  overflow = false;
  underflow = false;
  invalid_operation = false;
  other_invalid = false;
}

abbrev pub head_or_zero : List ℕ → ℕ
head_or_zero [] = 0
head_or_zero (c ∷ cs) = c

abbrev pub codes : Number ℕ
codes = record {
  class = λ d. if d == 0 then pos_zero else if d % 2 == 1 then pos_normal else neg_normal;
  zero_quad = 0;
  add = λ a b. (a + b, clear);
  subtract = λ a b. (a - b, clear);
  multiply = λ a b. (a * b, clear);
  divide = λ a b. if b == 0 then (1, by_zero) else (a / b, clear);
  remainder = λ a b. if b == 0 then (1, by_zero) else (a % b, clear);
  compare_quad = λ a b. if a == b then 0 else if ltb a b then 2 else 1;
  quantize = λ a b. (a, clear);
  copy_negate = λ d. if d % 2 == 1 then d + 1 else d - 1;
  reduce = λ d. d;
  canonical_equal = ◌==◌;
  from_int32 = λ n. n;
  from_string = head_or_zero;
  to_string = λ d. d ∷ [];
}

codes-Arithmetic : Arithmetic codes
codes-Arithmetic = record {
  zero = refl;
  add = λ a b h k e. ground arith;
  subtract = λ a b h k e. ground arith;
  multiply = λ a b h k e. ground arith;
  divide = λ a b h k e. ground arith;
  remainder = λ a b h k e. ground arith;
  negated = λ d h k. ground arith;
}

abbrev two_decimals : Decimals ℕ
two_decimals = record { next = 48; at = λ a. if a == 16 then 7 else 4 }

abbrev seven : TaggedPtr
seven = tag_decimal * 2 ^ 56 + 16

abbrev four : TaggedPtr
four = tag_decimal * 2 ^ 56 + 32

decimal_arithmetic_results_example :
    GivesResult codes two_decimals seven four codes.add (decimal_add codes seven four two_decimals)
    × GivesResult codes two_decimals seven four codes.subtract
        (decimal_sub codes seven four two_decimals)
    × GivesResult codes two_decimals seven four codes.multiply
        (decimal_mul codes seven four two_decimals)
    × GivesResult codes two_decimals seven four codes.divide
        (decimal_div codes seven four two_decimals)
    × GivesResult codes two_decimals seven four codes.remainder
        (decimal_rem codes seven four two_decimals)
    × (Boxed codes two_decimals
          ((decimal_neg codes seven two_decimals).0)
          ((decimal_neg codes seven two_decimals).1)
        ⊎ (decimal_neg codes seven two_decimals ≡ (seven, two_decimals)))
decimal_arithmetic_results_example =
    decimal_arithmetic_results codes codes-Arithmetic two_decimals (refl, omega arith) seven four
      refl refl

pub codes-Compares : Compares codes tid_order
unfolding class_of
codes-Compares a b = ground arith

decimal_subtype_contains-DecimalAnswers_example :
    Returns
      (decimal_subtype_contains codes 3 (λ i. i + 5) true seven two_decimals)
      (DecimalAnswers tid_order 3 (λ i. i + 5) true 7)
decimal_subtype_contains-DecimalAnswers_example =
    decimal_subtype_contains-DecimalAnswers codes tid_order codes-Compares 3 (λ i. i + 5) true seven
      two_decimals (λ i j h k. lt→ltb _ _ (omega arith)) (λ i h. refl) refl

decimal_cmp-flip_example :
    (int_compare (decimal_cmp codes seven four two_decimals) 0 ≡ numeric_compare tid_order 7 4)
    × (int_compare (decimal_cmp codes four seven two_decimals) 0
        ≡ flip (int_compare (decimal_cmp codes seven four two_decimals) 0))
decimal_cmp-flip_example =
    decimal_cmp-flip codes tid_order codes-Compares (λ d h. ==_refl d) seven four two_decimals refl
      refl

abbrev numerals : Formats
numerals = record {
  is_nan = λ d. false;
  is_inf = λ d. false;
  is_zero = λ d. d == 0;
  print_int = λ n. n ∷ [];
  print_double = λ d. d ∷ [];
  strtol = λ text. (head_or_zero text, false);
  strtod = head_or_zero;
}

numerals-IntegerFormats : IntegerFormats codes numerals
numerals-IntegerFormats = record {
  from_int32 = λ n h k. (refl, refl);
  from_string = λ n h. (refl, refl);
  strtol = λ n h. refl;
}

abbrev whole_doubles : Doubles
whole_doubles = record { float_to_int = λ d. some d; int_to_double = λ n. n }

abbrev numbers : Numbers ℕ
numbers = record {
  ints = record { next = 64; at = λ a. 0 };
  floats = record { next = 128; at = λ a. 0 };
  decimals = two_decimals;
}

convert_to_int-convert_to_decimal_example :
    (p q : TaggedPtr) × (heap₁ heap₂ : Numbers ℕ) × (convert_to_decimal codes numerals whole_doubles
        ((int_to_tagged (2 ^ 60) numbers.ints).0)
        (record numbers { ints = (int_to_tagged (2 ^ 60) numbers.ints).1 })
      ≡ (inr p, heap₁))
    × (uniform_type p ≡ tag_decimal)
    × (convert_to_int codes numerals whole_doubles p heap₁ ≡ (some q, heap₂))
    × (uniform_type q ≡ tag_int)
    × (tagged_to_int q heap₂.ints ≡ 2 ^ 60)
convert_to_int-convert_to_decimal_example =
    convert_to_int-convert_to_decimal codes numerals numerals-IntegerFormats whole_doubles (2 ^ 60)
      numbers (omega arith) refl (omega arith) refl (omega arith)
