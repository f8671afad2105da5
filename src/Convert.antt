-- ===== src/Convert.antt =====
-- Conversions between the numeric types (runtime/convert.c).
pub mod Integers
use nballerina.Prelude.{ℕ, Bool, ◌==◌, ◌⊎◌, inl, inr, if◌then◌else◌, Option, none, some}
use nballerina.Decimal.{
  Number, Formats, Decimals, Outcome, decimal_to_float, decimal_to_int, decimal_from_int,
  decimal_from_float,
}
use nballerina.Tagged.{TaggedPtr, uniform_type, tag_int, tag_float, tag_decimal}
use nballerina.Tagged.Ints.{Boxes, int_to_tagged, tagged_to_int}
use nballerina.Tagged.Floats.{float_to_tagged, tagged_to_float}

-- the boxes of the three numeric types
pub record Numbers (D : Type 0) : Type 0 where
  pub ints : Boxes
  pub floats : Boxes
  pub decimals : Decimals D

-- `_bal_float_to_int`, and the conversion of an int64_t to a double
pub record Doubles : Type 0 where
  pub float_to_int : ℕ → Option ℕ
  pub int_to_double : ℕ → ℕ

module _ {D : Type 0} (number : Number D) (formats : Formats) (doubles : Doubles) where
  unfoldable pub convert_to_float : TaggedPtr → Numbers D → TaggedPtr × Numbers D
  unfolding float_to_tagged tagged_to_int
  convert_to_float tp heap =
      let boxed : ℕ → TaggedPtr × Numbers D = λ d.
        (let (p, floats) = float_to_tagged d heap.floats in (p, record heap { floats = floats })) in
      if uniform_type tp == tag_int
      then boxed (doubles.int_to_double (tagged_to_int tp heap.ints))
      else if uniform_type tp == tag_decimal
      then boxed (decimal_to_float number formats tp heap.decimals)
      else (tp, heap)

  -- `TaggedWithOverflow`: `none` is an overflow
  unfoldable pub tagged_with_overflow : Option ℕ → Numbers D → Option TaggedPtr × Numbers D
  unfolding int_to_tagged
  tagged_with_overflow none heap = (none, heap)
  tagged_with_overflow (some n) heap =
      let (p, ints) = int_to_tagged n heap.ints in (some p, record heap { ints = ints })

  unfoldable pub convert_to_int : TaggedPtr → Numbers D → Option TaggedPtr × Numbers D
  unfolding tagged_with_overflow decimal_to_int
  convert_to_int tp heap =
      if uniform_type tp == tag_float
      then tagged_with_overflow (doubles.float_to_int (tagged_to_float tp heap.floats)) heap
      else if uniform_type tp == tag_decimal
      then tagged_with_overflow (decimal_to_int number formats tp heap.decimals) heap
      else (some tp, heap)

  unfoldable pub convert_to_decimal : TaggedPtr → Numbers D → Outcome × Numbers D
  unfolding decimal_from_int decimal_from_float tagged_to_int
  convert_to_decimal tp heap =
      if uniform_type tp == tag_int
      then (let (p, decimals) =
            decimal_from_int number formats (tagged_to_int tp heap.ints) heap.decimals in
          (inr p, record heap { decimals = decimals }))
      else if uniform_type tp == tag_float
      then (let (out, decimals) =
            decimal_from_float number formats (tagged_to_float tp heap.floats) heap.decimals in
          (out, record heap { decimals = decimals }))
      else (inr tp, heap)
