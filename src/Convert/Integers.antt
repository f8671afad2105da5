-- ===== src/Convert/Integers.antt =====
-- Integers converted to decimals and back.
use nballerina.Prelude.{
  ℕ, ◌+◌, ◌-◌, ◌%◌, ◌^◌, ◌<◌, ◌≡◌, inl, inr, arith, true, false, ◌&&◌, Bool-cases, some, ==_refl,
}
use nballerina.Convert.{Numbers, Doubles, tagged_with_overflow, convert_to_int, convert_to_decimal}
use nballerina.Decimal.{
  Number, Formats, Decimals, create_decimal, tagged_to_quad, decimal_from_int, decimal_to_int,
}
use nballerina.Tagged.{
  TaggedPtr, uniform_type, tag_int, tag_decimal, tagged_to_ptr, ptr_add_shifted_tag,
}
use nballerina.Tagged.Ints.{
  Boxes, IsAligned, int_to_tagged, tagged_to_int, tagged_to_int-int_to_tagged,
  uniform_type-int_to_tagged,
}
use nballerina.Word.{word, le_signed}

module _ {D : Type 0} (number : Number D) (formats : Formats) where
  -- the decimal is written as the integer is, once it is made integral
  abbrev pub Shows : D → (n : ℕ) → Type 0
  Shows d n =
      (number.to_string ((number.quantize d number.zero_quad).0) ≡ formats.print_int n)
      × (((number.quantize d number.zero_quad).1).invalid_operation ≡ false)

  -- what decNumber and the C library document of integers
  pub record IntegerFormats : Type 0 where
    pub from_int32 :
        (n : ℕ)
        → n < word
        → (le_signed (2 ^ 64 - 2 ^ 31) n && le_signed n (2 ^ 31 - 1)) ≡ true
        → Shows (number.from_int32 n) n
    pub from_string : (n : ℕ) → n < word → Shows (number.from_string (formats.print_int n)) n
    pub strtol : (n : ℕ) → n < word → formats.strtol (formats.print_int n) ≡ (n, false)

  -- a decimal that is written as `n` stands in the box
  pub record Holds (n : ℕ) (p : TaggedPtr) (decimals : Decimals D) : Type 0 where
    pub decimal : uniform_type p ≡ tag_decimal
    pub shows : Shows (tagged_to_quad p decimals) n

  module _ (laws : IntegerFormats) where
    decimal_from_int-Holds :
        (n : ℕ) (heap : Decimals D)
        → n < word
        → heap.next % 8 ≡ 0
        → heap.next < 2 ^ 56
        → Holds n
            ((decimal_from_int number formats n heap).0)
            ((decimal_from_int number formats n heap).1)
    unfolding decimal_from_int create_decimal
    decimal_from_int-Holds n heap h aligned low =
        let address : tagged_to_ptr (ptr_add_shifted_tag heap.next tag_decimal) ≡ heap.next =
          omega arith in
        elim (Bool-cases (le_signed (2 ^ 64 - 2 ^ 31) n && le_signed n (2 ^ 31 - 1))) [
          | inl e ↦ record {
            decimal = omega arith;
            shows = rw (address, ==_refl heap.next, e) (laws.from_int32 n h e);
          }
          | inr e ↦ record {
            decimal = omega arith;
            shows = rw (address, ==_refl heap.next, e) (laws.from_string n h);
          }
        ]

    decimal_to_int-Holds :
        (n : ℕ) (p : TaggedPtr) (heap : Decimals D)
        → n < word
        → Holds n p heap
        → decimal_to_int number formats p heap ≡ some n
    unfolding decimal_to_int
    decimal_to_int-Holds n p heap h holds = rw (holds.shows.0, holds.shows.1, laws.strtol n h)

    -- a conversion to a decimal reads the integer, and one to an integer the decimal
    to_decimal :
        (doubles : Doubles) (n : ℕ) (tp : TaggedPtr) (heap : Numbers D)
        → uniform_type tp ≡ tag_int
        → tagged_to_int tp heap.ints ≡ n
        → convert_to_decimal number formats doubles tp heap ≡ (
          inr ((decimal_from_int number formats n heap.decimals).0),
          record heap { decimals = (decimal_from_int number formats n heap.decimals).1 },
        )
    unfolding convert_to_decimal
    to_decimal doubles n tp heap t at = rw (t, at)

    to_int :
        (doubles : Doubles) (n : ℕ) (p : TaggedPtr) (heap : Numbers D)
        → n < word
        → Holds n p heap.decimals
        → convert_to_int number formats doubles p heap ≡ (
          some ((int_to_tagged n heap.ints).0),
          record heap { ints = (int_to_tagged n heap.ints).1 },
        )
    unfolding convert_to_int tagged_with_overflow
    to_int doubles n p heap h holds =
        rw (holds.decimal, decimal_to_int-Holds n p heap.decimals h holds)

    boxed_next :
        (n : ℕ) (b : Boxes)
        → b.next % 8 ≡ 0
        → b.next + 8 < 2 ^ 56
        → IsAligned ((int_to_tagged n b).1)
    unfolding int_to_tagged
    boxed_next n b h k = ground arith

    -- Where decNumber writes the decimal of an integer as the integer is printed, and `strtol`
    -- reads that, `_bal_convert_to_decimal` of a tagged int64 gives a decimal, and
    -- `_bal_convert_to_int` of it an int with the same value, on both ways of
    -- `_bal_decimal_from_int`, if the next boxes are aligned and below 2 ^ 56
    pub convert_to_int-convert_to_decimal :
        (doubles : Doubles) (n : ℕ) (heap : Numbers D)
        → n < word
        → heap.ints.next % 8 ≡ 0
        → heap.ints.next + 8 < 2 ^ 56
        → heap.decimals.next % 8 ≡ 0
        → heap.decimals.next < 2 ^ 56
        → (p q : TaggedPtr) × (heap₁ heap₂ : Numbers D) × (convert_to_decimal number formats doubles
              ((int_to_tagged n heap.ints).0)
              (record heap { ints = (int_to_tagged n heap.ints).1 })
            ≡ (inr p, heap₁))
          × (uniform_type p ≡ tag_decimal)
          × (convert_to_int number formats doubles p heap₁ ≡ (some q, heap₂))
          × (uniform_type q ≡ tag_int)
          × (tagged_to_int q heap₂.ints ≡ n)
    convert_to_int-convert_to_decimal doubles n heap h a b c d =
        let (tp, ints) = int_to_tagged n heap.ints in
        let start : Numbers D = record heap { ints = ints } in
        let (p, decimals) = decimal_from_int number formats n heap.decimals in
        let holds = decimal_from_int-Holds n heap.decimals h c d in
        let here : IsAligned heap.ints = (a, omega arith) in
        let next : IsAligned ints = boxed_next n heap.ints a b in
        let (q, ints') = int_to_tagged n ints in
        (
          p,
          q,
          record start { decimals = decimals },
          record start { decimals = decimals; ints = ints' },
          to_decimal doubles n tp start (uniform_type-int_to_tagged n heap.ints h here)
              (tagged_to_int-int_to_tagged n heap.ints h here),
          holds.decimal,
          to_int doubles n p (record start { decimals = decimals }) h holds,
          uniform_type-int_to_tagged n ints h next,
          tagged_to_int-int_to_tagged n ints h next,
        )
