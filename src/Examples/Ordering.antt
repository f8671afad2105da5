-- ===== src/Examples/Ordering.antt =====
-- The order of two strings: "abcdefghij" and "abcdzfghijk".
use nballerina.Prelude.{
  ℕ, zero, suc, true, false, ◌+◌, ◌*◌, ◌^◌, ◌<◌, ◌≡◌, inl, inr, refl, ap, ◌∙◌, arith, ltb, ◌==◌,
  if◌then◌else◌, lt-or-le,
}
use nballerina.Compare.{compare_lt, int_compare}
use nballerina.Compare.Lists.{lexicographic}
use nballerina.Strings.{Words, string_word, tagged_string_is_char, tagged_string_length}
use nballerina.Run.{Returns}
use nballerina.Strings.Bytes.{order, or_else, bytes_compare}
use nballerina.Strings.Lexicographic.{Padded}
use nballerina.Strings.Contains.{StringAnswers, string_subtype_contains-StringAnswers}
use nballerina.Strings.Order.{minus_one, string_cmp, string_subtype_contains}
use nballerina.Strings.Ordered.{string_bytes, IsString, ComparesBytes, string_cmp-lexicographic}
use nballerina.Tagged.{TaggedPtr}

abbrev two_texts : Words
two_texts a =
    if a == 64
    then 0x64636261000a000a
    else if a == 72
    then 0x6a6968676665
    else if a == 128
    then 0x64636261000b000b
    else if a == 136
    then 0x6b6a696867667a
    else 0

abbrev text : (address : ℕ) → TaggedPtr
text address = 5 * 2 ^ 56 + address

unfoldable memcmp_from : (rounds i : ℕ) → (f g : ℕ → ℕ) → ℕ
memcmp_from zero i f g = 0
memcmp_from (suc rounds) i f g =
    let rest = memcmp_from rounds (suc i) f g in
    if f i == g i then rest else if ltb (f i) (g i) then minus_one else 1

abbrev memcmp : (f g : ℕ → ℕ) → (n : ℕ) → ℕ
memcmp f g n = memcmp_from n 0 f g

memcmp_step :
    (x y rest : ℕ)
    → int_compare (if x == y then rest else if ltb x y then minus_one else 1) 0
      ≡ or_else (order x y) (int_compare rest 0)
unfolding int_compare
memcmp_step x y rest = ground arith

memcmp_from-bytes_compare :
    (n i : ℕ) (f g : ℕ → ℕ) → int_compare (memcmp_from n i f g) 0 ≡ bytes_compare n i f g
unfolding memcmp_from bytes_compare int_compare
memcmp_from-bytes_compare zero i f g = refl
memcmp_from-bytes_compare (suc n) i f g =
    memcmp_step (f i) (g i) (memcmp_from n (suc i) f g)
    ∙ ap (or_else (order (f i) (g i))) (memcmp_from-bytes_compare n (suc i) f g)

memcmp-ComparesBytes : ComparesBytes memcmp
memcmp-ComparesBytes f g n h k = memcmp_from-bytes_compare n 0 f g

two_texts-lt : (a : ℕ) → two_texts a < 2 ^ 64
two_texts-lt a = ground arith

first-Padded : Padded 4 10 (string_word two_texts (text 64))
first-Padded = record {
  words = λ j. two_texts-lt (64 + 8 * j);
  zeros = λ k h l. elim (lt-or-le k 15) [
    | inl lt ↦ let at : k ≡ 14 = omega arith in rw at refl
    | inr ge ↦ let at : k ≡ 15 = omega arith in rw at refl
  ];
}

second-Padded : Padded 4 11 (string_word two_texts (text 128))
second-Padded = record {
  words = λ j. two_texts-lt (128 + 8 * j);
  zeros = λ k h l. (let at : k ≡ 15 = omega arith in rw at refl);
}

first-IsString : IsString two_texts (text 64)
first-IsString = record { immediate = λ e. cc; medium = λ e f. first-Padded; large = λ e f. cc }

second-IsString : IsString two_texts (text 128)
second-IsString = record { immediate = λ e. cc; medium = λ e f. second-Padded; large = λ e f. cc }

string_cmp-lexicographic_example :
    int_compare (string_cmp memcmp two_texts (text 64) (text 128)) 0
    ≡ lexicographic (string_bytes two_texts (text 64)) (string_bytes two_texts (text 128))
string_cmp-lexicographic_example =
    string_cmp-lexicographic memcmp memcmp-ComparesBytes two_texts (text 64) (text 128)
      first-IsString second-IsString

abbrev both_texts : ℕ → TaggedPtr
both_texts zero = text 64
both_texts (suc i) = text 128

both_texts-IsString : (i : ℕ) → i < 2 → IsString two_texts (both_texts i)
both_texts-IsString zero h = first-IsString
both_texts-IsString (suc i) h = second-IsString

texts_sorted :
    lexicographic (string_bytes two_texts (text 64)) (string_bytes two_texts (text 128))
    ≡ compare_lt
unfolding lexicographic int_compare tagged_string_length
texts_sorted = refl

string_subtype_contains-StringAnswers_example :
    Returns (string_subtype_contains memcmp two_texts 2 both_texts false true (text 128)) (
      StringAnswers two_texts 2 both_texts
        (if tagged_string_is_char (text 128) then false else true)
        (text 128))
string_subtype_contains-StringAnswers_example =
    string_subtype_contains-StringAnswers memcmp memcmp-ComparesBytes two_texts 2 both_texts
      (text 128) both_texts-IsString second-IsString false true
      (λ i j lt small.
        (let first : i ≡ 0 = omega arith in
          let second : j ≡ 1 = omega arith in rw (first, second) texts_sorted))
