-- ===== src/Equality/Heap.antt =====
-- The memory that equality reads, made of the strings, decimals, lists and mappings of the other
-- modules. The equalities of doubles are those of runtime/float_ll_inline.ll, on 64-bit patterns.
use nballerina.Prelude.{ℕ, ◌*◌, ◌%◌, ◌^◌, Bool, not, ltb, ◌==◌, ◌&&◌, ◌||◌}
use nballerina.Array.{GenericArray}
use nballerina.Decimal.{Number, Decimals, decimal_cmp, decimal_exact_eq}
use nballerina.Equality.{Memory}
use nballerina.List.Reads.{
  list_generic_get_tagged, list_int_array_get_tagged, list_byte_array_get_tagged,
  list_float_array_get_tagged,
}
use nballerina.Mapping.Table.{Mapping}
use nballerina.Run.{Run, done, panicked, fault, diverged}
use nballerina.Strings.{Words, HashKey}
use nballerina.Strings.Keys.{string_key}
use nballerina.Tagged.{TaggedPtr, tagged_to_ptr}
use nballerina.Tagged.Ints.{Boxes}

-- `fcmp uno double x, 0.0`: the exponent has all bits and the rest is not zero
unfoldable pub is_nan : (x : ℕ) → Bool
is_nan x = ltb (2047 * 2 ^ 52) (x % 2 ^ 63)

-- `fcmp oeq double x, y`: the two zeros are equal
unfoldable pub ordered_equal : (x y : ℕ) → Bool
unfolding is_nan
ordered_equal x y =
    not (is_nan x) && not (is_nan y) && ((x == y) || ((x % 2 ^ 63 == 0) && (y % 2 ^ 63 == 0)))

unfoldable pub float_eq : (x y : ℕ) → Bool
unfolding ordered_equal is_nan
float_eq x y = ordered_equal x y || (is_nan x && is_nan y)

unfoldable pub float_exact_eq : (x y : ℕ) → Bool
unfolding is_nan
float_exact_eq x y = (is_nan x && is_nan y) || (x == y)

-- the members of a list in the representation of its descriptor
pub data ListMembers : Type 0 where
  generic_members : GenericArray TaggedPtr → ListMembers
  int_members : GenericArray ℕ → ListMembers
  byte_members : GenericArray ℕ → ListMembers
  float_members : GenericArray ℕ → ListMembers

abbrev pub members_length : ListMembers → ℕ
members_length (generic_members ap) = ap.length
members_length (int_members ap) = ap.length
members_length (byte_members ap) = ap.length
members_length (float_members ap) = ap.length

-- the pointer that a read gives; the callers read inside of the list
abbrev pub pointer_read : Run TaggedPtr → TaggedPtr
pointer_read (done tp) = tp
pointer_read (panicked code) = 0
pointer_read fault = 0
pointer_read diverged = 0

abbrev pub pointer_made : Run (TaggedPtr × Boxes) → TaggedPtr
pointer_made (done result) = result.0
pointer_made (panicked code) = 0
pointer_made fault = 0
pointer_made diverged = 0

-- `_bal_list_generic_get_tagged` and the other functions that a descriptor names as its `get`
unfoldable pub get_tagged : ListMembers → (index : ℕ) → (ints doubles : Boxes) → TaggedPtr
get_tagged (generic_members ap) index ints doubles = pointer_read (list_generic_get_tagged ap index)
get_tagged (int_members ap) index ints doubles =
    pointer_made (list_int_array_get_tagged ap index ints)
get_tagged (byte_members ap) index ints doubles =
    pointer_made (list_byte_array_get_tagged ap index ints)
get_tagged (float_members ap) index ints doubles =
    pointer_made (list_float_array_get_tagged ap index doubles)

-- What stands at the addresses. A read of an int or a float of a list through a pointer may make a
-- box, at the address `box`.
pub record Heap (D : Type 0) : Type 0 where
  pub hash_key : HashKey
  pub words : Words
  pub ints : ℕ → ℕ
  pub doubles : ℕ → ℕ
  pub decimals : Decimals D
  pub list_at : ℕ → ListMembers
  pub mapping_at : ℕ → Mapping
  pub box : (p : TaggedPtr) (index : ℕ) → ℕ

module _ {D : Type 0} (number : Number D) (heap : Heap D) where
  abbrev pub int_boxes : (p : TaggedPtr) (index : ℕ) → Boxes
  int_boxes p index = record { next = heap.box p index; at = heap.ints }

  abbrev pub float_boxes : (p : TaggedPtr) (index : ℕ) → Boxes
  float_boxes p index = record { next = heap.box p index; at = heap.doubles }

  abbrev pub memory_of : Memory
  memory_of = record {
    key = string_key heap.hash_key heap.words;
    int_at = heap.ints;
    double_at = heap.doubles;
    float_eq = float_eq;
    float_exact_eq = float_exact_eq;
    decimal_cmp = λ a b. decimal_cmp number a b heap.decimals;
    decimal_exact_eq = λ a b. decimal_exact_eq number a b heap.decimals;
    list_length = λ address. members_length (heap.list_at address);
    get = λ p i. get_tagged (heap.list_at (tagged_to_ptr p)) i (int_boxes p i) (float_boxes p i);
    mapping_at = heap.mapping_at;
  }
