-- ===== src/Examples/Types.antt =====
-- Subtype tests at concrete inputs.
use nballerina.Prelude.{
  ℕ, ◌+◌, ◌*◌, ◌^◌, ◌≤◌, ◌<◌, ◌≡◌, refl, arith, true, false, not, ltb, ◌==◌, ◌&&◌, if◌then◌else◌,
  none, List, [], ◌∷◌,
}
use nballerina.List.Stores.{ListDesc, list_desc_allows_tagged_at}
use nballerina.Mapping.Methods.{MappingDesc}
use nballerina.MemberType.{
  UniformSubtype, simple, bit, word_and_not, bitset_member_type, member_type_contains_tagged,
  member_type_is_subtype_simple, member_type_is_supertype_simple,
}
use nballerina.Run.{Returns}
use nballerina.Subtype.{
  IntRange, int_range_list_contains, Order, tid_order, precomputed_subtype_contains,
  float_subtype_contains_float, array_subtype_contains, map_subtype_contains, EasyFunctionSubtype,
  FunctionDesc, function_subtype_contains,
}
use nballerina.Subtype.Ranges.{all_above, sorted, some_range, int_range_list_contains-some_range}
use nballerina.Subtype.Search.{
  Answers, FloatAnswers, IsSorted, precomputed_subtype_contains-Answers,
  float_subtype_contains_float-FloatAnswers,
}
use nballerina.Subtype.Structures.{
  IsDesc, some_ints, array_subtype_contains_sound, map_subtype_contains_sound,
  function_subtype_contains_sound, member_type_is_supertype_simple_partial,
}
use nballerina.Tagged.{TaggedPtr, uniform_type}

abbrev two_ranges : List IntRange
two_ranges = record { min = 1; max = 3 } ∷ record { min = 5; max = 9 } ∷ []

two_ranges-sorted : sorted two_ranges ≡ true
unfolding sorted all_above
two_ranges-sorted = refl

int_range_list_contains-some_range_example :
    int_range_list_contains two_ranges 4 ≡ some_range two_ranges 4
int_range_list_contains-some_range_example =
    int_range_list_contains-some_range two_ranges 4 two_ranges-sorted

abbrev odd_tids : ℕ → ℕ
odd_tids i = 2 * i + 1

odd_tids-ascending : (i j : ℕ) → i < j → j < 5 → odd_tids i < odd_tids j
odd_tids-ascending i j h k = omega arith

precomputed_subtype_contains-Answers_example :
    Returns (precomputed_subtype_contains 5 odd_tids 7) (Answers tid_order odd_tids 0 5 7)
precomputed_subtype_contains-Answers_example =
    precomputed_subtype_contains-Answers 5 odd_tids 7 odd_tids-ascending

-- numbers, of which 0 is no number
zero_nan : Order ℕ
zero_nan = record {
  equal = λ a b. (a == b) && not (a == 0);
  less = λ a b. ltb a b && not (a == 0);
  ordered = λ a. not (a == 0);
  less_trans = λ a b c h k. ground arith;
  less-equal = λ a b h. ground arith;
  equal_symm = λ a b. ground arith;
  less_total = λ a b h k l m. ground arith;
  unordered-equal = λ a b h. ground arith;
}

small_floats-IsSorted : IsSorted zero_nan 4 (λ i. i)
unfolding zero_nan
small_floats-IsSorted = record {
  some_float = omega arith;
  numbers = λ i h k. ground arith;
  ascending = λ i j h k l. ground arith;
}

float_subtype_contains_float-FloatAnswers_example :
    Returns
      (float_subtype_contains_float zero_nan 4 (λ i. i) false 2)
      (FloatAnswers zero_nan 4 (λ i. i) false 2)
float_subtype_contains_float-FloatAnswers_example =
    float_subtype_contains_float-FloatAnswers zero_nan 4 (λ i. i) false 2 small_floats-IsSorted

abbrev int_seven : TaggedPtr
int_seven = 0x22 * 2 ^ 56 + 7

abbrev int_list : ListDesc ℕ
int_list = record {
  tid = 1;
  n_member_types = 1;
  min_length = 3;
  rest_type = simple 9;
  filler_desc = none;
  member_types = λ _. simple 9;
}

int_list-IsDesc : IsDesc int_list
int_list-IsDesc = record {
  in_range = omega arith;
  min_length = omega arith;
  has_types = λ h. omega arith;
}

int_list_contained : array_subtype_contains 6 int_list ≡ true
unfolding array_subtype_contains member_type_is_subtype_simple word_and_not
int_list_contained = refl

int_list_allows : list_desc_allows_tagged_at int_list 0 2 int_seven ≡ true
unfolding list_desc_allows_tagged_at member_type_contains_tagged
int_list_allows = refl

array_subtype_contains_sound_example : bit 6 (uniform_type int_seven) ≡ 1
array_subtype_contains_sound_example =
    array_subtype_contains_sound 6 int_list 0 2 int_seven int_list-IsDesc int_list_contained
      int_list_allows

abbrev int_map : MappingDesc ℕ
int_map = record {
  tid = 1;
  n_fields = 1;
  rest_type = simple 9;
  filler_desc = none;
  field_types = λ _. simple 9;
}

abbrev map_pointer : TaggedPtr
map_pointer = 0xd * 2 ^ 56 + 64

int_map_contained : map_subtype_contains 6 map_pointer int_map ≡ true
unfolding map_subtype_contains member_type_is_subtype_simple word_and_not
int_map_contained = refl

int_map_allows :
    member_type_contains_tagged
      (if ltb 4 1 then int_map.field_types 4 else int_map.rest_type)
      0
      int_seven
    ≡ true
unfolding member_type_contains_tagged
int_map_allows = refl

map_subtype_contains_sound_example : bit 6 (uniform_type int_seven) ≡ 1
map_subtype_contains_sound_example =
    map_subtype_contains_sound 6 map_pointer int_map 0 4 int_seven int_map_contained int_map_allows

abbrev int_to_int : EasyFunctionSubtype
int_to_int = record { return_bit_set = 4; n_required_params = 1; param_bit_sets = λ _. 4 }

abbrev int_function : FunctionDesc ℕ
int_function = record {
  return_type = bitset_member_type 4;
  rest_type = bitset_member_type 0;
  n_required_params = 1;
  param_types = λ _. bitset_member_type 4;
}

abbrev function_pointer : TaggedPtr
function_pointer = 9 * 2 ^ 56 + 64

int_function_contained : function_subtype_contains int_to_int function_pointer int_function ≡ true
unfolding function_subtype_contains member_type_is_subtype_simple member_type_is_supertype_simple
    word_and_not bitset_member_type
int_function_contained = refl

function_subtype_contains_sound_example :
    (1 ≤ 1)
    × ((v : TaggedPtr)
        → member_type_contains_tagged (int_function.return_type) 0 v ≡ true
        → bit 4 (uniform_type v) ≡ 1)
    × ((i b : ℕ) (v : TaggedPtr)
        → i < 1
        → b < 2 ^ 32
        → (if ltb i 1 then bitset_member_type 4 else bitset_member_type {H = ℕ} 0)
          ≡ bitset_member_type b
        → bit 4 (uniform_type v) ≡ 1
        → member_type_contains_tagged (bitset_member_type {H = ℕ} b) 0 v ≡ true)
function_subtype_contains_sound_example =
    function_subtype_contains_sound int_to_int function_pointer int_function 0
      int_function_contained

abbrev no_ints : UniformSubtype ℕ
no_ints h p = false

member_type_is_supertype_simple_partial_example :
    (member_type_is_supertype_simple (some_ints no_ints) 4 ≡ true)
    × (member_type_contains_tagged (some_ints no_ints) 0 int_seven ≡ false)
member_type_is_supertype_simple_partial_example =
    member_type_is_supertype_simple_partial no_ints 0 int_seven refl refl
