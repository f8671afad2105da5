-- ===== src/Examples/Values.antt =====
-- Tagged values, member types, arrays and lists at concrete inputs.
use nballerina.Prelude.{ℕ, ◌+◌, ◌*◌, ◌-◌, ◌^◌, ◌<◌, ◌≡◌, ◌↔◌, refl, arith, true, ◌==◌, some}
use nballerina.Array.{GenericArray, IsValid, array_grow}
use nballerina.Array.Access.{view}
use nballerina.Array.Growth.{Grown, array_grow-Grown}
use nballerina.List.Reads.{
  list_int_array_get_tagged, list_int_array_get_tagged-list_int_array_set_int,
}
use nballerina.List.Scalar.{scalar_set, list_int_array_set_int}
use nballerina.List.Scalar.Refines.{scalar_spec, scalar_set-Refined}
use nballerina.List.Scalar.Refines as Scalars
use nballerina.List.Sound.{Refined, list_generic_set_tagged-Refined}
use nballerina.List.Spec.{set_spec}
use nballerina.List.Stores.{FillerDesc, ListDesc, list_generic_set_tagged}
use nballerina.MemberType.{
  ComplexType, MemberType, simple, complex, bit, popcount, member_type_contains_tagged,
  bitset_member_type, member_type_is_subtype_simple, member_type_is_supertype_simple, subtype_index,
  word_and_not, word_or,
}
use nballerina.MemberType.Laws.{
  member_type_is_subtype_simple_sound, bitset_member_type_contains,
  member_type_is_supertype_simple_sound, subtype_index_lem,
}
use nballerina.Run.{Returns}
use nballerina.Tagged.{TaggedPtr, nil, tagged_true, tag_int, uniform_type}
use nballerina.Tagged.Ints.{
  Boxes, int_to_tagged, tagged_to_int, tagged_to_int-int_to_tagged, uniform_type-int_to_tagged,
}

abbrev no_boxes : Boxes
no_boxes = record { next = 64; at = λ _. 0 }

-- an integer that has to be boxed
abbrev large_int : ℕ
large_int = 2 ^ 60

tagged_to_int-int_to_tagged_example :
    tagged_to_int (int_to_tagged large_int no_boxes).0 (int_to_tagged large_int no_boxes).1
    ≡ large_int
tagged_to_int-int_to_tagged_example =
    tagged_to_int-int_to_tagged large_int no_boxes (omega arith) (omega arith, omega arith)

uniform_type-int_to_tagged_example : uniform_type (int_to_tagged large_int no_boxes).0 ≡ tag_int
uniform_type-int_to_tagged_example =
    uniform_type-int_to_tagged large_int no_boxes (omega arith) (omega arith, omega arith)

-- the memory of the fillers' creator: how many it has made
abbrev counting : FillerDesc ℕ
counting h = (nil, true, h + 1)

abbrev any_list : ListDesc ℕ
any_list = record {
  tid = 1;
  n_member_types = 0;
  min_length = 0;
  rest_type = simple (2 ^ 33 - 1);
  filler_desc = some counting;
  member_types = λ _. simple 1;
}

abbrev junk : ℕ → TaggedPtr
junk i = 999

abbrev two_members : GenericArray TaggedPtr
two_members = record { length = 2; capacity = 4; members = record { size = 32; cell = λ i. i } }

two_members-IsValid : IsValid 3 two_members
two_members-IsValid = record { fits = omega arith; small = omega arith; sized = refl }

list_generic_set_tagged-Refined_example :
    Returns
      (list_generic_set_tagged junk 64 any_list 9 tagged_true two_members 0)
      (Refined (set_spec 64 any_list 9 tagged_true (view two_members) 0))
list_generic_set_tagged-Refined_example =
    list_generic_set_tagged-Refined junk 64 any_list 9 tagged_true two_members 0 two_members-IsValid
      (omega arith)

scalar_set-Refined_example :
    Returns
      (scalar_set junk 3 9 5 two_members)
      (Scalars.Refined 3 (scalar_spec 9 5 (view two_members)))
scalar_set-Refined_example =
    scalar_set-Refined junk 3 (omega arith) 9 5 two_members two_members-IsValid

array_grow-Grown_example : Returns (array_grow junk two_members 5 3) (Grown junk 3 5 two_members)
array_grow-Grown_example =
    array_grow-Grown junk 3 (omega arith) 5 two_members two_members-IsValid (omega arith)
      (omega arith)

-- integers and some booleans
abbrev int_or_true : MemberType ℕ
int_or_true = complex (record { all = 4; some_of = 2; subtypes = λ _ h p. p == tagged_true })

contains_true : member_type_contains_tagged int_or_true 0 tagged_true ≡ true
unfolding member_type_contains_tagged
contains_true = refl

subtype_of_six : member_type_is_subtype_simple int_or_true 6 ≡ true
unfolding member_type_is_subtype_simple word_and_not word_or
subtype_of_six = refl

member_type_is_subtype_simple_sound_example : bit 6 (uniform_type tagged_true) ≡ 1
member_type_is_subtype_simple_sound_example =
    member_type_is_subtype_simple_sound int_or_true 6 0 tagged_true subtype_of_six contains_true

bitset_member_type_contains_example :
    (member_type_contains_tagged {H = ℕ} (bitset_member_type 6) 0 tagged_true ≡ true)
    ↔ (bit 6 (uniform_type tagged_true) ≡ 1)
bitset_member_type_contains_example = bitset_member_type_contains 6 0 tagged_true (omega arith)

supertype_of_two : member_type_is_supertype_simple {H = ℕ} (bitset_member_type 6) 2 ≡ true
unfolding member_type_is_supertype_simple word_and_not bitset_member_type
supertype_of_two = refl

member_type_is_supertype_simple_sound_example :
    member_type_contains_tagged {H = ℕ} (bitset_member_type 6) 0 tagged_true ≡ true
member_type_is_supertype_simple_sound_example =
    member_type_is_supertype_simple_sound 6 2 0 tagged_true (omega arith) supertype_of_two refl

abbrev two_partial : ComplexType ℕ
two_partial = record { all = 0; some_of = 6; subtypes = λ _ h p. true }

subtype_index_lem_example :
    (subtype_index two_partial 1 < popcount 32 6)
    × (subtype_index two_partial 1 < subtype_index two_partial 2)
subtype_index_lem_example = subtype_index_lem two_partial 1 2 (omega arith) refl (omega arith)

abbrev exact_list : TaggedPtr
exact_list = 0xc * 2 ^ 56 + 68

list_int_array_get_tagged-list_int_array_set_int_example :
    Returns (list_int_array_set_int junk 1 large_int two_members) (λ r.
      (r.0 ≡ 0)
      × Returns (list_int_array_get_tagged r.1 1 no_boxes) (λ t. tagged_to_int t.0 t.1 ≡ large_int))
list_int_array_get_tagged-list_int_array_set_int_example =
    list_int_array_get_tagged-list_int_array_set_int junk 1 large_int two_members no_boxes
      two_members-IsValid (omega arith) (omega arith) (omega arith, omega arith)
