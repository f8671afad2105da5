-- ===== src/Examples/Cycles.antt =====
-- Equality of two lists of which each is its own only member.
use nballerina.Prelude.{◌+◌, ◌*◌, ◌^◌, ◌≡◌, ◌↔◌, refl, arith, true, ◌==◌, if◌then◌else◌, [], ◌∷◌}
use nballerina.Equality.{
  Memory, EqStack, on_stack, bal_eq, tagged_ptr_eq, list_eq_internal, members_equal, and_also,
}
use nballerina.Equality.Alike.{Sane, AlwaysAlike}
use nballerina.Equality.Decides.{bal_eq-AlwaysAlike}
use nballerina.Equality.Ends.{Closed, bal_eq-Returns}
use nballerina.Examples.Maps.{short_keys, one_field, one_field-IsValid}
use nballerina.Run.{done, Returns}
use nballerina.Tagged.{TaggedPtr, tag_list, tagged_to_ptr}

abbrev loops : Memory
loops = record {
  key = short_keys;
  int_at = λ a. 0;
  double_at = λ a. 0;
  float_eq = λ x y. x == y;
  float_exact_eq = λ x y. x == y;
  decimal_cmp = λ a b. if a == b then 0 else 1;
  decimal_exact_eq = λ a b. a == b;
  list_length = λ a. 1;
  get = λ p i. tag_list * 2 ^ 56 + tagged_to_ptr p;
  mapping_at = λ a. one_field;
}

loops-Sane : Sane loops
loops-Sane p t = one_field-IsValid

abbrev first_list : TaggedPtr
first_list = 0x0c00000000000008

abbrev second_list : TaggedPtr
second_list = 0x0c00000000000010

abbrev both : EqStack
both = (first_list, second_list) ∷ []

both-Closed : Closed loops both
unfolding on_stack
both-Closed = record {
  members = λ a b i on s t h k. ground arith;
  values = λ a b i j on s t h k. absurd (ground arith);
}

both_equal : bal_eq loops 2 first_list second_list ≡ done true
unfolding bal_eq tagged_ptr_eq list_eq_internal members_equal and_also on_stack
both_equal = refl

bal_eq-AlwaysAlike_example : (true ≡ true) ↔ AlwaysAlike loops first_list second_list
bal_eq-AlwaysAlike_example =
    bal_eq-AlwaysAlike loops loops-Sane 2 first_list second_list true both_equal

both_there : on_stack first_list second_list both ≡ true
unfolding on_stack
both_there = refl

bal_eq-Returns_example :
    Returns
      (bal_eq loops 2 first_list second_list)
      (λ r. (r ≡ true) ↔ AlwaysAlike loops first_list second_list)
bal_eq-Returns_example =
    bal_eq-Returns loops loops-Sane both both-Closed first_list second_list both_there
