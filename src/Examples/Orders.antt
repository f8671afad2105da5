-- ===== src/Examples/Orders.antt =====
-- Comparisons at concrete inputs.
use nballerina.Prelude.{ℕ, ◌+◌, ◌*◌, ◌%◌, ◌^◌, ◌<◌, ◌≡◌, refl, arith, true, false, ltb, ◌==◌, cells}
use nballerina.Compare.{int_compare, Read, tagged_ptr_compare, array_exact_int_compare}
use nballerina.Compare.Laws.{flip, flip_run, IsBoolean, IsSymmetric, tagged_ptr_compare-flip}
use nballerina.Compare.Lists.{lexicographic, array_exact_int_compare-lexicographic}
use nballerina.Tagged.{TaggedPtr, tagged_true}

-- a memory with lists of two booleans
abbrev two_booleans : Read
two_booleans = record {
  boxes = record { next = 64; at = λ _. 0 };
  double_at = λ _. 0;
  doubles = record { equal = ◌==◌; less = ltb };
  string_cmp = λ _ _. 0;
  decimal_cmp = λ _ _. 0;
  list_length = λ _. 2;
  get = λ l i. tagged_true;
}

two_booleans-IsSymmetric : IsSymmetric two_booleans
unfolding int_compare flip
two_booleans-IsSymmetric = record {
  ints = λ i. omega arith;
  equal_symm = λ a b. ground arith;
  less_asym = λ a b h. ground arith;
  strings = λ a b. refl;
  decimals = λ a b. refl;
  lengths = λ l. omega arith;
  members = λ l i h. refl;
}

abbrev list_pointer : TaggedPtr
list_pointer = 0xc * 2 ^ 56 + 64

abbrev other_list : TaggedPtr
other_list = 0xc * 2 ^ 56 + 128

list_pointer-IsBoolean : IsBoolean list_pointer
list_pointer-IsBoolean h = omega arith

other_list-IsBoolean : IsBoolean other_list
other_list-IsBoolean h = omega arith

tagged_ptr_compare-flip_example :
    tagged_ptr_compare two_booleans 2 other_list list_pointer
    ≡ flip_run (tagged_ptr_compare two_booleans 2 list_pointer other_list)
tagged_ptr_compare-flip_example =
    tagged_ptr_compare-flip two_booleans two_booleans-IsSymmetric 2 list_pointer other_list
      list_pointer-IsBoolean other_list-IsBoolean

abbrev ascending : ℕ → ℕ
ascending i = i % 5

ascending-small : (i : ℕ) → ascending i < 2 ^ 64
ascending-small i = omega arith

not_same : false ≡ true → cells 2 ascending ≡ cells 3 ascending
not_same h = cc

array_exact_int_compare-lexicographic_example :
    array_exact_int_compare 2 3 ascending ascending false
    ≡ lexicographic (cells 2 ascending) (cells 3 ascending)
array_exact_int_compare-lexicographic_example =
    array_exact_int_compare-lexicographic 2 3 ascending ascending (omega arith) (omega arith)
      ascending-small ascending-small false not_same
