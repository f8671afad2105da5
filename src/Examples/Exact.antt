-- ===== src/Examples/Exact.antt =====
-- A list of one int that is boxed on each read, through two pointers.
use nballerina.Prelude.{
  ℕ, ◌+◌, ◌*◌, ◌^◌, ◌≡◌, inl, inr, refl, arith, true, leb, Bool-cases, ◌==◌, if◌then◌else◌, [], ◌∷◌,
}
use nballerina.Array.{GenericArray, load}
use nballerina.Equality.{Memory, EqStack, on_stack, bal_eq, exact_eq}
use nballerina.Equality.Alike.{Sane, AlwaysAlike}
use nballerina.Equality.Boxed.{IsBoxed}
use nballerina.Equality.Ends.{Closed}
use nballerina.Equality.Exact.{KeepsValue, NoNan, exact_eq-bal_eq}
use nballerina.Equality.Heap.{Heap, int_members, get_tagged, memory_of}
use nballerina.Examples.Decimals.{codes, codes-Compares}
use nballerina.Mapping.Construct.{Constructed, mapping_construct-Constructed}
use nballerina.Mapping.Table.{MapField}
use nballerina.Mapping.Methods.{mapping_construct}
use nballerina.Run.{Returns}
use nballerina.Strings.{HashKey}
use nballerina.Strings.Keys.{string_key}
use nballerina.Subtype.{tid_order}
use nballerina.Tagged.{TaggedPtr, tag_list, tag_int, get_tag}
use nballerina.Tagged.Ints.{int_to_tagged, box_int}

abbrev some_key : HashKey
some_key = record { first = 0x243F6A8885A308D3; second = 0x13198A2E03707344 }

abbrev no_words : ℕ → ℕ
no_words a = 0

abbrev no_field : ℕ → MapField
no_field a = record { key = 0; value = 0 }

empty_mapping-Constructed :
    Returns
      (mapping_construct (string_key some_key no_words) no_field 8)
      (Constructed (string_key some_key no_words) 8)
empty_mapping-Constructed =
    mapping_construct-Constructed (string_key some_key no_words) no_field 8 (omega arith)

abbrev one_int : GenericArray ℕ
one_int = record { length = 1; capacity = 1; members = record { size = 8; cell = λ i. 2 ^ 60 } }

abbrev plain_list : TaggedPtr
plain_list = 0x0c00000000000008

abbrev exact_list : TaggedPtr
exact_list = 0x0c0000000000000c

abbrev list_heap : Heap ℕ
list_heap = record {
  hash_key = some_key;
  words = no_words;
  ints = λ a. 2 ^ 60;
  doubles = λ a. 0;
  decimals = record { next = 256; at = λ a. 0 };
  list_at = λ a. int_members one_int;
  mapping_at = λ a. (empty_mapping-Constructed).0;
  box = λ p i. if p == plain_list then 64 else 128;
}

abbrev list_memory : Memory
list_memory = memory_of codes list_heap

list_memory-Sane : Sane list_memory
list_memory-Sane p t = (let (m, run, made) = empty_mapping-Constructed in made.valid)

list_heap-IsBoxed : IsBoxed list_heap
unfolding load
list_heap-IsBoxed = record {
  aligned = λ p i. elim (Bool-cases (p == plain_list)) [
    | inl e ↦ rw e (refl, omega arith)
    | inr e ↦ rw e (refl, omega arith)
  ];
  ints = λ p i n e. elim (Bool-cases (leb ((i + 1) * 2 ^ 3) 8)) [
    | inl c ↦ cc (rw c at e)
    | inr c ↦ cc (rw c at e)
  ];
  doubles = λ p i n e. cc e;
}

codes-KeepsValue : KeepsValue codes tid_order
codes-KeepsValue a b h k = h

list_heap-NoNan : NoNan tid_order list_heap
list_heap-NoNan p t = refl

-- the two pointers, and the boxes of the two reads
abbrev pairs : EqStack
pairs = (plain_list, exact_list) ∷ (tag_int * 2 ^ 56 + 64, tag_int * 2 ^ 56 + 128) ∷ []

only_lists :
    (a b : TaggedPtr)
    → on_stack a b pairs ≡ true
    → get_tag a ≡ tag_list
    → (a ≡ plain_list) × (b ≡ exact_list)
unfolding on_stack
only_lists a b on t = ground arith

pairs-Closed : Closed list_memory pairs
unfolding on_stack get_tagged load int_to_tagged box_int
pairs-Closed = record {
  members = λ a b i on s t h k.
      (let (first, second) = only_lists a b on s in
        let start : i ≡ 0 = omega (arith, h) in rw (first, second, start) refl);
  values = λ a b i j on s t h k. absurd (ground arith);
}

both_there : on_stack plain_list exact_list pairs ≡ true
unfolding on_stack
both_there = refl

exactly : exact_eq list_memory plain_list exact_list ≡ true
unfolding exact_eq
exactly = refl

exact_eq-bal_eq_example :
    AlwaysAlike list_memory plain_list exact_list
    × Returns (bal_eq list_memory 3 plain_list exact_list) (λ r. r ≡ true)
exact_eq-bal_eq_example =
    exact_eq-bal_eq codes tid_order list_heap codes-Compares codes-KeepsValue list_heap-NoNan
      list_heap-IsBoxed list_memory-Sane pairs pairs-Closed plain_list exact_list both_there
      (λ e. absurd (omega arith)) exactly
