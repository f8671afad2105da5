-- ===== src/Mapping/Table.antt =====
-- The table of a mapping (the first part of runtime/mapping.c) and `struct Mapping`
-- (runtime/balrt.h). `1 << n` on `int` is defined for n up to 30.
use nballerina.Prelude.{
  ℕ, zero, suc, ◌+◌, ◌-◌, ◌*◌, ◌%◌, ◌^◌, Bool, ltb, leb, ◌==◌, if◌then◌else◌, Option, none, some,
  update, ◌≡◌, true,
}
use nballerina.Prelude.Int.{ℤ, pos, negsuc}
use nballerina.Array.{Block, GenericArray, load, map_field_size_shift, shl64}
use nballerina.Run.{Run, done, fault, diverged, ◌>>=◌}
use nballerina.Tagged.{TaggedPtr}

-- `taggedStringEqual` and `_bal_string_hash`, in a memory that stays as it is, with what a mapping
-- asks of them.
pub record Key : Type 0 where
  pub equal : TaggedPtr → TaggedPtr → Bool
  pub hash : TaggedPtr → ℕ
  pub equal_refl : (a : TaggedPtr) → equal a a ≡ true
  pub equal_symm : (a b : TaggedPtr) → equal a b ≡ true → equal b a ≡ true
  pub equal_trans : (a b c : TaggedPtr) → equal a b ≡ true → equal b c ≡ true → equal a c ≡ true
  pub hash-equal : (a b : TaggedPtr) → equal a b ≡ true → hash a ≡ hash b

pub record MapField : Type 0 where
  pub key : TaggedPtr
  pub value : TaggedPtr

-- The descriptor does not change, and is an argument of the functions that read it.
pub record Mapping : Type 0 where
  pub fields : GenericArray MapField
  pub table : Block ℕ
  pub table_element_shift : ℕ
  pub table_length_shift : ℕ

-- the marker of an empty slot: all bits of an element set
abbrev pub empty_marker : (element_shift : ℕ) → ℕ
empty_marker element_shift = 2 ^ (8 * 2 ^ element_shift) - 1

-- `(1 << n)` as an `int`
unfoldable pub one_shl : ℕ → Run ℕ
one_shl n = if leb n 30 then done (2 ^ n) else fault

unfoldable pub fetch : Block ℕ → (i element_shift : ℕ) → Run (Option ℕ)
fetch table i element_shift =
    let s = element_shift % 4 in
    if leb ((i + 1) * 2 ^ s) table.size
    then done (if table.cell i == empty_marker s then none else some (table.cell i))
    else fault

-- an element keeps the low bits of what is put
unfoldable pub put : Block ℕ → (i n element_shift : ℕ) → Run (Block ℕ)
put table i n element_shift =
    let s = element_shift % 4 in
    if leb ((i + 1) * 2 ^ s) table.size
    then done (record { size = table.size; cell = update table.cell i (n % 2 ^ (8 * 2 ^ s)) })
    else fault

-- one step back, from 0 to the last slot
abbrev pub step_back : (table_index_max i : ℕ) → ℕ
step_back table_index_max i = if i == 0 then table_index_max else i - 1

module _ (key : Key) where
  -- the loop of `lookup`, with fuel
  unfoldable pub lookup_loop : (fuel : ℕ) → Mapping → TaggedPtr → (table_index_max i : ℕ) → Run ℤ
  unfolding fetch load
  lookup_loop zero m k last i = diverged
  lookup_loop (suc fuel) m k last i =
      let rest = lookup_loop fuel m k last (step_back last i) in
      fetch m.table i m.table_element_shift >>= elim [
        | none ↦ done (negsuc i)
        | some map_index ↦ load m.fields map_field_size_shift map_index >>= λ field.
            if key.equal field.key k then done (pos map_index) else rest
      ]

  -- The fuel is the number of slots.
  unfoldable pub lookup : Mapping → TaggedPtr → (hash : ℕ) → Run ℤ
  unfolding lookup_loop one_shl
  lookup m k hash = one_shl m.table_length_shift >>= λ n. lookup_loop n m k (n - 1) (hash % n)

unfoldable pub lookup_distinct_loop : (fuel : ℕ) → Mapping → (table_index_max i : ℕ) → Run ℤ
unfolding fetch
lookup_distinct_loop zero m last i = diverged
lookup_distinct_loop (suc fuel) m last i =
    let rest = lookup_distinct_loop fuel m last (step_back last i) in
    fetch m.table i m.table_element_shift >>= elim [ none ↦ done (negsuc i) | some _ ↦ rest ]

unfoldable pub lookup_distinct : Mapping → (hash : ℕ) → Run ℤ
unfolding lookup_distinct_loop one_shl
lookup_distinct m hash =
    one_shl m.table_length_shift >>= λ n. lookup_distinct_loop n m (n - 1) (hash % n)

-- `-(lookupIndex + 1)` of a negative number is a slot, and of any other no index
unfoldable pub insert : Mapping → (lookup_index : ℤ) → (insert_map_index : ℕ) → Run Mapping
unfolding put
insert m (negsuc i) map_index = do
  table ← put m.table i map_index m.table_element_shift
  done (record m { table = table })
insert m (pos _) map_index = fault

-- `memset` with 0xFF makes every element the marker
unfoldable pub alloc_table : Mapping → Mapping
alloc_table m = record m {
  table = record {
    size = shl64 1 (m.table_length_shift + m.table_element_shift);
    cell = λ _. empty_marker (m.table_element_shift % 4);
  };
}

-- `while (capacity >= (1 << tableLengthShift))`, as far as the shift is defined
unfoldable pub length_shift_loop : (fuel table_length_shift capacity : ℕ) → Run ℕ
length_shift_loop zero shift capacity = fault
length_shift_loop (suc fuel) shift capacity =
    let rest = length_shift_loop fuel (shift + 1) capacity in
    if leb (2 ^ shift) capacity then rest else done shift

-- `while ((8 << tableElementShift) < tableLengthShift)`
unfoldable pub element_shift_loop : (fuel table_element_shift table_length_shift : ℕ) → Run ℕ
element_shift_loop zero shift length_shift = diverged
element_shift_loop (suc fuel) shift length_shift =
    let rest = element_shift_loop fuel (shift + 1) length_shift in
    if ltb (8 * 2 ^ shift) length_shift then rest else done shift

unfoldable pub init_table : Mapping → (capacity : ℕ) → Run Mapping
unfolding length_shift_loop element_shift_loop alloc_table
init_table m capacity = do
  length_shift ← length_shift_loop 29 2 capacity
  element_shift ← element_shift_loop 3 1 length_shift
  done (
      alloc_table
        (record m { table_length_shift = length_shift + 1; table_element_shift = element_shift }))

unfoldable pub grow_table : Mapping → Mapping
unfolding alloc_table
grow_table m =
    let element_shift =
      (if ltb (8 * 2 ^ m.table_element_shift) m.table_length_shift
        then m.table_element_shift + 1
        else m.table_element_shift) in
    alloc_table (record m {
      table_element_shift = element_shift;
      table_length_shift = m.table_length_shift + 1;
    })
