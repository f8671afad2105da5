-- ===== src/Array.antt =====
-- `GenericArray` (runtime/balrt.h) and `_bal_array_grow` (runtime/list.c). The members stand in an
-- allocated block; its cells are numbered by index, and what a new block holds is `junk`.
pub mod Growth
pub mod Access
use nballerina.Prelude.{
  ℕ, ◌+◌, ◌-◌, ◌*◌, ◌/◌, ◌%◌, ◌^◌, ◌≤◌, ◌≡◌, Bool, ltb, leb, ◌==◌, if◌then◌else◌, update,
}
use nballerina.Word.{word, int64_max}
use nballerina.Run.{Run, done, panicked, fault, ◌>>=◌, panic_list_too_long}

-- `size` is the number of bytes that were asked of `_bal_alloc`; the null pointer is the block of
-- no bytes.
pub record Block {ℓ} (A : Type ℓ) : Type ℓ where
  pub size : ℕ
  pub cell : ℕ → A

pub record GenericArray {ℓ} (A : Type ℓ) : Type ℓ where
  pub length : ℕ
  pub capacity : ℕ
  pub members : Block A

abbrev pub array_length_max : ℕ
array_length_max = int64_max / 8

abbrev pub initial_capacity : ℕ
initial_capacity = 4

abbrev pub tagged_ptr_shift : ℕ
tagged_ptr_shift = 3

abbrev pub byte_shift : ℕ
byte_shift = 0

abbrev pub map_field_shift : ℕ
map_field_shift = tagged_ptr_shift * 2

-- `sizeof(MapField)` is 1 << 4
abbrev pub map_field_size_shift : ℕ
map_field_size_shift = 4

-- the element sizes are given as shifts: `n << shift`, on 64 bits
abbrev pub shl64 : ℕ → ℕ → ℕ
shl64 n shift = n * 2 ^ shift % word

-- The new capacity, if there is room for any.
unfoldable pub grown_capacity : (old_capacity min_capacity : ℕ) → Run ℕ
grown_capacity old_capacity min_capacity =
    let extra_capacity = old_capacity / 2 in
    let at_least = λ (n : ℕ). if ltb n min_capacity then min_capacity else n in
    if leb old_capacity (array_length_max - extra_capacity)
    then done (at_least (old_capacity + extra_capacity))
    else if array_length_max == old_capacity
    then panicked panic_list_too_long
    else done (at_least array_length_max)

module _ {ℓ} {A : Type ℓ} (junk : ℕ → A) where
  unfoldable pub alloc : ℕ → Block A
  alloc bytes = record { size = bytes; cell = junk }

  unfoldable pub init_generic_array : (capacity shift : ℕ) → GenericArray A
  unfolding alloc
  init_generic_array capacity shift = record {
    length = 0;
    capacity = capacity;
    members =
        if capacity == 0 then record { size = 0; cell = junk } else alloc (shl64 capacity shift);
  }

  -- `memcpy` of the first `length << shift` bytes of a block into a new one of `bytes` bytes
  unfoldable pub copy_block : (length shift bytes : ℕ) → Block A → Run (Block A)
  unfolding alloc
  copy_block length shift bytes b =
      if leb (shl64 length shift) b.size
      then if leb (shl64 length shift) bytes
        then done (record {
          size = bytes;
          cell = λ i. if ltb i length then b.cell i else (alloc bytes).cell i;
        })
        else fault
      else fault

  unfoldable pub array_grow : GenericArray A → (min_capacity shift : ℕ) → Run (GenericArray A)
  unfolding alloc copy_block grown_capacity
  array_grow ap min_capacity shift =
      let first = if ltb initial_capacity min_capacity then min_capacity else initial_capacity in
      let grown : Run (GenericArray A) = (do
        new_capacity ← grown_capacity ap.capacity min_capacity
        new_members ← copy_block ap.length shift (shl64 new_capacity shift) ap.members
        done (record ap { capacity = new_capacity; members = new_members })) in
      if ap.capacity == 0
      then done (record ap { capacity = first; members = alloc (shl64 first shift) })
      else grown

-- `ap->members[i] = v`
unfoldable pub store {ℓ} : {A : Type ℓ} → GenericArray A → (shift i : ℕ) → A → Run (GenericArray A)
store ap shift i v =
    if leb ((i + 1) * 2 ^ shift) ap.members.size
    then done (record ap {
      members = record { size = ap.members.size; cell = update ap.members.cell i v };
    })
    else fault

-- `ap->members[i]`
unfoldable pub load {ℓ} : {A : Type ℓ} → GenericArray A → (shift i : ℕ) → Run A
load ap shift i =
    if leb ((i + 1) * 2 ^ shift) ap.members.size then done (ap.members.cell i) else fault

-- The block is as large as the capacity says, and the capacity is in the range of the code.
pub record IsValid {ℓ} {A : Type ℓ} (shift : ℕ) (ap : GenericArray A) : Type 0 where
  pub fits : ap.length ≤ ap.capacity
  pub small : ap.capacity ≤ array_length_max
  pub sized : ap.members.size ≡ ap.capacity * 2 ^ shift
