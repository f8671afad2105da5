-- ===== src/List/Scalar.antt =====
-- Lists of integers, bytes and floats (runtime/list.c), whose members are stored untagged. A float is
-- its 64 bits; all bits zero is +0.0.
pub mod Refines
use nballerina.Prelude.{
  ℕ, ◌+◌, ◌*◌, ◌^◌, Bool, true, false, ltb, leb, ◌==◌, ◌&&◌, ◌||◌, not, if◌then◌else◌,
}
use nballerina.Array.{GenericArray, tagged_ptr_shift, byte_shift, store, init_generic_array}
use nballerina.List.Stores.{make_room}
use nballerina.Run.{Run, done, fault, ◌>>=◌, PanicCode, panic_list_store}
use nballerina.Tagged.{TaggedPtr, uniform_type, tag_int, tag_float, tagged_to_ptr, store_panic_code}
use nballerina.Tagged.Ints.{Boxes, tagged_to_int}
use nballerina.Word.{is_negative, lt_signed}

-- `memset(&members[from], 0, sizeof(member) * (to - from))`
unfoldable pub memset_zero : (shift from to : ℕ) → GenericArray ℕ → Run (GenericArray ℕ)
memset_zero shift from to ap =
    if leb (to * 2 ^ shift) ap.members.size
    then done (record ap {
      members = record {
        size = ap.members.size;
        cell = λ i. if leb from i && ltb i to then 0 else ap.members.cell i;
      };
    })
    else fault

module _ (junk : ℕ → ℕ) where
  -- the end of the three stores, once there is room: the gap, the member, the new length
  unfoldable pub zero_fill_and_store :
      (shift index val : ℕ) → GenericArray ℕ → Run (PanicCode × GenericArray ℕ)
  unfolding memset_zero store
  zero_fill_and_store shift index val ap = do
    ap₁ ← (if lt_signed ap.length index then memset_zero shift ap.length index ap else done ap)
    ap₂ ← store ap₁ shift index val
    done (0, record ap₂ { length = index + 1 })

  -- the body that the three stores share, with the shift of the member's size
  unfoldable pub scalar_set :
      (shift index val : ℕ) → GenericArray ℕ → Run (PanicCode × GenericArray ℕ)
  unfolding store make_room zero_fill_and_store
  scalar_set shift index val ap =
      let inside : Run (PanicCode × GenericArray ℕ) = (do
        ap' ← store ap shift index val
        done (0, ap')) in
      let outside : Run (PanicCode × GenericArray ℕ) = (do
        (code, ap') ← make_room junk shift index ap
        if code == 0 then zero_fill_and_store shift index val ap' else done (code, ap')) in
      if ltb index ap.length then inside else outside

  -- `_bal_list_int_array_set_int`
  unfoldable pub list_int_array_set_int :
      (index val : ℕ) → GenericArray ℕ → Run (PanicCode × GenericArray ℕ)
  unfolding scalar_set
  list_int_array_set_int index val ap = scalar_set tagged_ptr_shift index val ap

  unfoldable pub list_int_array_set_tagged :
      (p : TaggedPtr) (index : ℕ)
      → TaggedPtr
      → Boxes
      → GenericArray ℕ
      → Run (PanicCode × GenericArray ℕ)
  unfolding list_int_array_set_int tagged_to_int
  list_int_array_set_tagged p index val boxes ap =
      if uniform_type val == tag_int
      then list_int_array_set_int index (tagged_to_int val boxes) ap
      else done (store_panic_code p panic_list_store, ap)

  -- `_bal_list_byte_array_set_int`
  unfoldable pub list_byte_array_set_int :
      (p : TaggedPtr) (index val : ℕ) → GenericArray ℕ → Run (PanicCode × GenericArray ℕ)
  unfolding scalar_set
  list_byte_array_set_int p index val ap =
      if is_negative val || lt_signed 255 val
      then done (store_panic_code p panic_list_store, ap)
      else scalar_set byte_shift index val ap

  unfoldable pub list_byte_array_set_tagged :
      (p : TaggedPtr) (index : ℕ)
      → TaggedPtr
      → Boxes
      → GenericArray ℕ
      → Run (PanicCode × GenericArray ℕ)
  unfolding list_byte_array_set_int tagged_to_int
  list_byte_array_set_tagged p index val boxes ap =
      if uniform_type val == tag_int
      then list_byte_array_set_int p index (tagged_to_int val boxes) ap
      else done (store_panic_code p panic_list_store, ap)

  -- `_bal_list_float_array_set_float`
  unfoldable pub list_float_array_set_float :
      (index val : ℕ) → GenericArray ℕ → Run (PanicCode × GenericArray ℕ)
  unfolding scalar_set
  list_float_array_set_float index val ap = scalar_set tagged_ptr_shift index val ap

  -- `floats` is the memory in which the boxed floats stand
  unfoldable pub list_float_array_set_tagged :
      (p : TaggedPtr) (index : ℕ)
      → TaggedPtr
      → (floats : ℕ → ℕ) → GenericArray ℕ
      → Run (PanicCode × GenericArray ℕ)
  unfolding list_float_array_set_float
  list_float_array_set_tagged p index val floats ap =
      if uniform_type val == tag_float
      then list_float_array_set_float index (floats (tagged_to_ptr val)) ap
      else done (store_panic_code p panic_list_store, ap)

-- a store of a value that the list cannot hold
abbrev pub list_int_array_set_float : (p : TaggedPtr) → PanicCode
list_int_array_set_float p = store_panic_code p panic_list_store

abbrev pub list_byte_array_set_float : (p : TaggedPtr) → PanicCode
list_byte_array_set_float p = store_panic_code p panic_list_store

abbrev pub list_float_array_set_int : (p : TaggedPtr) → PanicCode
list_float_array_set_int p = store_panic_code p panic_list_store

-- `_bal_list_construct_1`
unfoldable pub list_construct_1 : (junk : ℕ → ℕ) (capacity : ℕ) → GenericArray ℕ
unfolding init_generic_array
list_construct_1 junk capacity = init_generic_array junk capacity byte_shift
