-- ===== src/List/Reads.antt =====
-- The reads of runtime/list.c, and the stores of an integer into a list of tagged values.
use nballerina.Prelude.{ℕ, ◌<◌, ◌≡◌, refl, arith, false, ◌==◌, ==_refl, lt→ltb, if◌then◌else◌}
use nballerina.Array.{GenericArray, IsValid, tagged_ptr_shift, byte_shift, load}
use nballerina.Array.Access.{with_cell, store-IsValid, load-IsValid, with_cell-IsValid}
use nballerina.List.Scalar.{list_int_array_set_int, scalar_set}
use nballerina.List.Stores.{
  FillerDesc, ListDesc, list_generic_set_tagged, list_generic_inexact_set_tagged,
}
use nballerina.Run.{Run, done, panicked, Returns, ◌>>=◌, PanicCode}
use nballerina.Tagged.{TaggedPtr}
use nballerina.Tagged.Floats.{float_to_tagged, tagged_to_float}
use nballerina.Tagged.Ints.{
  Boxes, IsAligned, int_to_tagged, tagged_to_int, tagged_to_int-int_to_tagged,
}
use nballerina.Word.{word}

-- `length` of lang.array
abbrev pub list_length : GenericArray TaggedPtr → ℕ
list_length ap = ap.length

-- the filler of an integer type, in the memory of boxes
abbrev pub int_filler_create : (val : ℕ) → FillerDesc Boxes
int_filler_create val boxes = let (tp, boxes') = int_to_tagged val boxes in (tp, false, boxes')

abbrev pub list_generic_get_tagged : GenericArray TaggedPtr → (index : ℕ) → Run TaggedPtr
list_generic_get_tagged ap index = load ap tagged_ptr_shift index

abbrev pub list_generic_get_int : GenericArray TaggedPtr → (index : ℕ) → Boxes → Run ℕ
list_generic_get_int ap index boxes =
    load ap tagged_ptr_shift index >>= λ tp. done (tagged_to_int tp boxes)

abbrev pub list_generic_get_float : GenericArray TaggedPtr → (index : ℕ) → Boxes → Run ℕ
list_generic_get_float ap index floats =
    load ap tagged_ptr_shift index >>= λ tp. done (tagged_to_float tp floats)

-- reading a double as a tagged pointer boxes it
abbrev pub list_float_array_get_tagged :
    GenericArray ℕ → (index : ℕ) → Boxes → Run (TaggedPtr × Boxes)
list_float_array_get_tagged ap index floats =
    load ap tagged_ptr_shift index >>= λ d. done (float_to_tagged d floats)

-- this also prints a warning
abbrev pub list_float_array_get_float : GenericArray ℕ → (index : ℕ) → Run ℕ
list_float_array_get_float ap index = load ap tagged_ptr_shift index

-- reading an integer as a tagged pointer may box it
abbrev pub list_int_array_get_tagged :
    GenericArray ℕ → (index : ℕ) → Boxes → Run (TaggedPtr × Boxes)
list_int_array_get_tagged ap index boxes =
    load ap tagged_ptr_shift index >>= λ n. done (int_to_tagged n boxes)

abbrev pub list_int_array_get_int : GenericArray ℕ → (index : ℕ) → Run ℕ
list_int_array_get_int ap index = load ap tagged_ptr_shift index

abbrev pub list_byte_array_get_tagged :
    GenericArray ℕ → (index : ℕ) → Boxes → Run (TaggedPtr × Boxes)
list_byte_array_get_tagged ap index boxes =
    load ap byte_shift index >>= λ n. done (int_to_tagged n boxes)

abbrev pub list_byte_array_get_int : GenericArray ℕ → (index : ℕ) → Run ℕ
list_byte_array_get_int ap index = load ap byte_shift index

-- the result of the store, with the boxes after the integer was tagged
module _ {H : Type 0} (junk : ℕ → TaggedPtr) (p : TaggedPtr) (ldp : ListDesc H) (index val : ℕ)
    (boxes : Boxes) (ap : GenericArray TaggedPtr) (h : H) where
  abbrev pub list_generic_set_int : Run (PanicCode × GenericArray TaggedPtr × H) × Boxes
  list_generic_set_int =
      let (tp, boxes') = int_to_tagged val boxes in
      (list_generic_set_tagged junk p ldp index tp ap h, boxes')

  abbrev pub list_generic_inexact_set_int : Run (PanicCode × GenericArray TaggedPtr × H) × Boxes
  list_generic_inexact_set_int =
      let (tp, boxes') = int_to_tagged val boxes in
      (list_generic_inexact_set_tagged junk p ldp index tp ap h, boxes')

-- `push` of lang.array on a list of tagged values: a code of the store becomes a panic
unfoldable pub list_push :
    {H : Type 0}
    → (junk : ℕ → TaggedPtr) (p : TaggedPtr) → ListDesc H
    → (val : TaggedPtr) → GenericArray TaggedPtr
    → H
    → Run (GenericArray TaggedPtr × H)
unfolding list_generic_set_tagged
list_push junk p ldp val ap h = do
  (code, ap', h') ← list_generic_set_tagged junk p ldp ap.length val ap h
  if code == 0 then done (ap', h') else panicked code

-- After a store of an int64 at an index inside a valid list of integers, reading the member as a
-- tagged pointer, boxed or not, gives the integer back, if the next address of the heap is aligned
-- and below 2 ^ 56
pub list_int_array_get_tagged-list_int_array_set_int :
    (junk : ℕ → ℕ) (index val : ℕ) (arr : GenericArray ℕ) (boxes : Boxes)
    → IsValid tagged_ptr_shift arr
    → index < arr.length
    → val < word
    → IsAligned boxes
    → Returns (list_int_array_set_int junk index val arr) (λ r.
      (r.0 ≡ 0)
      × Returns (list_int_array_get_tagged r.1 index boxes) (λ t. tagged_to_int t.0 t.1 ≡ val))
unfolding list_int_array_set_int scalar_set
list_int_array_get_tagged-list_int_array_set_int junk index val arr boxes v inside w a =
    let room : index < arr.capacity = omega (arith, v.fits) in
    let arr' = with_cell arr index val in
    (
      (0, arr'),
      rw (lt→ltb _ _ inside, store-IsValid tagged_ptr_shift arr v index room val),
      (
        refl,
        (
          int_to_tagged val boxes,
          rw (
            load-IsValid tagged_ptr_shift arr'
                (with_cell-IsValid tagged_ptr_shift arr v index room val) index room,
            ==_refl,
          ),
          tagged_to_int-int_to_tagged val boxes w a,
        ),
      ),
    )
