-- ===== src/Tagged/Ints.antt =====
-- `intToTagged` and `taggedToInt` (runtime/balrt.h): an integer that fits in 56 bits is immediate, any
-- other is in a cell of the heap.
use nballerina.Prelude.{
  ℕ, ◌+◌, ◌-◌, ◌*◌, ◌%◌, ◌^◌, ◌<◌, ◌≡◌, arith, ltb, ◌&&◌, if◌then◌else◌, update,
}
use nballerina.Word.{word, le_signed}
use nballerina.Tagged.{
  TaggedPtr, tag_shift, tag_int, is_immediate, payload, tagged_to_ptr, ptr_add_shifted_tag,
  uniform_type,
}

-- The boxed integers: what stands at each address, and the first address that no box has. Boxes are
-- 8 bytes and 8-byte aligned.
pub record Boxes : Type 0 where
  pub next : ℕ
  pub at : ℕ → ℕ

abbrev pub immediate_int_min : ℕ
immediate_int_min = 2 ^ 64 - 2 ^ 55

abbrev pub immediate_int_max : ℕ
immediate_int_max = 2 ^ 55 - 1

-- `_bal_alloc(sizeof(int64_t))` and the write through the pointer
unfoldable pub box_int : ℕ → Boxes → ℕ × Boxes
box_int n b = (b.next, record { next = b.next + 8; at = update b.at b.next n })

unfoldable pub int_to_tagged : ℕ → Boxes → TaggedPtr × Boxes
unfolding box_int
int_to_tagged n b =
    if le_signed immediate_int_min n && le_signed n immediate_int_max
    then (n % 2 ^ tag_shift + (0x20 + tag_int) * 2 ^ tag_shift, b)
    else let (p, b') = box_int n b in (ptr_add_shifted_tag p tag_int, b')

-- `n <<= 8` drops the tag, and the signed `>> 8` copies the sign bit into its place.
abbrev sign_extend : ℕ → ℕ
sign_extend n = if ltb n (2 ^ 55) then n else n + 2 ^ 64 - 2 ^ 56

unfoldable pub tagged_to_int : TaggedPtr → Boxes → ℕ
tagged_to_int p b = if is_immediate p then sign_extend (payload p) else b.at (tagged_to_ptr p)

abbrev pub IsAligned : Boxes → Type 0
IsAligned b = (b.next % 8 ≡ 0) × (b.next < 2 ^ 56)

-- For every int64 and a heap whose next address is aligned and below 2 ^ 56, reading back the
-- tagged integer gives the integer, whether immediate or boxed
pub tagged_to_int-int_to_tagged :
    (n : ℕ) (b : Boxes)
    → n < word
    → IsAligned b
    → tagged_to_int (int_to_tagged n b).0 (int_to_tagged n b).1 ≡ n
unfolding int_to_tagged tagged_to_int
tagged_to_int-int_to_tagged n b h a = ground arith

-- The tag is that of an integer, on both paths.
pub uniform_type-int_to_tagged :
    (n : ℕ) (b : Boxes) → n < word → IsAligned b → uniform_type (int_to_tagged n b).0 ≡ tag_int
unfolding int_to_tagged
uniform_type-int_to_tagged n b h a = ground arith
