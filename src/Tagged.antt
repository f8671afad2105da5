-- ===== src/Tagged.antt =====
-- Tagged pointers (runtime/balrt.h, runtime/tag.h): 64 bits, the tag in the top byte, the immediate
-- flag at bit 61 and the exact flag at bit 2. A mask by a power of two is a remainder here, and a
-- shift is a quotient or a product.
pub mod Ints
pub mod Floats
pub mod Exact
use nballerina.Prelude.{ℕ, ◌+◌, ◌-◌, ◌*◌, ◌/◌, ◌%◌, ◌^◌, Bool, ltb, leb, ◌==◌, ◌&&◌, if◌then◌else◌}
use nballerina.Run.{PanicCode, panic_internal_error}
use nballerina.Word.{le_signed}

abbrev pub TaggedPtr : Type 0
TaggedPtr = ℕ

abbrev pub tag_shift : ℕ
tag_shift = 56

abbrev pub tag_nil : ℕ
tag_nil = 0x00

abbrev pub tag_boolean : ℕ
tag_boolean = 0x01

abbrev pub tag_int : ℕ
tag_int = 0x02

abbrev pub tag_float : ℕ
tag_float = 0x03

abbrev pub tag_decimal : ℕ
tag_decimal = 0x04

abbrev pub tag_string : ℕ
tag_string = 0x05

abbrev pub tag_error : ℕ
tag_error = 0x06

abbrev pub tag_function : ℕ
tag_function = 0x09

abbrev pub tag_list : ℕ
tag_list = 0xc

abbrev pub tag_mapping : ℕ
tag_mapping = 0xd

abbrev pub nil : TaggedPtr
nil = 0

abbrev pub tagged_false : TaggedPtr
tagged_false = tag_boolean * 2 ^ tag_shift

abbrev pub tagged_true : TaggedPtr
tagged_true = tag_boolean * 2 ^ tag_shift + 1

-- `IMMEDIATE_FLAG` is 0x20 << 56
abbrev pub is_immediate : TaggedPtr → Bool
is_immediate p = p / 2 ^ 61 % 2 == 1

-- The parts of a pointer by `TAG_MASK`, `UT_MASK`, `POINTER_MASK` and `EXACT_FLAG`.
abbrev pub get_tag : TaggedPtr → ℕ
get_tag p = p / 2 ^ tag_shift % 256

abbrev pub uniform_type : TaggedPtr → ℕ
uniform_type p = get_tag p % 32

abbrev pub payload : TaggedPtr → ℕ
payload p = p % 2 ^ tag_shift

abbrev pub exact_bit : TaggedPtr → ℕ
exact_bit p = p / 4 % 2

abbrev pub tagged_to_boolean : TaggedPtr → ℕ
tagged_to_boolean p = p % 2

-- p & (POINTER_MASK & ALIGN_MASK)
abbrev pub tagged_to_ptr : TaggedPtr → ℕ
tagged_to_ptr p = payload p / 8 * 8

-- p & ((POINTER_MASK & ALIGN_MASK) | EXACT_FLAG)
abbrev pub tagged_to_ptr_exact : TaggedPtr → ℕ
tagged_to_ptr_exact p = payload p / 8 * 8 + exact_bit p * 4

-- The tag joined to an address that uses only the low 56 bits.
abbrev pub ptr_add_shifted_tag : (p tag : ℕ) → TaggedPtr
ptr_add_shifted_tag p tag = p + tag * 2 ^ tag_shift

-- A store that an exact pointer does not allow is an internal error.
unfoldable pub store_panic_code : TaggedPtr → PanicCode → PanicCode
store_panic_code p code =
    if tagged_to_ptr p == tagged_to_ptr_exact p then code else panic_internal_error

-- `_bal_structure_exactify`, where the descriptor's `tid` has been read
unfoldable pub structure_exactify : (p tid wanted : ℕ) → TaggedPtr
structure_exactify p tid wanted =
    if (tagged_to_ptr p == tagged_to_ptr_exact p) && (tid == wanted) then p + 4 else p

-- `_bal_ptr_mask` with `~EXACT_FLAG`
abbrev clear_exact_flag : TaggedPtr → TaggedPtr
clear_exact_flag p = p - exact_bit p * 4

unfoldable pub tagged_clear_exact_any : TaggedPtr → TaggedPtr
tagged_clear_exact_any p = if is_immediate p then p else clear_exact_flag p

unfoldable pub tagged_clear_exact_ptr : TaggedPtr → TaggedPtr
tagged_clear_exact_ptr p = clear_exact_flag p

-- The mask is the structure's bits with all but the exact flag set.
abbrev mask_exact : (structure member : TaggedPtr) → TaggedPtr
mask_exact structure member = if exact_bit structure == 1 then member else clear_exact_flag member

unfoldable pub tagged_member_clear_exact_any : (structure member : TaggedPtr) → TaggedPtr
tagged_member_clear_exact_any structure member =
    if is_immediate member then member else mask_exact structure member

unfoldable pub tagged_member_clear_exact_ptr : (structure member : TaggedPtr) → TaggedPtr
tagged_member_clear_exact_ptr structure member = mask_exact structure member
