-- ===== src/Compare.antt =====
-- The order on values (`CompareResult` and the functions on it in runtime/balrt.h and runtime/list.c).
-- `Read` is what the memory holds: the numbers behind pointers, and the lists.
pub mod Laws
pub mod Lists
pub mod ListOrder
use nballerina.Prelude.{ℕ, zero, suc, ◌+◌, Bool, ltb, leb, ◌==◌, ◌||◌, if◌then◌else◌, List, [], ◌∷◌}
use nballerina.Run.{Run, done, diverged, ◌>>=◌}
use nballerina.Tagged.{
  TaggedPtr, nil, uniform_type, tag_boolean, tag_int, tag_float, tag_decimal, tag_string, tag_list,
  tagged_to_boolean, tagged_to_ptr,
}
use nballerina.Tagged.Ints.{Boxes, tagged_to_int}
use nballerina.Word.{lt_signed}

-- `COMPARE_UN`, `COMPARE_LT`, `COMPARE_EQ`, `COMPARE_GT`
pub data CompareResult : Type 0 where
  compare_un compare_lt compare_eq compare_gt : CompareResult

unfoldable pub int_compare : (n₁ n₂ : ℕ) → CompareResult
int_compare n₁ n₂ =
    if n₁ == n₂ then compare_eq else if lt_signed n₁ n₂ then compare_lt else compare_gt

-- `<` and `==` on doubles
pub record Doubles : Type 0 where
  pub equal : ℕ → ℕ → Bool
  pub less : ℕ → ℕ → Bool

unfoldable pub float_compare : Doubles → (v₁ v₂ : ℕ) → CompareResult
float_compare doubles v₁ v₂ =
    if doubles.equal v₁ v₂
    then compare_eq
    else if doubles.less v₁ v₂
    then compare_lt
    else if doubles.less v₂ v₁
    then compare_gt
    else compare_un

unfoldable pub tagged_boolean_compare : (tp₁ tp₂ : TaggedPtr) → CompareResult
tagged_boolean_compare tp₁ tp₂ =
    if tp₁ == tp₂
    then compare_eq
    else if ltb (tagged_to_boolean tp₁) (tagged_to_boolean tp₂)
    then compare_lt
    else compare_gt

unfoldable pub opt_do_compare :
    (tp₁ tp₂ : TaggedPtr) → (TaggedPtr → TaggedPtr → CompareResult) → CompareResult
opt_do_compare tp₁ tp₂ compare =
    if tp₁ == nil
    then if tp₂ == nil then compare_eq else compare_un
    else if tp₂ == nil
    then compare_un
    else compare tp₁ tp₂

-- `if (result != COMPARE_EQ) return result;`
unfoldable pub unless_equal : CompareResult → Run CompareResult → Run CompareResult
unless_equal compare_eq rest = rest
unless_equal result rest = done result

-- `string_cmp` and `decimal_cmp` are `_bal_string_cmp` and `_bal_decimal_cmp`; a list is read
-- through its `get`, from the first member to the last.
pub record Read : Type 0 where
  pub boxes : Boxes
  pub double_at : ℕ → ℕ
  pub doubles : Doubles
  pub string_cmp : TaggedPtr → TaggedPtr → ℕ
  pub decimal_cmp : TaggedPtr → TaggedPtr → ℕ
  pub list_length : TaggedPtr → ℕ
  pub get : TaggedPtr → ℕ → TaggedPtr

-- the lists of integers that stand untagged in memory
module _ (len₁ len₂ : ℕ) (arr₁ arr₂ : ℕ → ℕ) where
  -- `rounds` of the common indices are left, from `i` on
  unfoldable pub int_members_compare : (rounds i : ℕ) → CompareResult
  unfolding int_compare
  int_members_compare zero i = int_compare len₁ len₂
  int_members_compare (suc rounds) i =
      let rest = int_members_compare rounds (suc i) in
      if lt_signed (arr₂ i) (arr₁ i)
      then compare_gt
      else if lt_signed (arr₁ i) (arr₂ i)
      then compare_lt
      else rest

  -- `same` says that the two pointers are equal
  unfoldable pub array_exact_int_compare : (same : Bool) → CompareResult
  unfolding int_members_compare
  array_exact_int_compare same =
      if same then compare_eq else int_members_compare (if leb len₁ len₂ then len₁ else len₂) 0

module _ (read : Read) where
  unfoldable pub tagged_int_compare : (tp₁ tp₂ : TaggedPtr) → CompareResult
  unfolding int_compare tagged_to_int
  tagged_int_compare tp₁ tp₂ =
      int_compare (tagged_to_int tp₁ read.boxes) (tagged_to_int tp₂ read.boxes)

  unfoldable pub tagged_float_compare : (tp₁ tp₂ : TaggedPtr) → CompareResult
  unfolding float_compare
  tagged_float_compare tp₁ tp₂ =
      float_compare read.doubles (read.double_at (tagged_to_ptr tp₁))
        (read.double_at (tagged_to_ptr tp₂))

  unfoldable pub opt_int_compare : (tp₁ tp₂ : TaggedPtr) → CompareResult
  unfolding opt_do_compare tagged_int_compare
  opt_int_compare tp₁ tp₂ = opt_do_compare tp₁ tp₂ tagged_int_compare

  unfoldable pub opt_float_compare : (tp₁ tp₂ : TaggedPtr) → CompareResult
  unfolding opt_do_compare tagged_float_compare
  opt_float_compare tp₁ tp₂ = opt_do_compare tp₁ tp₂ tagged_float_compare

  unfoldable pub opt_string_compare : (tp₁ tp₂ : TaggedPtr) → CompareResult
  unfolding opt_do_compare int_compare
  opt_string_compare tp₁ tp₂ = opt_do_compare tp₁ tp₂ λ a b. int_compare (read.string_cmp a b) 0

  unfoldable pub opt_decimal_compare : (tp₁ tp₂ : TaggedPtr) → CompareResult
  unfolding opt_do_compare int_compare
  opt_decimal_compare tp₁ tp₂ = opt_do_compare tp₁ tp₂ λ a b. int_compare (read.decimal_cmp a b) 0

  -- the loop of `optListDoCompare`, with a comparison that may itself run on lists
  unfoldable pub members_compare :
      (compare : TaggedPtr → TaggedPtr → Run CompareResult) (tp₁ tp₂ : TaggedPtr) (rounds i : ℕ)
      → Run CompareResult
  unfolding int_compare unless_equal
  members_compare compare tp₁ tp₂ zero i =
      done (int_compare (read.list_length tp₁) (read.list_length tp₂))
  members_compare compare tp₁ tp₂ (suc rounds) i =
      let rest = members_compare compare tp₁ tp₂ rounds (suc i) in
      compare (read.get tp₁ i) (read.get tp₂ i) >>= λ result. unless_equal result rest

  unfoldable pub opt_list_do_compare :
      (tp₁ tp₂ : TaggedPtr)
      → (compare : TaggedPtr → TaggedPtr → Run CompareResult) → Run CompareResult
  unfolding members_compare
  opt_list_do_compare tp₁ tp₂ compare =
      let len₁ = read.list_length tp₁ in
      let len₂ = read.list_length tp₂ in
      let compared = members_compare compare tp₁ tp₂ (if leb len₁ len₂ then len₁ else len₂) 0 in
      if tp₁ == tp₂
      then done compare_eq
      else if (tp₁ == nil) || (tp₂ == nil)
      then done compare_un
      else compared

  -- `taggedPtrCompare` and `_bal_opt_list_compare` call each other; the fuel bounds the depth of the
  -- lists.
  unfoldable pub tagged_ptr_compare : (fuel : ℕ) → (tp₁ tp₂ : TaggedPtr) → Run CompareResult
  unfolding tagged_int_compare tagged_boolean_compare tagged_float_compare int_compare
      opt_list_do_compare
  tagged_ptr_compare zero tp₁ tp₂ = diverged
  tagged_ptr_compare (suc fuel) tp₁ tp₂ =
      let tag₁ = uniform_type tp₁ in
      let lists = opt_list_do_compare tp₁ tp₂ (tagged_ptr_compare fuel) in
      if tag₁ == uniform_type tp₂
      then if tag₁ == tag_int
        then done (tagged_int_compare tp₁ tp₂)
        else if tag₁ == tag_boolean
        then done (tagged_boolean_compare tp₁ tp₂)
        else if tag₁ == tag_float
        then done (tagged_float_compare tp₁ tp₂)
        else if tag₁ == tag_decimal
        then done (int_compare (read.decimal_cmp tp₁ tp₂) 0)
        else if tag₁ == tag_string
        then done (int_compare (read.string_cmp tp₁ tp₂) 0)
        else if tag₁ == tag_list
        then lists
        else done compare_eq
      else done compare_un

  unfoldable pub opt_list_compare : (fuel : ℕ) → (tp₁ tp₂ : TaggedPtr) → Run CompareResult
  unfolding opt_list_do_compare tagged_ptr_compare
  opt_list_compare fuel tp₁ tp₂ = opt_list_do_compare tp₁ tp₂ (tagged_ptr_compare fuel)

  unfoldable pub opt_boolean_compare : (tp₁ tp₂ : TaggedPtr) → CompareResult
  unfolding opt_do_compare tagged_boolean_compare
  opt_boolean_compare tp₁ tp₂ = opt_do_compare tp₁ tp₂ tagged_boolean_compare

  -- the comparisons of arrays, one for each type of members
  unfoldable pub array_int_compare : (tp₁ tp₂ : TaggedPtr) → Run CompareResult
  unfolding opt_list_do_compare opt_int_compare
  array_int_compare tp₁ tp₂ = opt_list_do_compare tp₁ tp₂ λ a b. done (opt_int_compare a b)

  unfoldable pub array_float_compare : (tp₁ tp₂ : TaggedPtr) → Run CompareResult
  unfolding opt_list_do_compare opt_float_compare
  array_float_compare tp₁ tp₂ = opt_list_do_compare tp₁ tp₂ λ a b. done (opt_float_compare a b)

  unfoldable pub array_string_compare : (tp₁ tp₂ : TaggedPtr) → Run CompareResult
  unfolding opt_list_do_compare opt_string_compare
  array_string_compare tp₁ tp₂ = opt_list_do_compare tp₁ tp₂ λ a b. done (opt_string_compare a b)

  unfoldable pub array_boolean_compare : (tp₁ tp₂ : TaggedPtr) → Run CompareResult
  unfolding opt_list_do_compare opt_boolean_compare
  array_boolean_compare tp₁ tp₂ = opt_list_do_compare tp₁ tp₂ λ a b. done (opt_boolean_compare a b)

  unfoldable pub array_decimal_compare : (tp₁ tp₂ : TaggedPtr) → Run CompareResult
  unfolding opt_list_do_compare opt_decimal_compare
  array_decimal_compare tp₁ tp₂ = opt_list_do_compare tp₁ tp₂ λ a b. done (opt_decimal_compare a b)

  unfoldable pub array_list_compare : (fuel : ℕ) → (tp₁ tp₂ : TaggedPtr) → Run CompareResult
  unfolding opt_list_do_compare opt_list_compare
  array_list_compare fuel tp₁ tp₂ = opt_list_do_compare tp₁ tp₂ (opt_list_compare fuel)
