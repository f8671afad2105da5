-- ===== src/Equality.antt =====
-- The equality of values (`taggedPtrEq` in runtime/balrt.h, runtime/eq_inline.c, and the parts of
-- runtime/list.c and runtime/mapping.c). Lists and mappings may be cyclic: the pairs that are being
-- compared stand on a stack.
pub mod Alike
pub mod Fields
pub mod Cases
pub mod Decides
pub mod Ends
pub mod Heap
pub mod Boxed
pub mod Exact
use nballerina.Prelude.{
  ℕ, zero, suc, ◌≡◌, Bool, true, false, ◌==◌, ◌&&◌, ◌||◌, if◌then◌else◌, List, [], ◌∷◌,
}
use nballerina.Array.{load, map_field_size_shift}
use nballerina.Mapping.Table.{Key, Mapping, lookup}
use nballerina.Prelude.Int.{ℤ, pos, negsuc}
use nballerina.Run.{Run, done, diverged, ◌>>=◌}
use nballerina.Tagged.{
  TaggedPtr, get_tag, tag_string, tag_int, tag_float, tag_decimal, tag_list, tag_mapping,
  tag_function, tagged_to_ptr,
}

-- What the memory holds at an address, and what the functions on doubles and decimals say; a list is
-- read through its `get`.
pub record Memory : Type 0 where
  pub key : Key
  pub int_at : ℕ → ℕ
  pub double_at : ℕ → ℕ
  pub float_eq : ℕ → ℕ → Bool
  pub float_exact_eq : ℕ → ℕ → Bool
  pub decimal_cmp : TaggedPtr → TaggedPtr → ℕ
  pub decimal_exact_eq : TaggedPtr → TaggedPtr → Bool
  pub list_length : ℕ → ℕ
  pub get : TaggedPtr → ℕ → TaggedPtr
  pub mapping_at : ℕ → Mapping

abbrev pub EqStack : Type 0
EqStack = List (TaggedPtr × TaggedPtr)

unfoldable pub on_stack : (tp₁ tp₂ : TaggedPtr) → EqStack → Bool
on_stack tp₁ tp₂ [] = false
on_stack tp₁ tp₂ (top ∷ next) = ((tp₁ == top.0) && (tp₂ == top.1)) || on_stack tp₁ tp₂ next

-- `if (!equal) return false;`
unfoldable pub and_also : (equal rest : Run Bool) → Run Bool
and_also equal rest = equal >>= λ e. if e then rest else done false

module _ (memory : Memory) where
  module _ (equal : TaggedPtr → TaggedPtr → Run Bool) where
    -- `rounds` of the indices are left, from `i` on
    unfoldable pub members_equal : (p₁ p₂ : TaggedPtr) (rounds i : ℕ) → Run Bool
    unfolding and_also
    members_equal p₁ p₂ zero i = done true
    members_equal p₁ p₂ (suc rounds) i =
        let rest = members_equal p₁ p₂ rounds (suc i) in
        and_also (equal (memory.get p₁ i) (memory.get p₂ i)) rest

    unfoldable pub list_eq_internal : (p₁ p₂ : TaggedPtr) → Run Bool
    unfolding members_equal
    list_eq_internal p₁ p₂ =
        let len = memory.list_length (tagged_to_ptr p₁) in
        let members = members_equal p₁ p₂ len 0 in
        if memory.list_length (tagged_to_ptr p₂) == len then members else done false

    unfoldable pub fields_equal : (m₁ m₂ : Mapping) (rounds i : ℕ) → Run Bool
    unfolding and_also load lookup
    fields_equal m₁ m₂ zero i = done true
    fields_equal m₁ m₂ (suc rounds) i =
        let rest = fields_equal m₁ m₂ rounds (suc i) in
        load m₁.fields map_field_size_shift i >>= λ f₁.
        lookup memory.key m₂ f₁.key (memory.key.hash f₁.key) >>= elim [
          | negsuc _ ↦ done false
          | pos j ↦ load m₂.fields map_field_size_shift j >>= λ f₂.
              and_also (equal f₁.value f₂.value) rest
        ]

    unfoldable pub mapping_eq_internal : (p₁ p₂ : TaggedPtr) → Run Bool
    unfolding fields_equal
    mapping_eq_internal p₁ p₂ =
        let m₁ = memory.mapping_at (tagged_to_ptr p₁) in
        let m₂ = memory.mapping_at (tagged_to_ptr p₂) in
        let fields = fields_equal m₁ m₂ m₁.fields.length 0 in
        if m₂.fields.length == m₁.fields.length then fields else done false

  -- the cases of the `switch` that look at no members
  unfoldable pub scalar_eq : (tag : ℕ) → (tp₁ tp₂ : TaggedPtr) → Bool
  scalar_eq tag tp₁ tp₂ =
      if tag == tag_string
      then memory.key.equal tp₁ tp₂
      else if tag == tag_int
      then memory.int_at (tagged_to_ptr tp₁) == memory.int_at (tagged_to_ptr tp₂)
      else if tag == tag_float
      then memory.float_eq (memory.double_at (tagged_to_ptr tp₁))
          (memory.double_at (tagged_to_ptr tp₂))
      else if tag == tag_decimal
      then memory.decimal_cmp tp₁ tp₂ == 0
      else false

  -- `taggedPtrEq`, with fuel for the depth of the calls
  unfoldable pub tagged_ptr_eq : (fuel : ℕ) → (tp₁ tp₂ : TaggedPtr) → EqStack → Run Bool
  unfolding on_stack scalar_eq list_eq_internal mapping_eq_internal
  tagged_ptr_eq zero tp₁ tp₂ stack = diverged
  tagged_ptr_eq (suc fuel) tp₁ tp₂ stack =
      let equal : TaggedPtr → TaggedPtr → Run Bool =
        λ a b. tagged_ptr_eq fuel a b ((tp₁, tp₂) ∷ stack) in
      let lists = list_eq_internal equal tp₁ tp₂ in
      let mappings = mapping_eq_internal equal tp₁ tp₂ in
      let tag = get_tag tp₁ in
      if tp₁ == tp₂
      then done true
      else if tag == get_tag tp₂
      then if (tag == tag_list) || (tag == tag_mapping)
        then if on_stack tp₁ tp₂ stack
          then done true
          else if tag == tag_list
          then lists
          else mappings
        else done (scalar_eq tag tp₁ tp₂)
      else done false

  unfoldable pub bal_eq : (fuel : ℕ) → (tp₁ tp₂ : TaggedPtr) → Run Bool
  unfolding tagged_ptr_eq
  bal_eq fuel tp₁ tp₂ = tagged_ptr_eq fuel tp₁ tp₂ []

  unfoldable pub list_eq : (fuel : ℕ) → (p₁ p₂ : TaggedPtr) → Run Bool
  unfolding list_eq_internal tagged_ptr_eq
  list_eq fuel p₁ p₂ = list_eq_internal (λ a b. tagged_ptr_eq fuel a b []) p₁ p₂

  unfoldable pub mapping_eq : (fuel : ℕ) → (p₁ p₂ : TaggedPtr) → Run Bool
  unfolding mapping_eq_internal tagged_ptr_eq
  mapping_eq fuel p₁ p₂ = mapping_eq_internal (λ a b. tagged_ptr_eq fuel a b []) p₁ p₂

  -- structures and functions are the same where they stand at one address, whatever the exact bit
  unfoldable pub exact_eq : (tp₁ tp₂ : TaggedPtr) → Bool
  exact_eq tp₁ tp₂ =
      let tag = get_tag tp₁ in
      if tp₁ == tp₂
      then true
      else if tag == get_tag tp₂
      then if tag == tag_string
        then memory.key.equal tp₁ tp₂
        else if tag == tag_int
        then memory.int_at (tagged_to_ptr tp₁) == memory.int_at (tagged_to_ptr tp₂)
        else if tag == tag_float
        then memory.float_exact_eq (memory.double_at (tagged_to_ptr tp₁))
            (memory.double_at (tagged_to_ptr tp₂))
        else if tag == tag_decimal
        then memory.decimal_exact_eq tp₁ tp₂
        else if (tag == tag_list) || (tag == tag_mapping) || (tag == tag_function)
        then tagged_to_ptr tp₁ == tagged_to_ptr tp₂
        else false
      else false
