-- ===== src/Tagged/Exact.antt =====
-- The exact bit (runtime/tagged_inline.c, runtime/structure_inline.c).
use nballerina.Prelude.{ℕ, ◌≡◌, ◌≢◌, arith, true, false}
use nballerina.Tagged.{
  is_immediate, tagged_to_ptr, exact_bit, get_tag, structure_exactify, tagged_clear_exact_any,
  tagged_member_clear_exact_any,
}

-- Clearing the exact bit keeps the tag and the address, leaves an immediate value as it is, and
-- clears the bit of any other
tagged_clear_exact_any_keeps :
    (p : ℕ)
    → (get_tag (tagged_clear_exact_any p) ≡ get_tag p)
      × (tagged_to_ptr (tagged_clear_exact_any p) ≡ tagged_to_ptr p)
      × (is_immediate p ≡ true → tagged_clear_exact_any p ≡ p)
      × (is_immediate p ≡ false → exact_bit (tagged_clear_exact_any p) ≡ 0)
unfolding tagged_clear_exact_any
tagged_clear_exact_any_keeps p = ground arith

-- A member read through a structure is exact only if the structure is, and stays the same value.
tagged_member_clear_exact_any_keeps :
    (s m : ℕ)
    → (tagged_to_ptr (tagged_member_clear_exact_any s m) ≡ tagged_to_ptr m)
      × (exact_bit s ≡ 1 → tagged_member_clear_exact_any s m ≡ m)
      × (exact_bit s ≡ 0 → tagged_member_clear_exact_any s m ≡ tagged_clear_exact_any m)
unfolding tagged_member_clear_exact_any tagged_clear_exact_any
tagged_member_clear_exact_any_keeps s m = ground arith

-- `_bal_structure_exactify` keeps address and tag, sets the exact bit where the descriptor has the
-- wanted type identifier, changes nothing where it has not, and a second call changes nothing
structure_exactify_lem :
    (p tid wanted : ℕ)
    → (tagged_to_ptr (structure_exactify p tid wanted) ≡ tagged_to_ptr p)
      × (get_tag (structure_exactify p tid wanted) ≡ get_tag p)
      × (tid ≡ wanted → exact_bit (structure_exactify p tid wanted) ≡ 1)
      × (tid ≢ wanted → structure_exactify p tid wanted ≡ p)
      × (structure_exactify (structure_exactify p tid wanted) tid wanted
          ≡ structure_exactify p tid wanted)
unfolding structure_exactify
structure_exactify_lem p tid wanted =
    (ground arith, ground arith, ground arith, ground arith, ground arith)
