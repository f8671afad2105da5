-- ===== src/Mapping/Fresh.antt =====
-- A table that was just allocated.
use native.Mathlib.Nat.{pow-le-pow_right, mod-eq_of_lt}
use nballerina.Prelude.{
  one_times, pow-sum, ℕ, ◌+◌, ◌*◌, ◌^◌, ◌≤◌, ◌≡◌, ◌∙◌, arith, ==_refl, Option, none, fun_ext,
}
use nballerina.Mapping.Lookup.{slots, IsTable}
use nballerina.Mapping.Slots.{Holds, Holds-empty}
use nballerina.Mapping.Table.{Mapping, alloc_table}
use nballerina.Mapping.Valid.{home}

-- a table that was just allocated
module _ (m : Mapping) (narrow : m.table_length_shift ≤ 30) (some_slots : 2 ≤ m.table_length_shift)
    (element : m.table_element_shift ≤ 3)
    (roomy : m.table_length_shift ≤ 8 * 2 ^ m.table_element_shift + 1) where
  pub alloc_table-IsTable : IsTable (alloc_table m)
  unfolding alloc_table
  alloc_table-IsTable =
      let bound : m.table_length_shift + m.table_element_shift ≤ 33 = omega arith in
      let wide : 2 ^ (m.table_length_shift + m.table_element_shift) ≤ 2 ^ 33 =
        pow-le-pow_right (omega arith) bound in
      record {
        narrow = narrow;
        some_slots = some_slots;
        element = element;
        roomy = roomy;
        sized =
            mod-eq_of_lt (omega (arith, wide))
            ∙ one_times (2 ^ (m.table_length_shift + m.table_element_shift))
            ∙ pow-sum m.table_length_shift m.table_element_shift;
      }

pub slots-alloc_table : (m : Mapping) → slots (alloc_table m) ≡ λ _. none
unfolding alloc_table
slots-alloc_table m = fun_ext λ q. rw ==_refl

pub Holds-none :
    (n len : ℕ) (home : ℕ → ℕ) (t : ℕ → Option ℕ) → len ≡ 0 → t ≡ (λ _. none) → Holds n home len t
Holds-none n len home t e f = rw (e, f) (Holds-empty n home)
