-- ===== src/Mapping/Push.antt =====
-- Putting an index into a slot, a new field, and the table that is built anew.
use native.Mathlib.Nat.{mod-eq_of_lt, pow-le-pow_right}
use nballerina.Prelude.{
  ℕ, suc, ◌+◌, ◌-◌, ◌*◌, ◌%◌, ◌^◌, ◌≤◌, ◌<◌, ◌≡◌, fun_ext, arith, some, le→leb, update,
}
use nballerina.Prelude.Int.{negsuc}
use nballerina.Array.Growth.{mul_mono}
use nballerina.Mapping.Lookup.{slot_count, slots, IsTable, element-mod}
use nballerina.Mapping.Table.{Mapping, empty_marker, insert, put}
use nballerina.Run.{done}

-- the mapping with `v` in slot `s`
abbrev pub inserted : Mapping → (s v : ℕ) → Mapping
inserted m s v = record m {
  table = record {
    size = m.table.size;
    cell = update m.table.cell s (v % 2 ^ (8 * 2 ^ (m.table_element_shift % 4)));
  };
}

module _ (m : Mapping) (table : IsTable m) (s v : ℕ) where
  pub insert-inserted : s < slot_count m → insert m (negsuc s) v ≡ done (inserted m s v)
  unfolding insert put
  insert-inserted h = rw (
      le→leb ((s + 1) * 2 ^ (m.table_element_shift % 4)) m.table.size (
        rw (element-mod m.table_element_shift table.element) (
          omega (
            arith,
            table.sized,
            mul_mono (s + 1) (slot_count m) (2 ^ m.table_element_shift) (omega arith),
          ))))

  pub inserted-IsTable : IsTable (inserted m s v)
  inserted-IsTable = record {
    narrow = table.narrow;
    some_slots = table.some_slots;
    element = table.element;
    roomy = table.roomy;
    sized = table.sized;
  }

  -- the index of a field that leaves the table at most half full is no marker
  marker_room :
      suc v < 2 ^ (m.table_length_shift - 1) → v < empty_marker (m.table_element_shift % 4)
  marker_room h =
      let wide : 2 ^ (m.table_length_shift - 1) ≤ 2 ^ (8 * 2 ^ m.table_element_shift) =
        pow-le-pow_right (omega arith) (omega (arith, table.roomy)) in
      rw (element-mod m.table_element_shift table.element) (omega (arith, wide))

  pub slots-inserted :
      suc v < 2 ^ (m.table_length_shift - 1) → slots (inserted m s v) ≡ update (slots m) s (some v)
  slots-inserted h =
      let small = marker_room h in
      let kept : v % 2 ^ (8 * 2 ^ (m.table_element_shift % 4)) ≡ v = mod-eq_of_lt (omega arith) in
      fun_ext λ q. slot_case q small kept
    where
      slot_case :
          (q : ℕ)
          → v < empty_marker (m.table_element_shift % 4)
          → v % 2 ^ (8 * 2 ^ (m.table_element_shift % 4)) ≡ v
          → slots (inserted m s v) q ≡ update (slots m) s (some v) q
      slot_case q small kept = rw kept (ground arith)
