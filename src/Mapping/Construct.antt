-- ===== src/Mapping/Construct.antt =====
-- `_bal_mapping_construct` makes a valid mapping with no field.
use native.Mathlib.Nat.{pow-le-pow_right}
use nballerina.Prelude.{
  ℕ, zero, suc, ◌+◌, ◌-◌, ◌*◌, ◌^◌, ◌≤◌, ◌<◌, ◌≡◌, inl, inr, refl, ap, arith, leb, Bool-cases, [],
  leb→le, leb-false, lt-or-le,
}
use nballerina.Array as Arrays
use nballerina.Array.{map_field_shift, array_length_max, init_generic_array, shl64}
use nballerina.Array.Access.{view}
use nballerina.Mapping.Fresh.{alloc_table-IsTable, slots-alloc_table, Holds-none}
use nballerina.Mapping.Methods.{mapping_construct}
use nballerina.Mapping.Table.{
  Key, MapField, Mapping, length_shift_loop, element_shift_loop, init_table, alloc_table,
}
use nballerina.Mapping.Valid.{IsValid}
use nballerina.Run.{Returns}

-- the loop stops at a shift whose power is above the capacity
length_shift_loop-above :
    (fuel shift top capacity : ℕ)
    → shift ≤ top
    → capacity < 2 ^ top
    → top < shift + fuel
    → Returns
        (length_shift_loop fuel shift capacity)
        (λ r. (shift ≤ r) × (r ≤ top) × (capacity < 2 ^ r))
unfolding length_shift_loop
length_shift_loop-above zero shift top capacity h k f = absurd (omega arith)
length_shift_loop-above (suc fuel) shift top capacity h k f =
    elim (Bool-cases (leb (2 ^ shift) capacity)) [
      | inr e ↦ (shift, rw e, (omega arith, h, leb-false _ _ e))
      | inl e ↦
          let less : shift < top = elim (lt-or-le shift top) [
            | inl lt ↦ lt
            | inr ge ↦
                let same : shift ≡ top = omega arith in
                absurd (omega (arith, leb→le _ _ e, ap (λ n. 2 ^ n) same))
          ] in
          let (r, run, (p, q, t)) =
            length_shift_loop-above fuel (shift + 1) top capacity (omega arith) k (omega arith) in
          (r, rw e run, (omega arith, q, t))
    ]

element_shift_loop-roomy :
    (n : ℕ) → n ≤ 29 → Returns (element_shift_loop 3 1 n) (λ r. (r ≤ 2) × (n ≤ 8 * 2 ^ r))
unfolding element_shift_loop
element_shift_loop-roomy n h = elim (lt-or-le 16 n) [
  | inl more ↦ (2, ground arith, (omega arith, omega arith))
  | inr less ↦ (1, ground arith, (omega arith, omega arith))
]

-- a valid mapping with no field, and space for the fields that were announced
pub record Constructed (key : Key) (n : ℕ) (r : Mapping) : Type 0 where
  pub valid : IsValid key r
  pub no_field : view r.fields ≡ []
  pub announced : r.fields.capacity ≡ n
  pub half : n < 2 ^ (r.table_length_shift - 1)

module _ (key : Key) (m : Mapping) (n e : ℕ) (fits : Arrays.IsValid map_field_shift m.fields)
    (empty : m.fields.length ≡ 0) where
  -- the mapping before its table is allocated
  abbrev shifted : Mapping
  shifted = record m { table_length_shift = n + 1; table_element_shift = e }

  alloc_table-IsValid : 2 ≤ n → n ≤ 29 → e ≤ 2 → n ≤ 8 * 2 ^ e → IsValid key (alloc_table shifted)
  unfolding alloc_table
  alloc_table-IsValid low high small roomy =
      let four : 2 ≤ n + 1 - 1 = omega arith in
      record {
        fields = fits;
        table = alloc_table-IsTable shifted (omega arith) (omega arith) (omega arith) (omega arith);
        half =
            (let some_room : 2 ^ 2 ≤ 2 ^ (n + 1 - 1) = pow-le-pow_right (omega arith) four in
              omega (arith, some_room, empty));
        holds = Holds-none (2 ^ (n + 1)) _ _ _ empty (slots-alloc_table shifted);
        distinct = λ i j lt le. absurd (omega (arith, empty));
      }

new_fields :
    (junk : ℕ → MapField) (n : ℕ)
    → n < 2 ^ 29
    → Arrays.IsValid map_field_shift (init_generic_array junk n map_field_shift)
unfolding init_generic_array
new_fields junk n small = record { fits = omega arith; small = omega arith; sized = ground arith }

-- For a capacity below 2 ^ 29 `_bal_mapping_construct` returns a valid mapping with no field, with
-- that capacity, which is also less than half of the slots of its table
pub mapping_construct-Constructed :
    (key : Key) (junk : ℕ → MapField) (n : ℕ)
    → n < 2 ^ 29
    → Returns (mapping_construct key junk n) (Constructed key n)
unfolding mapping_construct init_table init_generic_array alloc_table
mapping_construct-Constructed key junk n small =
    let (l, run, (low, high, above)) =
      length_shift_loop-above 29 2 29 n (omega arith) small (omega arith) in
    let (e, run', (narrow, roomy)) = element_shift_loop-roomy l high in
    let back : l ≡ l + 1 - 1 = omega arith in
    let half_above : n < 2 ^ (l + 1 - 1) = rw (← back) above in
    let fields = init_generic_array junk n map_field_shift in
    let start : Mapping = record {
      fields = fields;
      table = record { size = 0; cell = λ _. 0 };
      table_element_shift = 0;
      table_length_shift = 0;
    } in
    (
      alloc_table (record start { table_length_shift = l + 1; table_element_shift = e }),
      rw (run, run'),
      record {
        valid =
            alloc_table-IsValid key start l e (new_fields junk n small) refl low high narrow roomy;
        no_field = refl;
        announced = refl;
        half = half_above;
      },
    )
