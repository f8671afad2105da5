-- ===== src/Mapping/Rebuild.antt =====
-- `mappingGrow`: the table is built anew, with twice the slots.
use native.Mathlib.Nat.{mod-lt, pow-le-pow_right, pow-succ'}
use native.Mathlib.Numerals.{add-one}
use nballerina.Prelude.{
  ℕ, zero, suc, ◌+◌, ◌-◌, ◌*◌, ◌%◌, ◌^◌, ◌≤◌, ◌<◌, ◌≡◌, refl, sym, subst, ap, ◌∙◌, arith, false,
  Bool-cases, inl, inr, lt-or-le, ltb, ltb→lt, ltb-false, if◌then◌else◌,
}
use nballerina.Array as Arrays
use nballerina.Array.{GenericArray, map_field_shift, map_field_size_shift}
use nballerina.Array.Access.{load_within}
use nballerina.Mapping.Fresh.{alloc_table-IsTable, slots-alloc_table, Holds-none}
use nballerina.Mapping.Methods.{reinsert, mapping_grow}
use nballerina.Mapping.Lookup.{slot_count, slots, IsTable, lookup_distinct-FreeAt, slot_count-pos}
use nballerina.Mapping.Push.{inserted, insert-inserted, inserted-IsTable, slots-inserted}
use nballerina.Mapping.Slots.{back-lt, Holds, insert-Holds, occupied}
use nballerina.Mapping.Table.{Key, MapField, Mapping, grow_table, alloc_table}
use nballerina.Mapping.Valid.{IsValid, home, half-slot_count}
use nballerina.Run.{Returns}

-- a table that holds the first `i` fields, and has space for all
pub record Holding (key : Key) (fields : GenericArray MapField) (length_shift i : ℕ) (m : Mapping)
    : Type 0 where
  pub same : m.fields ≡ fields
  pub same_shift : m.table_length_shift ≡ length_shift
  pub fits : Arrays.IsValid map_field_shift m.fields
  pub table : IsTable m
  pub half : m.fields.length < 2 ^ (m.table_length_shift - 1)
  pub holds : Holds (slot_count m) (home key m) i (slots m)

module _ (key : Key) (fields : GenericArray MapField) (length_shift : ℕ) where
  reinsert-Holding :
      (rounds i : ℕ) (m : Mapping)
      → Holding key fields length_shift i m
      → m.fields.length ≡ i + rounds
      → Returns (reinsert key rounds i m) (Holding key fields length_shift m.fields.length)
  unfolding reinsert
  reinsert-Holding zero i m h e = (
    m,
    refl,
    (let all : i ≡ m.fields.length = omega arith in
        subst (λ n. Holding key fields length_shift n m) all h),
  )
  reinsert-Holding (suc rounds) i m h e =
      let k = (m.fields.members.cell i).key in
      let few : occupied (slots m) (slot_count m) < slot_count m =
        omega (arith, half-slot_count m h.table, h.holds.few, h.half) in
      let (s, run, free) = lookup_distinct-FreeAt m h.table (key.hash k) few in
      let (d, lt, at, _, _) = free in
      let start : key.hash k % slot_count m < slot_count m =
        mod-lt (key.hash k) (slot_count-pos m) in
      let inside : s < slot_count m =
        rw at (back-lt (slot_count m) (key.hash k % slot_count m) d start lt) in
      let space : suc i < 2 ^ (m.table_length_shift - 1) = omega (arith, h.half) in
      let (r, run', g) =
        reinsert-Holding rounds (suc i) (inserted m s i)
          (record {
            same = h.same;
            same_shift = h.same_shift;
            fits = h.fits;
            table = inserted-IsTable m h.table s i;
            half = h.half;
            holds =
                rw (slots-inserted m h.table s i space)
                  (insert-Holds (slot_count m) (home key m) i (slots m) h.holds s start free);
          })
          (omega arith) in
      (
        r,
        rw
            (
              load_within map_field_size_shift map_field_shift (omega arith) m.fields h.fits i
                  (omega (arith, h.fits.fits)),
              run,
              insert-inserted m h.table s i inside,
            )
            run',
        g,
      )

-- the size of an element that `growTable` chooses
grown_more :
    (e n : ℕ)
    → n ≤ 29
    → n ≤ 8 * 2 ^ e + 1
    → 8 * 2 ^ e < n
    → (e + 1 ≤ 3) × (n + 1 ≤ 8 * 2 ^ (e + 1) + 1)
grown_more e n h roomy more =
    let twice : 2 ^ (e + 1) ≡ 2 * 2 ^ e = ap (λ k. 2 ^ k) (add-one e) ∙ pow-succ' 2 e in
    let some_bytes : 2 ^ 0 ≤ 2 ^ e = pow-le-pow_right (omega arith) {i = 0} (omega arith) in
    elim (lt-or-le e 2) [
      | inl lt ↦ (omega arith, omega (arith, twice, some_bytes))
      | inr ge ↦
          let wide : 2 ^ 2 ≤ 2 ^ e = pow-le-pow_right (omega arith) {i = 2} ge in
          absurd (omega (arith, wide))
    ]

grown_element :
    (e n : ℕ)
    → n ≤ 29
    → e ≤ 3
    → n ≤ 8 * 2 ^ e + 1
    → ((if ltb (8 * 2 ^ e) n then e + 1 else e) ≤ 3)
      × (n + 1 ≤ 8 * 2 ^ (if ltb (8 * 2 ^ e) n then e + 1 else e) + 1)
grown_element e n h k roomy = elim (Bool-cases (ltb (8 * 2 ^ e) n)) [
  | inr small ↦ rw small (k, omega (arith, ltb-false _ _ small))
  | inl more ↦ rw more (grown_more e n h roomy (ltb→lt _ _ more))
]

reinsert_all :
    (key : Key) (sizes : Mapping)
    → Arrays.IsValid map_field_shift sizes.fields
    → IsTable (alloc_table sizes)
    → sizes.fields.length < 2 ^ (sizes.table_length_shift - 1)
    → Returns
        (reinsert key sizes.fields.length 0 (alloc_table sizes))
        (Holding key sizes.fields sizes.table_length_shift sizes.fields.length)
unfolding alloc_table
reinsert_all key sizes fits table half =
    reinsert-Holding key sizes.fields sizes.table_length_shift sizes.fields.length 0
      (alloc_table sizes)
      (record {
        same = refl;
        same_shift = refl;
        fits = fits;
        table = table;
        half = half;
        holds = Holds-none (slot_count (alloc_table sizes)) 0 _ _ refl (slots-alloc_table sizes);
      })
      (omega arith)

-- Building the table anew keeps the fields, doubles the slots, and every field is found.
pub mapping_grow-Holding :
    (key : Key) (m : Mapping)
    → Arrays.IsValid map_field_shift m.fields
    → 2 ≤ m.table_length_shift
    → m.table_length_shift ≤ 29
    → m.table_element_shift ≤ 3
    → m.table_length_shift ≤ 8 * 2 ^ m.table_element_shift + 1
    → m.fields.length < 2 ^ m.table_length_shift
    → Returns (mapping_grow key m) (Holding key m.fields (m.table_length_shift + 1) m.fields.length)
unfolding mapping_grow grow_table
mapping_grow-Holding key m fits low narrow element roomy half =
    let (small, wide) =
      grown_element m.table_element_shift m.table_length_shift narrow element roomy in
    let sizes : Mapping = record m {
      table_element_shift =
          if ltb (8 * 2 ^ m.table_element_shift) m.table_length_shift
          then m.table_element_shift + 1
          else m.table_element_shift;
      table_length_shift = m.table_length_shift + 1;
    } in
    let less : m.table_length_shift ≡ m.table_length_shift + 1 - 1 = omega arith in
    reinsert_all key sizes fits (alloc_table-IsTable sizes (omega arith) (omega arith) small wide)
      (rw (← less) half)

pub Holding-IsValid :
    (key : Key) (fields : GenericArray MapField) (length_shift : ℕ) (m : Mapping)
    → Holding key fields length_shift fields.length m
    → ((i j : ℕ)
        → i < j
        → j < fields.length
        → key.equal (fields.members.cell i).key (fields.members.cell j).key ≡ false)
    → IsValid key m
Holding-IsValid key fields length_shift m h distinct = record {
  fields = h.fits;
  table = h.table;
  half = h.half;
  holds = subst (λ f. Holds (slot_count m) (home key m) f.length (slots m)) (sym h.same) h.holds;
  distinct =
      subst
        (λ f.
          (i j : ℕ)
          → i < j
          → j < f.length
          → key.equal (f.members.cell i).key (f.members.cell j).key ≡ false)
        (sym h.same) distinct;
}
