-- ===== src/Mapping/Fields.antt =====
-- Fields that are copied or written: a mapping stays valid while the keys stay.
use native.Mathlib.Nat.{mod-eq_of_lt}
use nballerina.Prelude.{
  ℕ, ◌*◌, ◌%◌, ◌^◌, ◌≤◌, ◌<◌, ◌≡◌, ◌≢◌, refl, sym, ap, ◌∙◌, arith, Bool-cases, inl, inr, leb,
  leb→le, leb-false,
}
use nballerina.Array as Arrays
use nballerina.Array.{GenericArray, map_field_shift, array_grow, array_length_max, shl64}
use nballerina.Array.Growth.{array_grow-Grown_within, next_capacity-room}
use nballerina.Mapping.Methods.{grow_fields}
use nballerina.Mapping.Lookup.{slot_count}
use nballerina.Mapping.Slots.{Holds-ext}
use nballerina.Mapping.Table.{Key, MapField, Mapping}
use nballerina.Mapping.Valid.{IsValid, home}
use nballerina.Run.{done}

abbrev pub with_fields : Mapping → GenericArray MapField → Mapping
with_fields m fields = record m { fields = fields }

module _ (key : Key) (m : Mapping) (fields : GenericArray MapField) (valid : IsValid key m)
    (fits : Arrays.IsValid map_field_shift fields) (same_length : fields.length ≡ m.fields.length)
    (same_keys : (j : ℕ)
      → j < m.fields.length
      → (fields.members.cell j).key ≡ (m.fields.members.cell j).key) where
  pub same_keys-IsValid : IsValid key (with_fields m fields)
  same_keys-IsValid = record {
    fields = fits;
    table = record {
      narrow = valid.table.narrow;
      some_slots = valid.table.some_slots;
      element = valid.table.element;
      roomy = valid.table.roomy;
      sized = valid.table.sized;
    };
    half = omega (arith, valid.half);
    holds = rw same_length (
        Holds-ext (slot_count m) (home key m) (home key (with_fields m fields)) m.fields.length _
          (λ j h. ap (λ k. key.hash k % slot_count m) (sym (same_keys j h))) valid.holds);
    distinct = λ i j lt le.
        (let inside : j < m.fields.length = omega arith in
          ap (λ k. key.equal k (fields.members.cell j).key) (same_keys i (omega arith))
          ∙ ap (λ k. key.equal (m.fields.members.cell i).key k) (same_keys j inside)
          ∙ valid.distinct i j lt inside);
  }

-- a capacity that grows, in the range in which the sizes do not wrap
pub record IsGrowing (m : Mapping) : Type 0 where
  pub grows : m.fields.capacity ≢ 1
  pub small : m.fields.capacity ≤ 2 ^ 31

-- room for one more field, with the same fields
pub record Roomy (key : Key) (m : Mapping) (fields : GenericArray MapField) : Type 0 where
  pub valid : IsValid key (with_fields m fields)
  pub growing : IsGrowing (with_fields m fields)
  pub room : fields.length < fields.capacity
  pub length : fields.length ≡ m.fields.length
  pub same : (j : ℕ) → j < m.fields.length → fields.members.cell j ≡ m.fields.members.cell j

field_shift_exact : (n : ℕ) → n ≤ 2 ^ 33 → shl64 n map_field_shift ≡ n * 2 ^ map_field_shift
field_shift_exact n h = mod-eq_of_lt (omega arith)

pub grow_fields-Roomy :
    (key : Key) (junk : ℕ → MapField) (m : Mapping)
    → IsValid key m
    → IsGrowing m
    → m.fields.length < 2 ^ 30
    → (fields : GenericArray MapField) × (grow_fields key junk m ≡ done (with_fields m fields))
      × Roomy key m fields
unfolding grow_fields
grow_fields-Roomy key junk m valid growing few =
    elim (Bool-cases (leb m.fields.capacity m.fields.length)) [
      | inr e ↦ (
        m.fields,
        rw e,
        record {
          valid = valid;
          growing = growing;
          room = leb-false _ _ e;
          length = refl;
          same = λ j h. refl;
        },
      )
      | inl e ↦
          let full : m.fields.capacity ≡ m.fields.length =
            omega (arith, leb→le _ _ e, valid.fields.fits) in
          let (fields, run, g) =
            array_grow-Grown_within junk map_field_shift (2 ^ 33) field_shift_exact 0 m.fields
              valid.fields (omega arith) (omega arith)
              (next_capacity-room m.fields.capacity (omega arith)) (omega arith) in
          (
            fields,
            rw (e, run),
            record {
              valid =
                  same_keys-IsValid key m fields valid g.valid g.length
                    (λ j h. ap (λ (f : MapField). f.key) (g.kept j h));
              growing = record {
                grows = λ one. absurd (omega (arith, g.usable growing.grows));
                small = ground (arith, g.bounded);
              };
              room = omega (arith, g.more growing.grows, g.length);
              length = g.length;
              same = g.kept;
            },
          )
    ]
