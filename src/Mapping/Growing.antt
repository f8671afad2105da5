-- ===== src/Mapping/Growing.antt =====
-- `mappingGrowPush`: a new field, in an array that grows and a table that is built anew when half of
-- its slots are taken.
use native.Mathlib.Nat.{mod-lt, pow-le-pow_right}
use nballerina.Prelude.{
  ℕ, ◌+◌, ◌-◌, ◌%◌, ◌^◌, ◌≤◌, ◌<◌, ◌≡◌, ap, ◌∙◌, arith, false, leb, leb-false, Bool-cases, inl, inr,
  [], ◌∷◌, ◌++◌, cells_ext,
}
use nballerina.Array.{GenericArray}
use nballerina.Array.Access.{view}
use nballerina.List.Room.{cells_resize}
use nballerina.Mapping.Fields.{with_fields, IsGrowing, Roomy, grow_fields-Roomy}
use nballerina.Mapping.Lookup.{slot_count, slots, has_key, one_shl-narrow, slot_count-pos}
use nballerina.Mapping.Members.{
  pushed, mapping_push-pushed, view-pushed, distinct-new, pushed-IsValid,
}
use nballerina.Mapping.Methods.{mapping_grow, mapping_grow_push}
use nballerina.Mapping.Rebuild.{Holding, mapping_grow-Holding, Holding-IsValid}
use nballerina.Mapping.Slots.{back-lt, FreeAt}
use nballerina.Mapping.Table.{Key, MapField, Mapping}
use nballerina.Mapping.Valid.{IsValid, half-slot_count}
use nballerina.Prelude.Int.{negsuc}
use nballerina.Run.{Returns}
use nballerina.Tagged.{TaggedPtr}

-- a valid mapping with one more field at the end, which can grow further
pub record Appended (key : Key) (m : Mapping) (k value : TaggedPtr) (r : Mapping) : Type 0 where
  pub valid : IsValid key r
  pub growing : IsGrowing r
  pub appended : view r.fields ≡ view m.fields ++ record { key = k; value = value } ∷ []

module _ (key : Key) (junk : ℕ → MapField) (m : Mapping) (k value : TaggedPtr)
    (valid : IsValid key m) (narrow : m.table_length_shift ≤ 29)
    (absent : (j : ℕ) → j < m.fields.length → has_key key m k j ≡ false) (s : ℕ)
    (free : FreeAt (slots m) (slot_count m) (key.hash k % slot_count m) s) where
  few_fields : m.fields.length < 2 ^ 28
  few_fields =
      let wide : 2 ^ (m.table_length_shift - 1) ≤ 2 ^ 28 =
        pow-le-pow_right (omega arith) {j = 28} (omega arith) in
      omega (arith, wide, valid.half)

  free-lt : s < slot_count m
  free-lt =
      let (d, lt, at, _, _) = free in
      rw at (
        back-lt (slot_count m) (key.hash k % slot_count m) d
          (mod-lt (key.hash k) (slot_count-pos m)) lt)

  module _ (fields : GenericArray MapField) (g : Roomy key m fields) where
    absent_still : (j : ℕ) → j < fields.length → has_key key (with_fields m fields) k j ≡ false
    absent_still j h =
        let inside : j < m.fields.length = omega (arith, g.length) in
        ap (λ (f : MapField). key.equal f.key k) (g.same j inside) ∙ absent j inside

    roomy_view :
        view (pushed (with_fields m fields) k value s).fields
        ≡ view m.fields ++ record { key = k; value = value } ∷ []
    roomy_view =
        view-pushed key (with_fields m fields) k value g.valid g.room s
        ∙ ap (λ fs. fs ++ record { key = k; value = value } ∷ [])
            (cells_resize fields.members.cell g.length ∙ cells_ext m.fields.length _ _ g.same)

    rebuilt-Appended :
        (r : Mapping)
        → Holding key
            (pushed (with_fields m fields) k value s).fields
            (m.table_length_shift + 1)
            (fields.length + 1)
            r
        → Appended key m k value r
    rebuilt-Appended r h = record {
      valid =
          Holding-IsValid key _ (m.table_length_shift + 1) r h
            (distinct-new key (with_fields m fields) k value g.valid g.room absent_still s);
      growing = record { grows = rw h.same g.growing.grows; small = rw h.same g.growing.small };
      appended = ap view h.same ∙ roomy_view;
    }

    grown-Appended :
        Returns
          (mapping_grow key (pushed (with_fields m fields) k value s))
          (Appended key m k value)
    grown-Appended =
        let slots_twice = half-slot_count m valid.table in
        let (r, run, h) =
          mapping_grow-Holding key (pushed (with_fields m fields) k value s)
            (record {
              fits = omega (arith, g.room);
              small = g.valid.fields.small;
              sized = g.valid.fields.sized;
            })
            valid.table.some_slots narrow valid.table.element valid.table.roomy
            (omega (arith, slots_twice, valid.half, g.length)) in
        (r, run, rebuilt-Appended r h)

  pub mapping_grow_push-Appended :
      IsGrowing m
      → Returns (mapping_grow_push key junk m k value (negsuc s)) (Appended key m k value)
  unfolding mapping_grow_push
  mapping_grow_push-Appended growing =
      let (fields, run, g) =
        grow_fields-Roomy key junk m valid growing (omega (arith, few_fields)) in
      let pushes =
        mapping_push-pushed key (with_fields m fields) k value g.valid g.room s free-lt in
      elim (Bool-cases (leb (2 ^ (m.table_length_shift - 1)) (m.fields.length + 1))) [
        | inl e ↦
            let (r, run', added) = grown-Appended fields g in
            (
              r,
              rw (run, pushes, one_shl-narrow (m.table_length_shift - 1) (omega arith), e) run',
              added,
            )
        | inr e ↦ (
          pushed (with_fields m fields) k value s,
          rw (run, pushes, one_shl-narrow (m.table_length_shift - 1) (omega arith), e),
          record {
            valid =
                pushed-IsValid key (with_fields m fields) k value g.valid g.room
                  (omega (arith, leb-false _ _ e, g.length)) (absent_still fields g) s free;
            growing = record { grows = g.growing.grows; small = g.growing.small };
            appended = roomy_view fields g;
          },
        )
      ]
