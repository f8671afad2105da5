-- ===== src/Mapping/Members.antt =====
-- `_bal_mapping_init_member`: a new field keeps a mapping valid.
use native.Mathlib.Nat.{mod-lt}
use native.Mathlib.Numerals.{add-one}
use nballerina.Prelude.{
  ℕ, suc, ◌+◌, ◌-◌, ◌%◌, ◌^◌, ◌<◌, ◌≡◌, inl, inr, sym, ap, ◌∙◌, arith, false, ◌==◌, ==_refl,
  lt-or-le, [], ◌∷◌, ◌++◌, update, cells-update_end,
}
use nballerina.Array.{map_field_shift, map_field_size_shift}
use nballerina.Array.Access.{view, with_cell, store_within}
use nballerina.List.Room.{cells_resize}
use nballerina.Mapping.Lookup.{slot_count, slots, has_key, lookup_distinct-FreeAt, slot_count-pos}
use nballerina.Mapping.Methods.{mapping_push, mapping_init_member}
use nballerina.Mapping.Push.{inserted, insert-inserted, slots-inserted}
use nballerina.Mapping.Slots.{back-lt, FreeAt, Holds, Holds-ext, insert-Holds}
use nballerina.Mapping.Table.{Key, MapField, Mapping}
use nballerina.Mapping.Valid.{IsValid, home, few_occupied}
use nballerina.Prelude.Int.{negsuc}
use nballerina.Run.{done, Returns}
use nballerina.Tagged.{TaggedPtr}

-- the mapping after a push into slot `s`
abbrev pub pushed : Mapping → (k value : TaggedPtr) → (s : ℕ) → Mapping
pushed m k value s =
    let f = with_cell m.fields m.fields.length (record { key = k; value = value }) in
    record (inserted m s m.fields.length) { fields = record f { length = m.fields.length + 1 } }

-- a valid mapping with one more field at the end
pub record Added (key : Key) (m : Mapping) (k value : TaggedPtr) (r : Mapping) : Type 0 where
  pub valid : IsValid key r
  pub appended : view r.fields ≡ view m.fields ++ record { key = k; value = value } ∷ []

module _ (key : Key) (m : Mapping) (k value : TaggedPtr) (valid : IsValid key m)
    (room : m.fields.length < m.fields.capacity) where
  pub mapping_push-pushed :
      (s : ℕ) → s < slot_count m → mapping_push m k value (negsuc s) ≡ done (pushed m k value s)
  unfolding mapping_push
  mapping_push-pushed s h = rw (
    store_within map_field_size_shift map_field_shift (omega arith) m.fields valid.fields
        m.fields.length room (record { key = k; value = value }),
    insert-inserted
        (record m {
          fields = with_cell m.fields m.fields.length (record { key = k; value = value });
        })
        (record {
          narrow = valid.table.narrow;
          some_slots = valid.table.some_slots;
          element = valid.table.element;
          roomy = valid.table.roomy;
          sized = valid.table.sized;
        })
        s m.fields.length h,
  )

  pub cell-old :
      (s j : ℕ)
      → j < m.fields.length
      → (pushed m k value s).fields.members.cell j ≡ m.fields.members.cell j
  cell-old s j h = let other : (m.fields.length == j) ≡ false = ground arith in rw other

  pub cell-new :
      (s : ℕ)
      → (pushed m k value s).fields.members.cell m.fields.length ≡ record { key = k; value = value }
  cell-new s = rw ==_refl

  home-old : (s j : ℕ) → j < m.fields.length → home key m j ≡ home key (pushed m k value s) j
  home-old s j h = ap (λ (f : MapField). key.hash f.key % slot_count m) (sym (cell-old s j h))

  home-new : (s : ℕ) → home key (pushed m k value s) m.fields.length ≡ key.hash k % slot_count m
  home-new s = rw ==_refl

  pub view-pushed :
      (s : ℕ)
      → view (pushed m k value s).fields ≡ view m.fields ++ record { key = k; value = value } ∷ []
  view-pushed s =
      cells_resize
        (update m.fields.members.cell m.fields.length (record { key = k; value = value }))
        (add-one m.fields.length)
      ∙ cells-update_end m.fields.length m.fields.members.cell (record { key = k; value = value })

module _ (key : Key) (m : Mapping) (k value : TaggedPtr) (valid : IsValid key m)
    (room : m.fields.length < m.fields.capacity)
    (absent : (j : ℕ) → j < m.fields.length → has_key key m k j ≡ false) where
  pub distinct-new :
      (s i j : ℕ)
      → i < j
      → j < m.fields.length + 1
      → key.equal
          ((pushed m k value s).fields.members.cell i).key
          ((pushed m k value s).fields.members.cell j).key
        ≡ false
  distinct-new s i j lt le = elim (lt-or-le j m.fields.length) [
    | inl old ↦
        ap (λ (f : MapField). key.equal f.key ((pushed m k value s).fields.members.cell j).key)
          (cell-old key m k value valid room s i (omega arith))
        ∙ ap (λ (f : MapField). key.equal (m.fields.members.cell i).key f.key)
            (cell-old key m k value valid room s j old)
        ∙ valid.distinct i j lt old
    | inr ge ↦
        let last : j ≡ m.fields.length = omega arith in
        ap (λ (f : MapField). key.equal f.key ((pushed m k value s).fields.members.cell j).key)
          (cell-old key m k value valid room s i (omega arith))
        ∙ ap
            (λ n.
              key.equal (m.fields.members.cell i).key
                ((pushed m k value s).fields.members.cell n).key)
            last
        ∙ ap (λ (f : MapField). key.equal (m.fields.members.cell i).key f.key)
            (cell-new key m k value valid room s)
        ∙ absent i (omega arith)
  ]

module _ (key : Key) (m : Mapping) (k value : TaggedPtr) (valid : IsValid key m)
    (room : m.fields.length < m.fields.capacity)
    (half : suc (m.fields.length) < 2 ^ (m.table_length_shift - 1))
    (absent : (j : ℕ) → j < m.fields.length → has_key key m k j ≡ false) where
  pushed-Holds :
      (s : ℕ)
      → FreeAt (slots m) (slot_count m) (key.hash k % slot_count m) s
      → Holds
          (slot_count m)
          (home key (pushed m k value s))
          (suc (m.fields.length))
          (slots (pushed m k value s))
  pushed-Holds s free =
      let old =
        Holds-ext (slot_count m) (home key m) (home key (pushed m k value s)) m.fields.length
          (slots m) (home-old key m k value valid room s) valid.holds in
      let new =
        insert-Holds (slot_count m) (home key (pushed m k value s)) m.fields.length (slots m) old s
          (rw (home-new key m k value valid room s) (mod-lt (key.hash k) (slot_count-pos m)))
          (rw (home-new key m k value valid room s) free) in
      rw (slots-inserted m valid.table s m.fields.length half) new

  pub pushed-IsValid :
      (s : ℕ)
      → FreeAt (slots m) (slot_count m) (key.hash k % slot_count m) s
      → IsValid key (pushed m k value s)
  pushed-IsValid s free = record {
    fields = record { fits = omega arith; small = valid.fields.small; sized = valid.fields.sized };
    table = record {
      narrow = valid.table.narrow;
      some_slots = valid.table.some_slots;
      element = valid.table.element;
      roomy = valid.table.roomy;
      sized = valid.table.sized;
    };
    half = omega (arith, half);
    holds = rw add-one (pushed-Holds s free);
    distinct = distinct-new key m k value valid room absent s;
  }

  -- On a valid mapping with space for one more field in its array and in half of its table,
  -- `_bal_mapping_init_member` with a key that no field has returns a valid mapping whose fields
  -- are the old ones and the new one at the end
  pub mapping_init_member-Added :
      (junk : ℕ → MapField) → Returns (mapping_init_member key junk m k value) (Added key m k value)
  unfolding mapping_init_member
  mapping_init_member-Added junk =
      let (s, run, free) =
        lookup_distinct-FreeAt m valid.table (key.hash k) (few_occupied key m valid k) in
      let (d, lt, at, _, _) = free in
      let inside : s < slot_count m = rw at (
        back-lt (slot_count m) (key.hash k % slot_count m) d
          (mod-lt (key.hash k) (slot_count-pos m)) lt) in
      (
        pushed m k value s,
        rw (run, mapping_push-pushed key m k value valid room s inside),
        record { valid = pushed-IsValid s free; appended = view-pushed key m k value valid room s },
      )
