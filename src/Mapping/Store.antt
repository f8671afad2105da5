-- ===== src/Mapping/Store.antt =====
-- `_bal_mapping_set` against a store into the list of fields.
use nballerina.Prelude.{
  ℕ, ◌+◌, ◌≤◌, ◌<◌, ◌≡◌, refl, ap, ◌∙◌, arith, false, true, ltb, if◌then◌else◌, ◌==◌, ==_iff, sym,
  ◌%◌, none, some, Bool-cases, inl, inr,
}
use nballerina.Array.{map_field_shift, map_field_size_shift}
use nballerina.Array.Access.{view, with_cell, load_within, store_within}
use nballerina.Mapping.Fields.{with_fields, IsGrowing, same_keys-IsValid}
use nballerina.Mapping.Growing.{mapping_grow_push-Appended}
use nballerina.Mapping.Lookup.{slot_count, slots, has_key}
use nballerina.Mapping.Slots.{FreeAt}
use nballerina.Mapping.Methods.{MappingDesc, set_value, set_at, mapping_set}
use nballerina.Mapping.Table.{Key, MapField, Mapping, lookup}
use nballerina.Mapping.Valid.{IsValid, Finds, lookup-Finds, distinct-before}
use nballerina.MemberType.{member_type_contains_tagged}
use nballerina.Prelude.Int.{pos, negsuc}
use nballerina.Run.{done, Returns, PanicCode, panic_mapping_store}
use nballerina.Tagged.{TaggedPtr, store_panic_code}
use nballerina.Mapping.Spec.{
  First, place_spec-missing, put_spec-missing, place_spec-First, put_spec-First, type_at, set_spec,
  set_spec-allowed, set_spec-refused,
}

-- a valid mapping that can grow further, whose fields and code are those of the store
pub record Stored {H : Type 0} (key : Key) (p : TaggedPtr) (desc : MappingDesc H) (h : H)
    (m : Mapping) (k value : TaggedPtr) (r : PanicCode × Mapping) : Type 0 where
  pub valid : IsValid key r.1
  pub growing : IsGrowing r.1
  pub outcome : (r.0, view r.1.fields) ≡ set_spec key k p desc h value (view m.fields)

module _ (key : Key) (m : Mapping) (valid : IsValid key m) (i : ℕ) (inside : i < m.fields.length)
    (value : TaggedPtr) where
  abbrev pub replaced : Mapping
  replaced =
      with_fields m
        (with_cell m.fields i (record { key = (m.fields.members.cell i).key; value = value }))

  set_value-replaced : set_value m i value ≡ done replaced
  unfolding set_value
  set_value-replaced =
      let within : i < m.fields.capacity = omega (arith, valid.fields.fits) in
      rw (
        load_within map_field_size_shift map_field_shift (omega arith) m.fields valid.fields i
            within,
        store_within map_field_size_shift map_field_shift (omega arith) m.fields valid.fields i
            within (record { key = (m.fields.members.cell i).key; value = value }),
      )

  replaced-IsValid : IsValid key replaced
  replaced-IsValid =
      same_keys-IsValid key m _ valid
        (record {
          fits = valid.fields.fits;
          small = valid.fields.small;
          sized = valid.fields.sized;
        })
        refl
        (λ j h. elim (Bool-cases (i == j)) [
          | inl e ↦ rw e (ap (λ n. (m.fields.members.cell n).key) ((==_iff i j).0 e))
          | inr e ↦ rw e
        ])

module _ {H : Type 0} (key : Key) (junk : ℕ → MapField) (p : TaggedPtr) (desc : MappingDesc H)
    (h : H) (m : Mapping) (k value : TaggedPtr) (valid : IsValid key m)
    (growing : IsGrowing m) where
  found-Stored :
      (i : ℕ)
      → i < m.fields.length
      → has_key key m k i ≡ true
      → Returns (set_at key junk p desc h m k value (pos i)) (Stored key p desc h m k value)
  unfolding set_at type_at
  found-Stored i inside hit =
      let first : First key k m.fields.members.cell m.fields.length 0 i =
        (omega arith, omega arith, hit, distinct-before key m k i valid inside hit) in
      let place = place_spec-First key k m.fields.length 0 i m.fields.members.cell first in
      elim (Bool-cases (
        member_type_contains_tagged
          (if ltb i desc.n_fields then desc.field_types i else desc.rest_type) h value)) [
            | inl ok ↦ (
              (0, replaced key m valid i inside value),
              rw (ok, set_value-replaced key m valid i inside value),
              record {
                valid = replaced-IsValid key m valid i inside value;
                growing = record { grows = growing.grows; small = growing.small };
                outcome = sym (
                    set_spec-allowed key k p desc h value (view m.fields) (some i) place ok
                    ∙ ap (λ fs. (0, fs))
                        (put_spec-First key k value m.fields.length 0 i m.fields.members.cell
                          first));
              },
            )
            | inr bad ↦ (
              (store_panic_code p panic_mapping_store, m),
              rw bad,
              record {
                valid = valid;
                growing = growing;
                outcome =
                    sym (set_spec-refused key k p desc h value (view m.fields) (some i) place bad);
              },
            )
          ]

  missing-Stored :
      (s : ℕ)
      → m.table_length_shift ≤ 29
      → FreeAt (slots m) (slot_count m) (key.hash k % slot_count m) s
      → ((j : ℕ) → j < m.fields.length → has_key key m k j ≡ false)
      → Returns (set_at key junk p desc h m k value (negsuc s)) (Stored key p desc h m k value)
  unfolding set_at type_at
  missing-Stored s narrow free absent =
      let miss : (j : ℕ) → 0 ≤ j → j < 0 + m.fields.length → has_key key m k j ≡ false =
        λ j p q. absent j (omega arith) in
      let place = place_spec-missing key k m.fields.length 0 m.fields.members.cell miss in
      elim (Bool-cases (member_type_contains_tagged desc.rest_type h value)) [
        | inl ok ↦
            let (r, run, g) =
              mapping_grow_push-Appended key junk m k value valid narrow absent s free growing in
            (
              (0, r),
              rw (ok, run),
              record {
                valid = g.valid;
                growing = g.growing;
                outcome = sym (
                    set_spec-allowed key k p desc h value (view m.fields) none place ok
                    ∙ ap (λ fs. (0, fs))
                        (put_spec-missing key k value m.fields.length 0 m.fields.members.cell miss
                          ∙ sym g.appended));
              },
            )
        | inr bad ↦ (
          (store_panic_code p panic_mapping_store, m),
          rw bad,
          record {
            valid = valid;
            growing = growing;
            outcome = sym (set_spec-refused key k p desc h value (view m.fields) none place bad);
          },
        )
      ]

  -- For a valid mapping whose capacity is not 1 and at most 2 ^ 31 and whose table has at most 2 ^
  -- 29 slots, `_bal_mapping_set` returns, with the panic code and the fields that the
  -- specification `set_spec` gives (the value of the first field with an equal key replaced, a new
  -- field at the end, or no change when the value is not of the type of its place), and leaves the
  -- mapping valid, through the growth of the array and of the table
  pub mapping_set-Stored :
      m.table_length_shift ≤ 29
      → Returns (mapping_set key junk p desc h m k value) (Stored key p desc h m k value)
  unfolding mapping_set Finds
  mapping_set-Stored narrow = finish (lookup-Finds key m valid k)
    where
      finish :
          Returns (lookup key m k (key.hash k)) (Finds key m valid k)
          → Returns (mapping_set key junk p desc h m k value) (Stored key p desc h m k value)
      finish (r, run, inl (j, e, inside, hit)) = rw (run, e) (found-Stored j inside hit)
      finish (r, run, inr (s, e, free, missing)) =
          rw (run, e) (missing-Stored s narrow free missing)
