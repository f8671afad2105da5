-- ===== src/Mapping/Methods.antt =====
-- The functions on a mapping (the second part of runtime/mapping.c). `H` is the memory other than the
-- mapping itself.
use nballerina.Prelude.{
  ℕ, zero, suc, ◌+◌, ◌-◌, ltb, leb, ◌==◌, if◌then◌else◌, Option, none, some, ◌⊎◌, inl, inr,
}
use nballerina.Prelude.Int.{ℤ, pos, negsuc}
use nballerina.Array.{
  array_grow, init_generic_array, load, store, map_field_shift, map_field_size_shift,
}
use nballerina.List.Stores.{Fillability, fill_none, FillerDesc, struct_create_filler}
use nballerina.Mapping.Table.{
  Key, MapField, Mapping, one_shl, lookup, lookup_distinct, insert, init_table, grow_table,
}
use nballerina.MemberType.{MemberType, member_type_contains_tagged}
use nballerina.Run.{Run, done, ◌>>=◌, PanicCode, panic_mapping_store, panic_no_filler}
use nballerina.Tagged.{TaggedPtr, store_panic_code}

pub record MappingDesc (H : Type 0) : Type 0 where
  pub tid : ℕ
  pub n_fields : ℕ
  pub rest_type : MemberType H
  pub filler_desc : Option (FillerDesc H)
  pub field_types : ℕ → MemberType H

module _ (key : Key) where
  -- `for (i = 0; i < nFields; i++)`: the fields from `i` on, `rounds` of them
  unfoldable pub reinsert : (rounds i : ℕ) → Mapping → Run Mapping
  unfolding load lookup_distinct insert
  reinsert zero i m = done m
  reinsert (suc rounds) i m = do
    field ← load m.fields map_field_size_shift i
    slot ← lookup_distinct m (key.hash field.key)
    m' ← insert m slot i
    reinsert rounds (suc i) m'

  unfoldable pub mapping_grow : Mapping → Run Mapping
  unfolding reinsert grow_table
  mapping_grow m = reinsert m.fields.length 0 (grow_table m)

unfoldable pub mapping_push : Mapping → (key value : TaggedPtr) → (lookup_index : ℤ) → Run Mapping
unfolding store insert
mapping_push m key value lookup_index = do
  fields ← store m.fields map_field_size_shift m.fields.length (record { key = key; value = value })
  m' ← insert (record m { fields = fields }) lookup_index m.fields.length
  done (record m' { fields = record (m'.fields) { length = m.fields.length + 1 } })

module _ (key : Key) (junk : ℕ → MapField) where
  -- room for one more field
  unfoldable pub grow_fields : Mapping → Run Mapping
  unfolding array_grow
  grow_fields m =
      let grown : Run Mapping = (do
        fields ← array_grow junk m.fields 0 map_field_shift
        done (record m { fields = fields })) in
      if leb m.fields.capacity m.fields.length then grown else done m

  unfoldable pub mapping_grow_push :
      Mapping → (k value : TaggedPtr) → (lookup_index : ℤ) → Run Mapping
  unfolding grow_fields mapping_push one_shl mapping_grow
  mapping_grow_push m k value lookup_index = do
    m₁ ← grow_fields m
    m₂ ← mapping_push m₁ k value lookup_index
    half ← one_shl (m₂.table_length_shift - 1)
    if leb half (m.fields.length + 1) then mapping_grow key m₂ else done m₂

  unfoldable pub mapping_construct : (capacity : ℕ) → Run Mapping
  unfolding init_generic_array init_table
  mapping_construct capacity =
      init_table
        (record {
          fields = init_generic_array junk capacity map_field_shift;
          table = record { size = 0; cell = λ _. 0 };
          table_element_shift = 0;
          table_length_shift = 0;
        })
        capacity

  -- `none` is the null pointer
  unfoldable pub mapping_get : Mapping → TaggedPtr → Run (Option TaggedPtr)
  unfolding lookup load
  mapping_get m k = lookup key m k (key.hash k) >>= elim [
    | negsuc _ ↦ done none
    | pos i ↦ load m.fields map_field_size_shift i >>= λ field. done (some field.value)
  ]

  unfoldable pub mapping_init_member : Mapping → (k value : TaggedPtr) → Run Mapping
  unfolding lookup_distinct mapping_push
  mapping_init_member m k value = do
    slot ← lookup_distinct m (key.hash k)
    mapping_push m k value slot

-- `mp->fArray.members[i].value = value`
unfoldable pub set_value : Mapping → (i : ℕ) → TaggedPtr → Run Mapping
unfolding load store
set_value m i value = do
  field ← load m.fields map_field_size_shift i
  fields ← store m.fields map_field_size_shift i (record { key = field.key; value = value })
  done (record m { fields = fields })

module _ {H : Type 0} (key : Key) (junk : ℕ → MapField) where
  -- the two ways of a store: into field `i`, and as a new field
  unfoldable pub set_at :
      (p : TaggedPtr)
      → MappingDesc H
      → H
      → Mapping
      → (k value : TaggedPtr) → (lookup_index : ℤ) → Run (PanicCode × Mapping)
  unfolding set_value mapping_grow_push
  set_at p desc h m k value (pos i) =
      let stored : Run (PanicCode × Mapping) = (do m' ← set_value m i value; done (0, m')) in
      let member_type = if ltb i desc.n_fields then desc.field_types i else desc.rest_type in
      if member_type_contains_tagged member_type h value
      then stored
      else done (store_panic_code p panic_mapping_store, m)
  set_at p desc h m k value (negsuc slot) =
      let pushed : Run (PanicCode × Mapping) = (do
        m' ← mapping_grow_push key junk m k value (negsuc slot)
        done (0, m')) in
      if member_type_contains_tagged desc.rest_type h value
      then pushed
      else done (store_panic_code p panic_mapping_store, m)

  -- `p` is the pointer to the mapping
  unfoldable pub mapping_set :
      (p : TaggedPtr)
      → MappingDesc H
      → H
      → Mapping
      → (k value : TaggedPtr) → Run (PanicCode × Mapping)
  unfolding lookup set_at
  mapping_set p desc h m k value = lookup key m k (key.hash k) >>= set_at p desc h m k value

  unfoldable pub mapping_inexact_set :
      (p : TaggedPtr)
      → MappingDesc H
      → H
      → Mapping
      → (k value : TaggedPtr) → Run (PanicCode × Mapping)
  unfolding mapping_set
  mapping_inexact_set p desc h m k value = do
    (code, m') ← mapping_set p desc h m k value
    done (if code == 0 then 0 else panic_mapping_store, m')

  -- a missing key gets the filler, if there is one
  unfoldable pub fill_at :
      Fillability × TaggedPtr × H
      → Mapping
      → (k : TaggedPtr) → (lookup_index : ℤ) → Run ((PanicCode ⊎ TaggedPtr) × Mapping × H)
  unfolding mapping_grow_push
  fill_at (fill_none, value, h) m k slot = done (inl panic_no_filler, m, h)
  fill_at (fill, value, h) m k slot = do
    m' ← mapping_grow_push key junk m k value slot
    done (inr value, m', h)

  unfoldable pub mapping_filling_get :
      MappingDesc H → H → Mapping → (k : TaggedPtr) → Run ((PanicCode ⊎ TaggedPtr) × Mapping × H)
  unfolding lookup load fill_at struct_create_filler
  mapping_filling_get desc h m k = lookup key m k (key.hash k) >>= elim [
    | pos i ↦ load m.fields map_field_size_shift i >>= λ field. done (inr field.value, m, h)
    | negsuc slot ↦ fill_at (struct_create_filler desc.filler_desc h) m k (negsuc slot)
  ]

  unfoldable pub mapping_indexed_set :
      (p : TaggedPtr)
      → MappingDesc H
      → H
      → Mapping
      → (i : ℕ) → TaggedPtr
      → Run (PanicCode × Mapping)
  unfolding set_value
  mapping_indexed_set p desc h m i value =
      let stored : Run (PanicCode × Mapping) = (do m' ← set_value m i value; done (0, m')) in
      if member_type_contains_tagged (desc.field_types i) h value
      then stored
      else done (store_panic_code p panic_mapping_store, m)

-- `length` of lang.map
abbrev pub mapping_length : Mapping → ℕ
mapping_length m = m.fields.length

abbrev pub mapping_indexed_get : Mapping → (i : ℕ) → Run TaggedPtr
mapping_indexed_get m i = load m.fields map_field_size_shift i >>= λ field. done field.value
