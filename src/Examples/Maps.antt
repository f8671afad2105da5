-- ===== src/Examples/Maps.antt =====
-- Mappings at concrete inputs.
use nballerina.MemberType.{simple}
use nballerina.Mapping.Methods.{MappingDesc, mapping_set}
use nballerina.Prelude.{
  ℕ, none, ◌%◌, ◌<◌, ltb, false, ◌≡◌, refl, arith, ◌==◌, ==_iff, ==_refl, if◌then◌else◌,
}
use nballerina.Array.Access.{view}
use nballerina.Mapping.Lookup.{slots, IsTable, has_key, lookup_distinct-FreeAt}
use nballerina.Mapping.Methods.{
  mapping_get, mapping_init_member, mapping_construct, mapping_grow_push,
}
use nballerina.Mapping.Members.{Added, mapping_init_member-Added}
use nballerina.Mapping.Construct.{Constructed, mapping_construct-Constructed}
use nballerina.Mapping.Store.{Stored, mapping_set-Stored}
use nballerina.Mapping.Overrun.{mapping_grow_push_overrun}
use nballerina.Mapping.Slots.{FreeAt, Holds, occupied, back}
use nballerina.Mapping.Table.{Key, MapField, Mapping, lookup, lookup_distinct}
use nballerina.Mapping.Valid.{IsValid, home, Finds, lookup-Finds, get_spec, mapping_get-get_spec}
use nballerina.Prelude.Int.{negsuc}
use nballerina.Run.{done, fault, Returns}

-- keys whose pointers are equal, as short strings are
abbrev pub short_keys : Key
short_keys = record {
  equal = λ a b. a == b;
  hash = λ a. a;
  equal_refl = λ a. ==_refl a;
  equal_symm = λ a b h. ground arith;
  equal_trans = λ a b c h k. ground arith;
  hash-equal = λ a b h. (==_iff a b).0 h;
}

abbrev no_field : ℕ → MapField
no_field i = record { key = 0; value = 0 }

abbrev pub one_field : Mapping
one_field = record {
  fields = record {
    length = 1;
    capacity = 4;
    members = record { size = 256; cell = λ i. record { key = 5; value = 7 } };
  };
  table = record { size = 16; cell = λ i. if i == 5 then 0 else 65535 };
  table_element_shift = 1;
  table_length_shift = 3;
}

one_field-IsTable : IsTable one_field
one_field-IsTable = record {
  narrow = omega arith;
  some_slots = omega arith;
  element = omega arith;
  roomy = omega arith;
  sized = refl;
}

one_field-Holds : Holds 8 (home short_keys one_field) 1 (slots one_field)
unfolding occupied back
one_field-Holds = record {
  placed = λ j h.
      (let first : j ≡ 0 = omega arith in
        rw first (0, omega arith, refl, λ e p. absurd (omega arith)));
  few = omega arith;
  range = λ s k h e. ground arith;
}

pub one_field-IsValid : IsValid short_keys one_field
one_field-IsValid = record {
  fields = record { fits = omega arith; small = omega arith; sized = refl };
  table = one_field-IsTable;
  half = omega arith;
  holds = one_field-Holds;
  distinct = λ i j h k. absurd (omega arith);
}

mapping_get-get_spec_example :
    mapping_get short_keys no_field one_field 5
    ≡ done (get_spec short_keys 5 (view one_field.fields))
mapping_get-get_spec_example =
    mapping_get-get_spec short_keys no_field one_field 5 one_field-IsValid

lookup-Finds_example :
    Returns (lookup short_keys one_field 13 13) (Finds short_keys one_field one_field-IsValid 13)
lookup-Finds_example = lookup-Finds short_keys one_field one_field-IsValid 13

one_occupied : occupied (slots one_field) 8 < 8
unfolding occupied
one_occupied = omega arith

lookup_distinct-FreeAt_example :
    (s : ℕ) × (lookup_distinct one_field 13 ≡ done (negsuc s))
    × FreeAt (slots one_field) 8 (13 % 8) s
lookup_distinct-FreeAt_example = lookup_distinct-FreeAt one_field one_field-IsTable 13 one_occupied

five_only : (j : ℕ) → j < 1 → has_key short_keys one_field 13 j ≡ false
five_only j h = refl

mapping_init_member-Added_example :
    Returns
      (mapping_init_member short_keys no_field one_field 13 9)
      (Added short_keys one_field 13 9)
mapping_init_member-Added_example =
    mapping_init_member-Added short_keys one_field 13 9 one_field-IsValid (omega arith)
      (omega arith) five_only no_field

mapping_construct-Constructed_example :
    Returns (mapping_construct short_keys no_field 8) (Constructed short_keys 8)
mapping_construct-Constructed_example =
    mapping_construct-Constructed short_keys no_field 8 (omega arith)

-- a mapping made for one field, which has got a second one
abbrev two_in_one : Mapping
two_in_one = record {
  fields = record {
    length = 2;
    capacity = 1;
    members = record { size = 64; cell = λ i. record { key = i; value = 7 } };
  };
  table = record { size = 16; cell = λ i. if ltb i 2 then i else 65535 };
  table_element_shift = 1;
  table_length_shift = 3;
}

mapping_grow_push_overrun_example :
    mapping_grow_push short_keys no_field two_in_one 5 9 (negsuc 5) ≡ fault
mapping_grow_push_overrun_example =
    mapping_grow_push_overrun short_keys no_field two_in_one 5 9 (negsuc 5) refl refl refl

abbrev string_map : MappingDesc ℕ
string_map = record {
  tid = 1;
  n_fields = 0;
  rest_type = simple 513;
  filler_desc = none;
  field_types = λ i. simple 1;
}

mapping_set-Stored_example :
    Returns
      (mapping_set short_keys no_field 64 string_map 0 one_field 13 9)
      (Stored short_keys 64 string_map 0 one_field 13 9)
mapping_set-Stored_example =
    mapping_set-Stored short_keys no_field 64 string_map 0 one_field 13 9 one_field-IsValid
      (record { grows = λ one. absurd (omega arith); small = omega arith }) (omega arith)
