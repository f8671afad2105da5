-- ===== src/Mapping/Overrun.antt =====
-- A mapping whose array has space for one field does not get more.
use nballerina.Prelude.{ℕ, ◌≡◌}
use nballerina.Mapping.Methods.{grow_fields, mapping_grow_push}
use nballerina.Mapping.Table.{Key, MapField, Mapping}
use nballerina.Array.{array_grow, grown_capacity, copy_block}
use nballerina.Prelude.Int.{ℤ}
use nballerina.Run.{fault}
use nballerina.Tagged.{TaggedPtr}

-- With a capacity of 1 and two fields in its block of 64 bytes, pushing a further field makes
-- `_bal_array_grow` copy more than the new block holds
pub mapping_grow_push_overrun :
    (key : Key) (junk : ℕ → MapField) (m : Mapping) (k value : TaggedPtr) (slot : ℤ)
    → m.fields.capacity ≡ 1
    → m.fields.length ≡ 2
    → m.fields.members.size ≡ 64
    → mapping_grow_push key junk m k value slot ≡ fault
unfolding mapping_grow_push grow_fields array_grow copy_block grown_capacity
mapping_grow_push_overrun key junk m k value slot one two size = rw (one, two, size)
