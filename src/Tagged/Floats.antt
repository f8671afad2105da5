-- ===== src/Tagged/Floats.antt =====
-- Boxed doubles (`floatToTagged` and `taggedToFloat` in runtime/balrt.h), as 64-bit patterns.
use nballerina.Prelude.{ℕ, ◌+◌, update}
use nballerina.Tagged.{TaggedPtr, tag_float, ptr_add_shifted_tag, tagged_to_ptr}
use nballerina.Tagged.Ints.{Boxes}

unfoldable pub float_to_tagged : ℕ → Boxes → TaggedPtr × Boxes
float_to_tagged n b =
    (ptr_add_shifted_tag b.next tag_float, record { next = b.next + 8; at = update b.at b.next n })

abbrev pub tagged_to_float : TaggedPtr → Boxes → ℕ
tagged_to_float p b = b.at (tagged_to_ptr p)
