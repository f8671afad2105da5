-- ===== src/List.antt =====
-- Lists of tagged pointers (runtime/list.c): the list descriptor, fillers, and the functions that
-- read and write a member. `H` is the memory other than the list itself: what `contains` reads and
-- what a filler's `create` allocates in.
pub mod Stores
pub mod Spec
pub mod Room
pub mod Refines
pub mod Sound
pub mod Scalar
pub mod Reads
