-- ===== src/Examples.antt =====
-- The theorems at concrete inputs.
mod Values
mod Maps
mod Types
mod Orders
mod Texts
mod Cycles
mod Exact
mod Decimals
mod Ordering
mod Panics
mod Names
