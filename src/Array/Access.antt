-- ===== src/Array/Access.antt =====
-- Storing and loading inside a valid array, and the room for one more member.
use nballerina.Prelude.{ℕ, ◌+◌, ◌*◌, ◌^◌, ◌≤◌, ◌<◌, ◌≡◌, arith, List, cells, update, le→leb}
use native.Mathlib.Nat.{le_refl, pow-le-pow_right, mul-le-mul_left}
use nballerina.Run.{done}
use nballerina.Array.{GenericArray, IsValid, array_length_max, store, load, init_generic_array}
use nballerina.Array.Growth.{mul_mono, shl64_exact}

module _ {ℓ} {A : Type ℓ} where
  -- the members that the array holds
  abbrev pub view : GenericArray A → List A
  view ap = cells ap.length ap.members.cell

  abbrev pub with_cell : GenericArray A → ℕ → A → GenericArray A
  with_cell ap i v = record ap {
    members = record { size = ap.members.size; cell = update ap.members.cell i v };
  }

-- `access` is the size of an element as it is read and written; the block may have more for each
module _ {ℓ} {A : Type ℓ} (access shift : ℕ) (narrower : access ≤ shift) (ap : GenericArray A)
    (valid : IsValid shift ap) (i : ℕ) (inside : i < ap.capacity) where
  cell_fits : (i + 1) * 2 ^ access ≤ ap.members.size
  cell_fits =
      let size : 2 ^ access ≤ 2 ^ shift = pow-le-pow_right (omega arith) narrower in
      let wide : (i + 1) * 2 ^ access ≤ (i + 1) * 2 ^ shift = mul-le-mul_left (i + 1) size in
      omega (arith, wide, mul_mono (i + 1) ap.capacity (2 ^ shift) (omega arith), valid.sized)

  pub store_within : (v : A) → store ap access i v ≡ done (with_cell ap i v)
  unfolding store
  store_within v = rw (le→leb _ _ cell_fits)

  pub load_within : load ap access i ≡ done (ap.members.cell i)
  unfolding load
  load_within = rw (le→leb _ _ cell_fits)

module _ {ℓ} {A : Type ℓ} (shift : ℕ) (ap : GenericArray A) (valid : IsValid shift ap) (i : ℕ)
    (inside : i < ap.capacity) where
  pub store-IsValid : (v : A) → store ap shift i v ≡ done (with_cell ap i v)
  store-IsValid = store_within shift shift (le_refl shift) ap valid i inside

  pub load-IsValid : load ap shift i ≡ done (ap.members.cell i)
  load-IsValid = load_within shift shift (le_refl shift) ap valid i inside

  pub with_cell-IsValid : (v : A) → IsValid shift (with_cell ap i v)
  with_cell-IsValid v = record { fits = valid.fits; small = valid.small; sized = valid.sized }

-- A new array is empty and valid.
pub init_generic_array-IsValid {ℓ} :
    {A : Type ℓ} (junk : ℕ → A) (capacity shift : ℕ)
    → capacity ≤ array_length_max
    → shift ≤ 4
    → IsValid shift (init_generic_array junk capacity shift)
unfolding init_generic_array
init_generic_array-IsValid junk capacity shift h k = record {
  fits = omega arith;
  small = h;
  sized = ground (arith, shl64_exact capacity shift h k);
}
