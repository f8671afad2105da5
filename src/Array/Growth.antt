-- ===== src/Array/Growth.antt =====
-- Growing, storing and loading in a valid array.
use nballerina.Prelude.{
  ℕ, zero, suc, ◌+◌, ◌*◌, ◌/◌, ◌^◌, ◌≤◌, ◌<◌, ◌≡◌, ◌≢◌, ◌⊎◌, refl, arith, ltb, leb, ◌==◌,
  if◌then◌else◌, le→leb, Bool-cases, inl, inr,
}
use native.Mathlib.Nat.{mod-eq_of_lt}
use nballerina.Run.{done, Returns}
use nballerina.Array.{
  GenericArray, IsValid, array_length_max, grown_capacity, array_grow, shl64, alloc, copy_block,
  initial_capacity,
}

-- The next capacity, as a number.
pub next_capacity : ℕ → ℕ → ℕ
next_capacity old min =
    let half = old + old / 2 in
    let room = if leb half array_length_max then half else array_length_max in
    if ltb room min then min else room

pub grown_capacity-next_capacity :
    (old min : ℕ) → old < array_length_max → grown_capacity old min ≡ done (next_capacity old min)
unfolding grown_capacity next_capacity
grown_capacity-next_capacity old min k = ground arith

pub next_capacity_bounds :
    (old min : ℕ)
    → old < array_length_max
    → min ≤ array_length_max
    → (min ≤ next_capacity old min)
      × (old ≤ next_capacity old min)
      × (next_capacity old min ≤ array_length_max)
      × (1 < old → old < next_capacity old min)
unfolding next_capacity
next_capacity_bounds old min k h = ground arith

pow-le : (shift : ℕ) → shift ≤ 4 → 2 ^ shift ≤ 16
pow-le zero h = omega arith
pow-le (suc zero) h = omega arith
pow-le (suc (suc zero)) h = omega arith
pow-le (suc (suc (suc zero))) h = omega arith
pow-le (suc (suc (suc (suc zero)))) h = omega arith
pow-le (suc (suc (suc (suc (suc n))))) h = absurd (omega arith)

pub mul_mono : (a b p : ℕ) → a ≤ b → a * p ≤ b * p
mul_mono a b p h = grind arith

-- No size that the arrays ask for wraps.
pub shl64_exact : (n shift : ℕ) → n ≤ array_length_max → shift ≤ 4 → shl64 n shift ≡ n * 2 ^ shift
shl64_exact n shift h k =
    mod-eq_of_lt (omega (arith, mul_mono n array_length_max (2 ^ shift) h, pow-le shift k))

pub next_capacity_above :
    (old min : ℕ)
    → (next_capacity old min ≤ min)
      ⊎ ((next_capacity old min ≤ 4) ⊎ (next_capacity old min ≤ old + old / 2))
unfolding next_capacity
next_capacity_above old min = ground arith

next_capacity-min : (old min : ℕ) → min ≤ next_capacity old min
unfolding next_capacity
next_capacity-min old min = ground arith

module _ {ℓ} {A : Type ℓ} (junk : ℕ → A) (shift : ℕ) where
  -- what growing keeps and reaches
  pub record Grown (min : ℕ) (ap r : GenericArray A) : Type ℓ where
    pub valid : IsValid shift r
    pub bounded : r.capacity ≤ min ⊎ (r.capacity ≤ 4 ⊎ (r.capacity ≤ ap.capacity + ap.capacity / 2))
    pub enough : min ≤ r.capacity
    pub no_less : ap.capacity ≤ r.capacity
    pub more : ap.capacity ≢ 1 → ap.capacity < r.capacity
    pub usable : ap.capacity ≢ 1 → 1 < r.capacity
    pub length : r.length ≡ ap.length
    pub kept : (i : ℕ) → i < ap.length → r.members.cell i ≡ ap.members.cell i

-- `room` bounds the capacities whose sizes do not wrap
module _ {ℓ} {A : Type ℓ} (junk : ℕ → A) (shift room : ℕ)
    (exact : (n : ℕ) → n ≤ room → shl64 n shift ≡ n * 2 ^ shift) where
  copy_block_lem :
      (n : ℕ) (ap : GenericArray A)
      → IsValid shift ap
      → ap.capacity ≤ n
      → n ≤ room
      → copy_block junk ap.length shift (shl64 n shift) ap.members
        ≡ done (record {
          size = n * 2 ^ shift;
          cell = λ i. if ltb i ap.length then ap.members.cell i else junk i;
        })
  unfolding copy_block
  copy_block_lem n ap v h k = rw (
    exact n k,
    exact ap.length (omega arith),
    le→leb (ap.length * 2 ^ shift) ap.members.size
        (omega (arith, mul_mono ap.length ap.capacity (2 ^ shift) v.fits)),
    le→leb (ap.length * 2 ^ shift) (n * 2 ^ shift) (mul_mono ap.length n (2 ^ shift) (omega arith)),
  )

  pub array_grow-Grown_within :
      (min : ℕ) (ap : GenericArray A)
      → IsValid shift ap
      → min ≤ array_length_max
      → ap.capacity < array_length_max
      → next_capacity ap.capacity min ≤ room
      → 4 ≤ room
      → Returns (array_grow junk ap min shift) (Grown junk shift min ap)
  unfolding array_grow
  array_grow-Grown_within min ap v h k wide low = elim (Bool-cases (ap.capacity == 0)) [
    | inl e ↦
        let first = if ltb initial_capacity min then min else initial_capacity in
        (
          record ap { capacity = first; members = alloc junk (shl64 first shift) },
          rw e,
          record {
            valid = record {
              fits = ground arith;
              small = ground arith;
              sized = exact first (ground (arith, next_capacity-min ap.capacity min));
            };
            bounded = ground arith;
            enough = ground arith;
            no_less = ground arith;
            more = ground arith;
            usable = ground arith;
            length = refl;
            kept = λ i p. absurd (ground arith);
          },
        )
    | inr e ↦
        let n = next_capacity ap.capacity min in
        let b = next_capacity_bounds ap.capacity min k h in
        (
          record ap {
            capacity = n;
            members = record {
              size = n * 2 ^ shift;
              cell = λ i. if ltb i ap.length then ap.members.cell i else junk i;
            };
          },
          rw (e, grown_capacity-next_capacity ap.capacity min k, copy_block_lem n ap v b.1 wide),
          record {
            valid = record { fits = omega arith; small = b.2; sized = refl };
            bounded = next_capacity_above ap.capacity min;
            enough = b.0;
            no_less = b.1;
            more = λ d. b.3 (ground arith);
            usable = λ d. (let many : 1 < ap.capacity = ground arith in omega (arith, b.1));
            length = refl;
            kept = λ i p. ground arith;
          },
        )
  ]

-- For a valid array below the greatest length and elements of at most 16 bytes, `_bal_array_grow`
-- returns without a wrapped size or an access outside of a block; the new array is valid, holds
-- the old members, has at least the wanted capacity, at least the old one, and more than the old
-- one unless that was 1
pub array_grow-Grown {ℓ} :
    {A : Type ℓ} (junk : ℕ → A) (shift : ℕ) (narrow : shift ≤ 4) (min : ℕ) (ap : GenericArray A)
    → IsValid shift ap
    → min ≤ array_length_max
    → ap.capacity < array_length_max
    → Returns (array_grow junk ap min shift) (Grown junk shift min ap)
array_grow-Grown junk shift narrow min ap v h k =
    array_grow-Grown_within junk shift array_length_max (λ n p. shl64_exact n shift p narrow) min ap
      v h k (next_capacity_bounds ap.capacity min k h).2 (omega arith)

-- a capacity in the range of the mappings stays there
pub next_capacity-room : (old : ℕ) → old ≤ 2 ^ 30 → next_capacity old 0 ≤ 2 ^ 33
unfolding next_capacity
next_capacity-room old h = ground arith
