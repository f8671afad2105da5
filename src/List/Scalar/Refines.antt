-- ===== src/List/Scalar/Refines.antt =====
-- The stores into lists of integers, bytes and floats refine one specification on lists of numbers.
use nballerina.Prelude.{
  ℕ, zero, suc, ◌+◌, ◌-◌, ◌*◌, ◌^◌, ◌≤◌, ◌<◌, ◌≡◌, refl, sym, ◌∙◌, ap, ap₂, arith, List, [], ◌∷◌,
  ◌++◌, length, set, replicate, cells, cells_ext, cells_from-append, cells_from, cells-update,
  cells-update_end, length-cells_from, Bool-cases, inl, inr, ltb, leb, ◌&&◌, if◌then◌else◌, le→leb,
  ltb→lt, ltb-false, leb→le, leb-false, true, false, update,
}
use native.Mathlib.Nat.{zero-add}
use native.Mathlib.Numerals.{add-one}
use nballerina.Array.{GenericArray, IsValid, array_length_max}
use nballerina.Array.Access.{view, with_cell, store-IsValid, with_cell-IsValid}
use nballerina.Array.Growth.{mul_mono}
use nballerina.List.Room.{
  make_room_too_long, make_room-Roomy, cells_resize, no_room, no_room-ne-zero, too_long,
}
use nballerina.List.Scalar.{memset_zero, zero_fill_and_store, scalar_set}
use nballerina.Run.{Returns, PanicCode}
use nballerina.Word.{lt_signed}

-- a store on a list of numbers: inside it replaces, past the end it pads with zeros
pub scalar_spec : (index val : ℕ) → List ℕ → PanicCode × List ℕ
scalar_spec index val xs =
    if ltb index (length xs)
    then (0, set xs index val)
    else if leb array_length_max index
    then (no_room index, xs)
    else (0, xs ++ replicate (index - length xs) 0 ++ val ∷ [])

module _ (index val : ℕ) (xs : List ℕ) where
  spec-inside : ltb index (length xs) ≡ true → scalar_spec index val xs ≡ (0, set xs index val)
  unfolding scalar_spec
  spec-inside k = rw k

  module _ (k : ltb index (length xs) ≡ false) where
    spec_too_long :
        leb array_length_max index ≡ true → scalar_spec index val xs ≡ (no_room index, xs)
    unfolding scalar_spec
    spec_too_long e = rw (k, e)

    spec-extended :
        leb array_length_max index ≡ false
        → scalar_spec index val xs ≡ (0, xs ++ replicate (index - length xs) 0 ++ val ∷ [])
    unfolding scalar_spec
    spec-extended e = rw (k, e)

pub record Refined (shift : ℕ) (spec : PanicCode × List ℕ) (r : PanicCode × GenericArray ℕ)
    : Type 0 where
  pub valid : IsValid shift r.1
  pub result : (r.0, view r.1) ≡ spec

cells_zero :
    (n lo : ℕ) (f : ℕ → ℕ)
    → ((i : ℕ) → lo ≤ i → i < lo + n → f i ≡ 0)
    → cells_from n lo f ≡ replicate n 0
cells_zero zero lo f h = refl
cells_zero (suc n) lo f h = λ i.
    h lo (omega arith) (omega arith) i
    ∷ cells_zero n (suc lo) f (λ j p q. h j (omega arith) (omega arith)) i

module _ (junk : ℕ → ℕ) (shift : ℕ) (narrow : shift ≤ 4) (index val : ℕ) where
  zeroed : GenericArray ℕ → GenericArray ℕ
  zeroed arr = record arr {
    members = record {
      size = arr.members.size;
      cell = λ i. if leb arr.length i && ltb i index then 0 else arr.members.cell i;
    };
  }

  zeroed-IsValid : (arr : GenericArray ℕ) → IsValid shift arr → IsValid shift (zeroed arr)
  unfolding zeroed
  zeroed-IsValid arr v = record { fits = v.fits; small = v.small; sized = v.sized }

  zeroed-view :
      (arr : GenericArray ℕ)
      → arr.length ≤ index
      → cells index (zeroed arr).members.cell ≡ view arr ++ replicate (index - arr.length) 0
  unfolding zeroed
  zeroed-view arr h =
      let f = (zeroed arr).members.cell in
      let n = arr.length in
      let m = index - n in
      let e : index ≡ n + m = omega arith in
      cells_resize f e
      ∙ cells_from-append n m 0 f
      ∙ ap₂ ◌++◌ (cells_ext n f arr.members.cell (λ i p. ground arith))
          (rw zero-add (cells_zero m n f (λ i p q. ground arith)))

  zero_fill_and_store-Refined :
      (arr : GenericArray ℕ)
      → IsValid shift arr
      → arr.length ≤ index
      → index < arr.capacity
      → index < 2 ^ 63
      → Returns
          (zero_fill_and_store junk shift index val arr)
          (Refined shift (0, view arr ++ replicate (index - arr.length) 0 ++ val ∷ []))
  unfolding zero_fill_and_store memset_zero zeroed
  zero_fill_and_store-Refined arr v h room small = elim (Bool-cases (lt_signed arr.length index)) [
    | inl g ↦ (
      (0, record (with_cell (zeroed arr) index val) { length = index + 1 }),
      rw (
        g,
        le→leb (index * 2 ^ shift) arr.members.size
            (omega (arith, mul_mono index arr.capacity (2 ^ shift) (omega arith))),
        store-IsValid shift (zeroed arr) (zeroed-IsValid arr v) index room val,
      ),
      record {
        valid = record { fits = omega arith; small = v.small; sized = v.sized };
        result = λ i. (
          0,
          (cells_resize (update (zeroed arr).members.cell index val) (add-one index)
                ∙ cells-update_end index (zeroed arr).members.cell val
                ∙ ap (λ l. l ++ val ∷ []) (zeroed-view arr h))
              i,
        );
      },
    )
    | inr g ↦ (
      (0, record (with_cell arr index val) { length = index + 1 }),
      rw (g, store-IsValid shift arr v index room val),
      record {
        valid = record { fits = omega arith; small = v.small; sized = v.sized };
        result = λ i. (
          0,
          (cells_resize (update arr.members.cell index val) (add-one index)
                ∙ cells-update_end index arr.members.cell val
                ∙ ap (λ l. l ++ val ∷ [])
                    (cells_ext index arr.members.cell (zeroed arr).members.cell
                        (λ j p. ground arith)
                      ∙ zeroed-view arr h))
              i,
        );
      },
    )
  ]

  -- For a valid array of elements of at most 16 bytes and any index, the store that lists of
  -- integers, bytes and floats share returns, with the panic code and the numbers that
  -- `scalar_spec` gives (replaced, padded with zeros, or unchanged when the index is negative or
  -- too large), and leaves the array valid
  pub scalar_set-Refined :
      (arr : GenericArray ℕ)
      → IsValid shift arr
      → Returns
          (scalar_set junk shift index val arr)
          (Refined shift (scalar_spec index val (view arr)))
  unfolding scalar_set
  scalar_set-Refined arr v =
      let l = length-cells_from arr.length 0 arr.members.cell in
      elim (Bool-cases (ltb index arr.length)) [
        | inl k ↦
            let inside : index < arr.capacity = omega (arith, ltb→lt _ _ k) in
            (
              (0, with_cell arr index val),
              rw (k, store-IsValid shift arr v index inside val),
              record {
                valid = with_cell-IsValid shift arr v index inside val;
                result =
                    (λ i. (0, cells-update arr.length index arr.members.cell val (ltb→lt _ _ k) i))
                    ∙ sym (spec-inside index val (view arr) (rw l k));
              },
            )
        | inr k ↦ elim (Bool-cases (leb array_length_max index)) [
          | inl e ↦ (
            (no_room index, arr),
            rw (k, make_room_too_long junk shift narrow index arr v (leb→le _ _ e))
                (too_long _ (no_room-ne-zero index) _ _),
            record { valid = v; result = sym (spec_too_long index val (view arr) (rw l k) e) },
          )
          | inr e ↦
              let ((code, arr'), run, g) =
                make_room-Roomy junk shift narrow index arr v (leb-false _ _ e) in
              let (r, run', x) =
                zero_fill_and_store-Refined arr' g.valid (omega (arith, g.length, ltb-false _ _ k))
                  g.room (omega (arith, leb-false _ _ e)) in
              (
                r,
                rw (k, run, g.code) run',
                record {
                  valid = x.valid;
                  result =
                      x.result
                      ∙ (λ i.
                          (0, g.kept i ++ replicate (index - (g.length ∙ sym l) i) 0 ++ val ∷ []))
                      ∙ sym (spec-extended index val (view arr) (rw l k) e);
                },
              )
        ]
      ]
