-- ===== src/List/Refines.antt =====
-- The stores refine their specification: no block is overrun, no call panics, and the members are
-- those of the specification.
use mathlib.Core.List.{append-nil, append_assoc}
use native.Mathlib.Numerals.{add-one}
use native.Mathlib.Nat.{add-zero}
use nballerina.Prelude.{
  ℕ, zero, suc, ◌+◌, ◌-◌, ◌≤◌, ◌<◌, ◌≡◌, refl, sym, ◌∙◌, ap, arith, Option, [], ◌∷◌, ◌++◌, cells,
  cells-update_end,
}
use nballerina.Array.{GenericArray, IsValid, tagged_ptr_shift}
use nballerina.Array.Access.{view, with_cell, store-IsValid, with_cell-IsValid}
use nballerina.List.Stores.{Fillability, FillerDesc, next_filler, fill_gap, fill_then_store}
use nballerina.List.Room.{cells_resize}
use nballerina.List.Spec.{fillers}
use nballerina.Run.{Returns, PanicCode}
use nballerina.Tagged.{TaggedPtr}

step : (i n : ℕ) → i + suc n ≡ suc i + n
step i n = omega arith

gap_end : (index n : ℕ) → n < index → index ≡ n + 1 + (index - (n + 1))
gap_end index n h = omega arith

module _ {H : Type 0} (desc : Option (FillerDesc H)) (fill : Fillability) where
  -- what filling `rounds` places from `i` on leaves in the array
  pub record Filled (rounds i : ℕ) (filler : TaggedPtr) (h : H) (arr : GenericArray TaggedPtr)
      (r : GenericArray TaggedPtr × H) : Type 0 where
    pub valid : IsValid tagged_ptr_shift r.0
    pub length : r.0.length ≡ arr.length
    pub capacity : r.0.capacity ≡ arr.capacity
    pub heap : r.1 ≡ (fillers rounds desc fill filler h).1
    pub members :
        cells (i + rounds) r.0.members.cell
        ≡ cells i arr.members.cell ++ (fillers rounds desc fill filler h).0
    pub beyond : (j : ℕ) → i + rounds ≤ j → r.0.members.cell j ≡ arr.members.cell j

  pub fill_gap-Filled :
      (rounds i : ℕ) (filler : TaggedPtr) (arr : GenericArray TaggedPtr) (h : H)
      → IsValid tagged_ptr_shift arr
      → i + rounds ≤ arr.capacity
      → Returns (fill_gap rounds i desc fill filler arr h) (Filled rounds i filler h arr)
  unfolding fill_gap fillers
  fill_gap-Filled zero i filler arr h v room = (
    (arr, h),
    refl,
    record {
      valid = v;
      length = refl;
      capacity = refl;
      heap = refl;
      members = rw add-zero (sym (append-nil _));
      beyond = λ j p. refl;
    },
  )
  fill_gap-Filled (suc rounds) i filler arr h v room =
      let (f, h₁) = next_filler desc fill filler h in
      let arr' = with_cell arr i f in
      let (r, run, t) =
        fill_gap-Filled rounds (suc i) f arr' h₁
          (with_cell-IsValid tagged_ptr_shift arr v i (omega arith) f) (omega arith) in
      (
        r,
        rw (store-IsValid tagged_ptr_shift arr v i (omega arith) f) run,
        record {
          valid = t.valid;
          length = t.length;
          capacity = t.capacity;
          heap = t.heap;
          members =
              (ap (λ n. cells n r.0.members.cell) (step i rounds)
                ∙ t.members
                ∙ ap (λ l. l ++ (fillers rounds desc fill f h₁).0)
                    (cells-update_end i arr.members.cell f)
                ∙ append_assoc (cells i arr.members.cell) _ _);
          beyond = λ j p. ground (arith, t.beyond j);
        },
      )

  -- the gap after the first filler, the member, and the new length
  pub record Extended (index : ℕ) (filler val : TaggedPtr) (h : H) (arr : GenericArray TaggedPtr)
      (r : PanicCode × GenericArray TaggedPtr × H) : Type 0 where
    pub valid : IsValid tagged_ptr_shift r.1
    pub code : r.0 ≡ 0
    pub heap : r.2 ≡ (fillers (index - (arr.length + 1)) desc fill filler h).1
    pub members :
        view r.1
        ≡ view arr ++ filler ∷ (fillers (index - (arr.length + 1)) desc fill filler h).0 ++ val ∷ []

  pub fill_then_store-Extended :
      (index : ℕ) (filler val : TaggedPtr) (arr : GenericArray TaggedPtr) (h : H)
      → IsValid tagged_ptr_shift arr
      → arr.length < index
      → index < arr.capacity
      → Returns (fill_then_store desc fill filler index val arr h) (Extended index filler val h arr)
  unfolding fill_then_store
  fill_then_store-Extended index filler val arr h v gap room =
      let n = arr.length in
      let rounds = index - (n + 1) in
      let arr₁ = with_cell arr n filler in
      let (r, run, t) =
        fill_gap-Filled rounds (n + 1) filler arr₁ h
          (with_cell-IsValid tagged_ptr_shift arr v n (omega arith) filler) (omega arith) in
      let inside : index < r.0.capacity = rw t.capacity room in
      (
        (0, record (with_cell r.0 index val) { length = index + 1 }, r.1),
        rw (
          store-IsValid tagged_ptr_shift arr v n (omega arith) filler,
          run,
          store-IsValid tagged_ptr_shift r.0 t.valid index inside val,
        ),
        record {
          valid = record { fits = omega arith; small = t.valid.small; sized = t.valid.sized };
          code = refl;
          heap = t.heap;
          members =
              cells_resize _ (add-one index)
              ∙ cells-update_end index r.0.members.cell val
              ∙ ap (λ l. l ++ val ∷ [])
                  (cells_resize r.0.members.cell (gap_end index n gap)
                    ∙ t.members
                    ∙ ap (λ l. l ++ (fillers rounds desc fill filler h).0)
                        (cells_resize _ (add-one n) ∙ cells-update_end n arr.members.cell filler)
                    ∙ append_assoc (view arr) (filler ∷ []) _);
        },
      )
