-- ===== src/List/Sound.antt =====
-- `_bal_list_generic_set_tagged` refines its specification.
use nballerina.Prelude.{
  ℕ, ◌+◌, ◌-◌, ◌≤◌, ◌<◌, ◌≡◌, ◌≢◌, ◌⊎◌, refl, sym, ◌∙◌, ap, arith, true, false, Option, List, [],
  ◌∷◌, ◌++◌, length, set, cells-update, cells-update_end, length-cells_from, Bool-cases, inl, inr,
  ltb, leb, if◌then◌else◌, ltb→lt, leb→le, leb-false,
}
use native.Mathlib.Numerals.{add-one}
use nballerina.Array.{GenericArray, IsValid, array_length_max, tagged_ptr_shift}
use nballerina.Array.Access.{view, with_cell, store-IsValid, with_cell-IsValid}
use nballerina.List.Refines.{Extended, fill_then_store-Extended}
use nballerina.List.Room.{
  make_room_too_long, make_room-Roomy, cells_resize, no_room, no_room-ne-zero, too_long,
}
use nballerina.List.Stores.{
  Fillability, fill_none, fill_each, fill_copy, FillerDesc, ListDesc, struct_create_filler,
  list_desc_allows_tagged_at, fill_and_store, store_next, store_past_end, store_after_gap,
  list_generic_set_tagged,
}
use nballerina.List.Spec.{fillers, extend, extend_filled, set_spec}
use nballerina.Run.{Returns, PanicCode, panic_list_store}
use nballerina.Tagged.{TaggedPtr, nil, store_panic_code}
use nballerina.Word.{lt_signed, word}

triple {ℓ} :
    {A B C : Type ℓ} {a a' : A} {b b' : B} {c c' : C}
    → a ≡ a'
    → b ≡ b'
    → c ≡ c'
    → ◌≡◌ {A = A × B × C} (a, b, c) (a', b', c')
triple p q r = λ i. (p i, q i, r i)

module _ {H : Type 0} where
  -- a run of a store that leaves a valid array and does what `spec` says
  pub record Refined (spec : PanicCode × List TaggedPtr × H)
      (r : PanicCode × GenericArray TaggedPtr × H) : Type 0 where
    pub valid : IsValid tagged_ptr_shift r.1
    pub result : (r.0, view r.1, r.2) ≡ spec

  module _ (desc : Option (FillerDesc H)) (filler val : TaggedPtr) (index : ℕ)
      (arr : GenericArray TaggedPtr) (h : H) (v : IsValid tagged_ptr_shift arr) where
    fill_and_store-Extended :
        (fill : Fillability)
        → fill ≢ fill_none
        → arr.length < index
        → index < arr.capacity
        → Returns
            (fill_and_store desc fill filler index val arr h)
            (Extended desc fill index filler val h arr)
    unfolding fill_and_store
    fill_and_store-Extended fill_none n gap room = absurd (n refl)
    fill_and_store-Extended fill_each n gap room =
        fill_then_store-Extended desc fill_each index filler val arr h v gap room
    fill_and_store-Extended fill_copy n gap room =
        fill_then_store-Extended desc fill_copy index filler val arr h v gap room

    -- a store at the end of the list
    store_next-Refined :
        arr.length ≡ index
        → index < arr.capacity
        → Returns (store_next index val arr h) (Refined (0, view arr ++ val ∷ [], h))
    unfolding store_next
    store_next-Refined e room = (
      (0, record (with_cell arr index val) { length = index + 1 }, h),
      rw (store-IsValid tagged_ptr_shift arr v index room val),
      record {
        valid = record { fits = omega arith; small = v.small; sized = v.sized };
        result =
            ap (λ l. (0, l, h))
              (cells_resize _ (add-one index)
                ∙ cells-update_end index arr.members.cell val
                ∙ ap (λ l. l ++ val ∷ []) (cells_resize arr.members.cell (sym e)));
      },
    )

  Extended_result :
      (desc : Option (FillerDesc H)) (fill : Fillability) (filler val : TaggedPtr) (index : ℕ)
      (h : H) (arr arr' : GenericArray TaggedPtr) (r : PanicCode × GenericArray TaggedPtr × H)
      → arr'.length ≡ arr.length
      → view arr' ≡ view arr
      → Extended desc fill index filler val h arr' r
      → ◌≡◌ {A = PanicCode × List TaggedPtr × H}
          (r.0, view r.1, r.2)
          (
            0,
            view arr
                ++ filler ∷ (fillers (index - (arr.length + 1)) desc fill filler h).0
                ++ val ∷ [],
            (fillers (index - (arr.length + 1)) desc fill filler h).1,
          )
  Extended_result desc fill filler val index h arr arr' r l k x =
      triple x.code
        (x.members
          ∙ (λ i. k i ++ filler ∷ (fillers (index - (l i + 1)) desc fill filler h).0 ++ val ∷ []))
        (x.heap ∙ (λ i. (fillers (index - (l i + 1)) desc fill filler h).1))

  module _ (junk : ℕ → TaggedPtr) (desc : Option (FillerDesc H)) (filler val : TaggedPtr)
      (index : ℕ) (arr : GenericArray TaggedPtr) (h : H) (v : IsValid tagged_ptr_shift arr) where
    store_past_end-Refined_gap :
        (fill : Fillability)
        → fill ≢ fill_none
        → arr.length < index
        → Returns
            (store_past_end junk desc (fill, filler, h) index val arr)
            (Refined (extend_filled desc fill filler h index val (view arr)))
    unfolding store_past_end extend_filled
    store_past_end-Refined_gap fill n gap = elim (Bool-cases (leb array_length_max index)) [
      | inl e ↦ (
        (no_room index, arr, h),
        rw (make_room_too_long junk tagged_ptr_shift (omega arith) index arr v (leb→le _ _ e))
            (too_long _ (no_room-ne-zero index) _ _),
        record { valid = v; result = rw e },
      )
      | inr e ↦
          let ((code, arr'), run, g) =
            make_room-Roomy junk tagged_ptr_shift (omega arith) index arr v (leb-false _ _ e) in
          let (r, run', x) =
            fill_and_store-Extended desc filler val index arr' h g.valid fill n (rw g.length gap)
              g.room in
          (
            r,
            rw (run, g.code) run',
            record {
              valid = x.valid;
              result =
                  rw (e, length-cells_from arr.length 0 arr.members.cell)
                    (Extended_result desc fill filler val index h arr arr' r g.length g.kept x);
            },
          )
    ]

    -- with a gap: the first filler is made before anything else is known
    store_after_gap-Refined :
        (fill : Fillability)
        → arr.length < index
        → Returns
            (store_after_gap junk desc (fill, filler, h) index val arr)
            (Refined (extend desc (fill, filler, h) index val (view arr)))
    unfolding store_after_gap extend
    store_after_gap-Refined fill_none gap = ((_, arr, h), refl, record { valid = v; result = refl })
    store_after_gap-Refined fill_each gap = store_past_end-Refined_gap fill_each (λ e. cc) gap
    store_after_gap-Refined fill_copy gap = store_past_end-Refined_gap fill_copy (λ e. cc) gap

    -- with no gap: the index is the length, or negative
    store_past_end-Refined_end :
        arr.length ≡ index ⊎ array_length_max ≤ index
        → Returns (store_past_end junk desc (fill_none, filler, h) index val arr) (
            Refined (
              if leb array_length_max index
              then (no_room index, view arr, h)
              else (0, view arr ++ val ∷ [], h)))
    unfolding store_past_end fill_and_store
    store_past_end-Refined_end end = elim (Bool-cases (leb array_length_max index)) [
      | inl e ↦ (
        (no_room index, arr, h),
        rw (make_room_too_long junk tagged_ptr_shift (omega arith) index arr v (leb→le _ _ e))
            (too_long _ (no_room-ne-zero index) _ _),
        record { valid = v; result = rw e },
      )
      | inr e ↦
          let ((code, arr'), run, g) =
            make_room-Roomy junk tagged_ptr_shift (omega arith) index arr v (leb-false _ _ e) in
          let at_end : arr.length ≡ index = grind (arith, leb-false _ _ e) in
          let (r, run', x) =
            store_next-Refined desc filler val index arr' h g.valid (g.length ∙ at_end) g.room in
          (
            r,
            rw (run, g.code) run',
            record {
              valid = x.valid;
              result = rw e (x.result ∙ (λ i. (0, g.kept i ++ val ∷ [], h)));
            },
          )
    ]

  -- the specification, branch by branch
  module _ (p : TaggedPtr) (ldp : ListDesc H) (index : ℕ) (val : TaggedPtr) (xs : List TaggedPtr)
      (h : H) where
    set_spec-refused :
        list_desc_allows_tagged_at ldp h index val ≡ false
        → set_spec p ldp index val xs h ≡ (store_panic_code p panic_list_store, xs, h)
    unfolding set_spec
    set_spec-refused e = rw e

    module _ (e : list_desc_allows_tagged_at ldp h index val ≡ true) where
      set_spec-inside :
          ltb index (length xs) ≡ true → set_spec p ldp index val xs h ≡ (0, set xs index val, h)
      unfolding set_spec
      set_spec-inside k = rw (e, k)

      set_spec-gap :
          ltb index (length xs) ≡ false
          → lt_signed (length xs) index ≡ true
          → set_spec p ldp index val xs h
            ≡ extend ldp.filler_desc (struct_create_filler ldp.filler_desc h) index val xs
      unfolding set_spec
      set_spec-gap k g = rw (e, k, g)

      set_spec-end :
          ltb index (length xs) ≡ false
          → lt_signed (length xs) index ≡ false
          → set_spec p ldp index val xs h ≡ (
              if leb array_length_max index then (no_room index, xs, h) else (0, xs ++ val ∷ [], h))
      unfolding set_spec
      set_spec-end k g = rw (e, k, g)

  -- For a valid array and any 64-bit index, `_bal_list_generic_set_tagged` returns, with the panic
  -- code, the list of members and the memory of the filler that the specification `set_spec`
  -- gives, on every branch, and leaves the array valid
  pub list_generic_set_tagged-Refined :
      (junk : ℕ → TaggedPtr) (p : TaggedPtr) (ldp : ListDesc H) (index : ℕ) (val : TaggedPtr)
      (arr : GenericArray TaggedPtr) (h : H)
      → IsValid tagged_ptr_shift arr
      → index < word
      → Returns
          (list_generic_set_tagged junk p ldp index val arr h)
          (Refined (set_spec p ldp index val (view arr) h))
  unfolding list_generic_set_tagged
  list_generic_set_tagged-Refined junk p ldp index val arr h v w =
      let l = length-cells_from arr.length 0 arr.members.cell in
      elim (Bool-cases (list_desc_allows_tagged_at ldp h index val)) [
        | inr e ↦ (
          (_, arr, h),
          rw e,
          record { valid = v; result = sym (set_spec-refused p ldp index val (view arr) h e) },
        )
        | inl e ↦ elim (Bool-cases (ltb index arr.length)) [
          | inl k ↦ (
            (0, with_cell arr index val, h),
            rw (e, k, store-IsValid tagged_ptr_shift arr v index (omega (arith, ltb→lt _ _ k)) val),
            record {
              valid =
                  with_cell-IsValid tagged_ptr_shift arr v index (omega (arith, ltb→lt _ _ k)) val;
              result =
                  (λ i. (0, cells-update arr.length index arr.members.cell val (ltb→lt _ _ k) i, h))
                  ∙ sym (set_spec-inside p ldp index val (view arr) h e (rw l k));
            },
          )
          | inr k ↦ elim (Bool-cases (lt_signed arr.length index)) [
            | inl g ↦
                let f = struct_create_filler ldp.filler_desc h in
                let gap : arr.length < index = ground (arith, k, g) in
                let (r, run, t) =
                  store_after_gap-Refined junk ldp.filler_desc f.1 val index arr f.2 v f.0 gap in
                (
                  r,
                  rw (e, k, g) run,
                  record {
                    valid = t.valid;
                    result =
                        t.result
                        ∙ sym (set_spec-gap p ldp index val (view arr) h e (rw l k) (rw l g));
                  },
                )
            | inr g ↦
                let end : (arr.length ≡ index) ⊎ (array_length_max ≤ index) =
                  ground (arith, k, g) in
                let (r, run, t) =
                  store_past_end-Refined_end junk ldp.filler_desc nil val index arr h v end in
                (
                  r,
                  rw (e, k, g) run,
                  record {
                    valid = t.valid;
                    result =
                        t.result
                        ∙ sym (set_spec-end p ldp index val (view arr) h e (rw l k) (rw l g));
                  },
                )
          ]
        ]
      ]
