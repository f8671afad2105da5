-- ===== src/Equality/Exact.antt =====
-- Exact equality and equality, on the heap of Equality.Heap.
use nballerina.Prelude.{
  ℕ, zero, suc, ◌≡◌, ◌≢◌, inl, inr, refl, some, subst, ne→==, sym, ap, arith, true, false, ◌==◌,
  ◌||◌, length, Bool-cases, ==_iff,
}
use nballerina.Decimal.{Number, tagged_to_quad, decimal_cmp, decimal_exact_eq}
use nballerina.Decimal.Order.{Compares, class_of}
use nballerina.Equality.{Memory, EqStack, on_stack, scalar_eq, exact_eq, bal_eq}
use nballerina.Equality.Alike.{
  is_structure, Sane, mapping_of, same, scalars, lists, mappings, Alike, Alike-refl, AlwaysAlike,
  MappingsAlike,
}
use nballerina.Equality.Boxed.{IsBoxed, float_exact_eq-float_eq, get_tagged-Alike}
use nballerina.Equality.Ends.{Closed, bal_eq-Returns}
use nballerina.Equality.Heap.{Heap, members_length, memory_of}
use nballerina.Mapping.Valid.{get_spec, get_spec-own}
use nballerina.Mapping.Table.{Mapping}
use nballerina.Array.Access.{view}
use nballerina.Run.{Returns}
use nballerina.Subtype.{Order}
use nballerina.Tagged.{
  TaggedPtr, get_tag, tag_string, tag_int, tag_float, tag_decimal, tag_list, tag_mapping,
  tag_function, tagged_to_ptr,
}

-- what decNumber documents of `decQuadCanonical`: the value is kept, so that the bytes of two
-- decimals, which are no NaN, are the same only where the decimals are equal
abbrev pub KeepsValue : {D : Type 0} → Number D → Order D → Type 0
KeepsValue {D} number order =
    (a b : D) → number.canonical_equal a b ≡ true → order.ordered a ≡ true → order.equal a b ≡ true

-- no decimal of the heap is a NaN
abbrev pub NoNan : {D : Type 0} → Order D → Heap D → Type 0
NoNan order heap =
    (p : TaggedPtr)
    → get_tag p ≡ tag_decimal
    → order.ordered (tagged_to_quad p heap.decimals) ≡ true

no_address :
    (tag : ℕ)
    → is_structure tag ≡ false
    → (tag == tag_function) ≡ false
    → ((tag == tag_list) || (tag == tag_mapping) || (tag == tag_function)) ≡ false
no_address tag k f = ground arith

only_address :
    (tag : ℕ)
    → is_structure tag ≡ true
    → ((tag == tag_string) ≡ false)
      × ((tag == tag_int) ≡ false)
      × ((tag == tag_float) ≡ false)
      × ((tag == tag_decimal) ≡ false)
      × (((tag == tag_list) || (tag == tag_mapping) || (tag == tag_function)) ≡ true)
only_address tag k = ground arith

module _ {D : Type 0} (number : Number D) (order : Order D) (heap : Heap D)
    (compares : Compares number order) (keeps : KeepsValue number order) (no_nan : NoNan order heap)
    (boxed : IsBoxed heap) where
  abbrev memory : Memory
  memory = memory_of number heap

  decimal_exact_eq-decimal_cmp :
      (a b : TaggedPtr)
      → get_tag a ≡ tag_decimal
      → decimal_exact_eq number a b heap.decimals ≡ true
      → decimal_cmp number a b heap.decimals ≡ 0
  unfolding decimal_cmp class_of
  decimal_exact_eq-decimal_cmp a b t h =
      rw
        (
          compares (tagged_to_quad a heap.decimals) (tagged_to_quad b heap.decimals),
          keeps _ _ h (no_nan a t),
        )
        refl

  exact_eq-scalar_eq :
      (a b : TaggedPtr)
      → (a == b) ≡ false
      → (get_tag a == get_tag b) ≡ true
      → is_structure (get_tag a) ≡ false
      → (get_tag a == tag_function) ≡ false
      → exact_eq memory a b ≡ true
      → scalar_eq memory (get_tag a) a b ≡ true
  unfolding exact_eq scalar_eq
  exact_eq-scalar_eq a b d t k f h = elim (Bool-cases (get_tag a == tag_string)) [
    | inl e ↦ rw e (rw (d, t, e) at h)
    | inr e₁ ↦ elim (Bool-cases (get_tag a == tag_int)) [
      | inl e ↦ rw (e₁, e) (rw (d, t, e₁, e) at h)
      | inr e₂ ↦ elim (Bool-cases (get_tag a == tag_float)) [
        | inl e ↦ rw (e₁, e₂, e) (float_exact_eq-float_eq _ _ (rw (d, t, e₁, e₂, e) at h))
        | inr e₃ ↦ elim (Bool-cases (get_tag a == tag_decimal)) [
          | inl e ↦ rw (
            e₁,
            e₂,
            e₃,
            e,
            decimal_exact_eq-decimal_cmp a b ((==_iff _ _).0 e) (rw (d, t, e₁, e₂, e₃, e) at h),
          )
          | inr e₄ ↦
              let none_left = no_address (get_tag a) k f in
              cc (rw (d, t, e₁, e₂, e₃, e₄, none_left) at h)
        ]
      ]
    ]
  ]

  exact_eq-address :
      (a b : TaggedPtr)
      → (a == b) ≡ false
      → (get_tag a == get_tag b) ≡ true
      → is_structure (get_tag a) ≡ true
      → exact_eq memory a b ≡ true
      → tagged_to_ptr a ≡ tagged_to_ptr b
  unfolding exact_eq
  exact_eq-address a b d t k h =
      let (e₁, e₂, e₃, e₄, e₅) = only_address (get_tag a) k in
      (==_iff _ _).0 (rw (d, t, e₁, e₂, e₃, e₄, e₅) at h)

  other_tags :
      (a b : TaggedPtr)
      → (a == b) ≡ false
      → (get_tag a == get_tag b) ≡ false
      → exact_eq memory a b ≡ false
  unfolding exact_eq
  other_tags a b d t = rw (d, t)

  -- a mapping is like itself, through another pointer
  mappings_again :
      (n : ℕ) (a b : TaggedPtr)
      → tagged_to_ptr a ≡ tagged_to_ptr b
      → Sane memory
      → get_tag a ≡ tag_mapping
      → MappingsAlike memory (Alike memory n) a b
  mappings_again n a b at sane t =
      let m = mapping_of memory a in
      let same_mapping : m ≡ mapping_of memory b = ap memory.mapping_at at in
      (
        ap (λ (o : Mapping). o.fields.length) (sym same_mapping),
        λ i h. (
          (m.fields.members.cell i).value,
          subst
              (λ (o : Mapping).
                get_spec memory.key (m.fields.members.cell i).key (view o.fields)
                ≡ some ((m.fields.members.cell i).value))
              same_mapping (get_spec-own memory.key m i (sane a t) h),
          Alike-refl memory n _,
        ),
      )

  exact_eq-AlwaysAlike :
      Sane memory
      → (a b : TaggedPtr) → get_tag a ≢ tag_function
      → exact_eq memory a b ≡ true
      → AlwaysAlike memory a b
  unfolding Alike
  exact_eq-AlwaysAlike sane a b f h zero = refl
  exact_eq-AlwaysAlike sane a b f h (suc n) = elim (Bool-cases (a == b)) [
    | inl e ↦ same ((==_iff a b).0 e)
    | inr d ↦ elim (Bool-cases (get_tag a == get_tag b)) [
      | inr t ↦ cc (other_tags a b d t, h)
      | inl t ↦
          let tags = (==_iff (get_tag a) (get_tag b)).0 t in
          elim (Bool-cases (is_structure (get_tag a))) [
            | inr k ↦ scalars tags k (exact_eq-scalar_eq a b d t k (ne→== _ _ f) h)
            | inl k ↦
                let at = exact_eq-address a b d t k h in
                elim (Bool-cases (get_tag a == tag_list)) [
                  | inl l ↦ lists tags ((==_iff _ tag_list).0 l) (
                    ap (λ address. members_length (heap.list_at address)) (sym at),
                    λ i h. get_tagged-Alike number heap boxed n a b i at,
                  )
                  | inr l ↦
                      let m : get_tag a ≡ tag_mapping = ground (arith, k, l) in
                      mappings tags m (mappings_again n a b at sane m)
                ]
          ]
    ]
  ]

  -- In a heap whose mappings are valid, whose decimals are no NaN, and where the boxes that a read
  -- of a list of ints, bytes or floats makes are aligned, below 2 ^ 56 and hold what was read,
  -- where decNumber compares by an order and its canonical form keeps the value, for two values,
  -- not functions, that `_bal_exact_eq` takes for the same, and a finite list of pairs with the
  -- two that has with two lists, or two mappings, the pairs of their members, the two are alike as
  -- far as any number of steps, and `_bal_eq` returns true, with one call more in depth than there
  -- are pairs
  pub exact_eq-bal_eq :
      Sane memory
      → (pairs : EqStack) → Closed memory pairs
      → (a b : TaggedPtr) → on_stack a b pairs ≡ true
      → get_tag a ≢ tag_function
      → exact_eq memory a b ≡ true
      → AlwaysAlike memory a b × Returns (bal_eq memory (suc (length pairs)) a b) (λ r. r ≡ true)
  exact_eq-bal_eq sane pairs closed a b on f h =
      let alike = exact_eq-AlwaysAlike sane a b f h in
      let (r, run, says) = bal_eq-Returns memory sane pairs closed a b on in
      (alike, (r, run, says.1 alike))
