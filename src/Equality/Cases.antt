-- ===== src/Equality/Cases.antt =====
-- The ways a call of `taggedPtrEq` goes.
use nballerina.Prelude.{
  ℕ, suc, ◌≡◌, ◌≢◌, ◌⊎◌, inl, inr, arith, Bool, true, false, ◌==◌, Bool-cases, ==_iff, ==_false,
  ◌∷◌, refl,
}
use nballerina.Equality.{
  Memory, EqStack, on_stack, scalar_eq, list_eq_internal, mapping_eq_internal, tagged_ptr_eq,
}
use nballerina.Equality.Alike.{is_structure}
use nballerina.Run.{Run, done, diverged}
use nballerina.Tagged.{TaggedPtr, get_tag, tag_list, tag_mapping}

-- a pair on the extended stack is the new one or an old one
pub on_stack-push :
    (a b p q : TaggedPtr) (stack : EqStack)
    → on_stack p q ((a, b) ∷ stack) ≡ true
    → ((p ≡ a) × (q ≡ b)) ⊎ (on_stack p q stack ≡ true)
unfolding on_stack
on_stack-push a b p q stack h = elim (Bool-cases (on_stack p q stack)) [
  | inl e ↦ inr e
  | inr e ↦ inl (ground (arith, e))
]

module _ (memory : Memory) (fuel : ℕ) (a b : TaggedPtr) (stack : EqStack) where
  -- the comparison of members
  abbrev pub below : TaggedPtr → TaggedPtr → Run Bool
  below p q = tagged_ptr_eq memory fuel p q ((a, b) ∷ stack)

  pub tagged_ptr_eq-no_fuel : tagged_ptr_eq memory 0 a b stack ≡ diverged
  unfolding tagged_ptr_eq
  tagged_ptr_eq-no_fuel = refl

  pub data Call (run : Run Bool) : Type 0 where
    same_pointer : a ≡ b → run ≡ done true → Call run
    other_tag : get_tag a ≢ get_tag b → run ≡ done false → Call run
    scalar :
        (a == b) ≡ false
        → get_tag a ≡ get_tag b
        → is_structure (get_tag a) ≡ false
        → run ≡ done (scalar_eq memory (get_tag a) a b)
        → Call run
    stacked : on_stack a b stack ≡ true → run ≡ done true → Call run
    list_call :
        (a == b) ≡ false
        → get_tag a ≡ get_tag b
        → get_tag a ≡ tag_list
        → on_stack a b stack ≡ false
        → run ≡ list_eq_internal memory below a b
        → Call run
    mapping_call :
        (a == b) ≡ false
        → get_tag a ≡ get_tag b
        → get_tag a ≡ tag_mapping
        → on_stack a b stack ≡ false
        → run ≡ mapping_eq_internal memory below a b
        → Call run

  structure-Call :
      (a == b) ≡ false
      → (get_tag a == get_tag b) ≡ true
      → is_structure (get_tag a) ≡ true
      → Call (tagged_ptr_eq memory (suc fuel) a b stack)
  unfolding tagged_ptr_eq
  structure-Call differ tags kind =
      let same_tag = (==_iff (get_tag a) (get_tag b)).0 tags in
      elim (Bool-cases (on_stack a b stack)) [
        | inl on ↦ stacked on (rw (differ, tags, kind, on))
        | inr off ↦ elim (Bool-cases (get_tag a == tag_list)) [
          | inl k ↦
              list_call differ same_tag ((==_iff _ tag_list).0 k) off (rw (differ, tags, off, k))
          | inr k ↦
              mapping_call differ same_tag (ground (arith, kind, k)) off
                (rw (differ, tags, kind, off, k))
        ]
      ]

  pub tagged_ptr_eq-Call : Call (tagged_ptr_eq memory (suc fuel) a b stack)
  unfolding tagged_ptr_eq
  tagged_ptr_eq-Call = elim (Bool-cases (a == b)) [
    | inl e ↦ same_pointer ((==_iff a b).0 e) (rw e)
    | inr e ↦ elim (Bool-cases (get_tag a == get_tag b)) [
      | inr t ↦ other_tag (==_false _ _ t) (rw (e, t))
      | inl t ↦ elim (Bool-cases (is_structure (get_tag a))) [
        | inr k ↦ scalar e ((==_iff _ _).0 t) k (rw (e, t, k))
        | inl k ↦ structure-Call e t k
      ]
    ]
  ]
