-- ===== src/Equality/Ends.antt =====
-- `taggedPtrEq` ends: each call on members puts a new pair on the stack, and there are finitely many.
use nballerina.Prelude.{
  ℕ, zero, suc, ◌+◌, ◌≤◌, ◌<◌, ◌≡◌, ◌↔◌, ◌⊎◌, inl, inr, refl, sym, ap₂, ◌∙◌, arith, Bool, true,
  false, ◌==◌, if◌then◌else◌, Bool-cases, ==_iff, ==_refl, length, [], ◌∷◌,
}
use nballerina.Equality.{
  Memory, EqStack, on_stack, list_eq_internal, mapping_eq_internal, tagged_ptr_eq, bal_eq,
}
use nballerina.Equality.Alike.{Sane, list_length_of, mapping_of, AlwaysAlike}
use nballerina.Equality.Cases.{
  on_stack-push, below, same_pointer, other_tag, scalar, stacked, list_call, mapping_call,
  tagged_ptr_eq-Call,
}
use nballerina.Equality.Decides.{bal_eq-AlwaysAlike}
use nballerina.Equality.Fields.{Ends, members_equal-Ends, fields_equal-Ends}
use nballerina.Run.{Run, Returns}
use nballerina.Tagged.{TaggedPtr, get_tag, tag_list, tag_mapping}

-- how many of the pairs are not on the stack
unfoldable pub fresh : (pairs stack : EqStack) → ℕ
fresh [] stack = 0
fresh (p ∷ pairs) stack = (if on_stack p.0 p.1 stack then 0 else 1) + fresh pairs stack

fresh_bound : (pairs stack : EqStack) → fresh pairs stack ≤ length pairs
unfolding fresh
fresh_bound [] stack = omega arith
fresh_bound (p ∷ pairs) stack = ground (arith, fresh_bound pairs stack)

on_stack-kept :
    (a b p q : TaggedPtr) (stack : EqStack)
    → on_stack p q stack ≡ true
    → on_stack p q ((a, b) ∷ stack) ≡ true
unfolding on_stack
on_stack-kept a b p q stack h = ground (arith, h)

on_stack-top : (a b : TaggedPtr) (stack : EqStack) → on_stack a b ((a, b) ∷ stack) ≡ true
unfolding on_stack
on_stack-top a b stack = rw (==_refl a, ==_refl b)

on_stack-cases :
    (a b : TaggedPtr) (p : TaggedPtr × TaggedPtr) (pairs : EqStack)
    → on_stack a b (p ∷ pairs) ≡ true
    → ((a ≡ p.0) × (b ≡ p.1)) ⊎ (on_stack a b pairs ≡ true)
on_stack-cases a b p pairs h = on_stack-push p.0 p.1 a b pairs h

fresh-push :
    (a b : TaggedPtr) (pairs stack : EqStack) → fresh pairs ((a, b) ∷ stack) ≤ fresh pairs stack
unfolding fresh
fresh-push a b [] stack = omega arith
fresh-push a b (p ∷ pairs) stack = elim (Bool-cases (on_stack p.0 p.1 stack)) [
  | inl e ↦ rw (e, on_stack-kept a b p.0 p.1 stack e) (omega (arith, fresh-push a b pairs stack))
  | inr e ↦ rw e (ground (arith, fresh-push a b pairs stack))
]

on_stack-nil : (a b : TaggedPtr) → on_stack a b [] ≡ false
unfolding on_stack
on_stack-nil a b = refl

fresh-less :
    (a b : TaggedPtr) (pairs stack : EqStack)
    → on_stack a b pairs ≡ true
    → on_stack a b stack ≡ false
    → fresh pairs ((a, b) ∷ stack) < fresh pairs stack
unfolding fresh
fresh-less a b [] stack h k = cc (on_stack-nil a b, h)
fresh-less a b (p ∷ pairs) stack h k = elim (on_stack-cases a b p pairs h) [
  | inl here ↦
      (let (e, f) = here in
        let off : on_stack p.0 p.1 stack ≡ false =
          ap₂ (λ x y. on_stack x y stack) (sym e) (sym f) ∙ k in
        let on : on_stack p.0 p.1 ((a, b) ∷ stack) ≡ true =
          ap₂ (λ x y. on_stack x y ((a, b) ∷ stack)) (sym e) (sym f) ∙ on_stack-top a b stack in
        rw (off, on) (omega (arith, fresh-push a b pairs stack)))
  | inr there ↦ elim (Bool-cases (on_stack p.0 p.1 stack)) [
    | inl e ↦
        rw (e, on_stack-kept a b p.0 p.1 stack e)
          (omega (arith, fresh-less a b pairs stack there k))
    | inr e ↦ rw e (ground (arith, fresh-less a b pairs stack there k))
  ]
]

-- With two lists, or two mappings, the pairs have those of their members.
pub record Closed (memory : Memory) (pairs : EqStack) : Type 0 where
  pub members :
      (a b : TaggedPtr) (i : ℕ)
      → on_stack a b pairs ≡ true
      → get_tag a ≡ tag_list
      → get_tag b ≡ tag_list
      → i < list_length_of memory a
      → i < list_length_of memory b
      → on_stack (memory.get a i) (memory.get b i) pairs ≡ true
  pub values :
      (a b : TaggedPtr) (i j : ℕ)
      → on_stack a b pairs ≡ true
      → get_tag a ≡ tag_mapping
      → get_tag b ≡ tag_mapping
      → i < (mapping_of memory a).fields.length
      → j < (mapping_of memory b).fields.length
      → on_stack
          ((mapping_of memory a).fields.members.cell i).value
          ((mapping_of memory b).fields.members.cell j).value
          pairs
        ≡ true

module _ (memory : Memory) (sane : Sane memory) (pairs : EqStack)
    (closed : Closed memory pairs) where
  list_eq_internal-Ends :
      (equal : TaggedPtr → TaggedPtr → Run Bool) (a b : TaggedPtr)
      → get_tag a ≡ tag_list
      → get_tag b ≡ tag_list
      → on_stack a b pairs ≡ true
      → ((p q : TaggedPtr) → on_stack p q pairs ≡ true → Ends (equal p q))
      → Ends (list_eq_internal memory equal a b)
  unfolding list_eq_internal
  list_eq_internal-Ends equal a b s t on f =
      elim (Bool-cases (list_length_of memory b == list_length_of memory a)) [
        | inr e ↦ (false, rw e)
        | inl e ↦
            let same_length : list_length_of memory b ≡ list_length_of memory a =
              (==_iff _ _).0 e in
            rw e (
              members_equal-Ends memory equal a b (list_length_of memory a) 0
                (λ i h k. f _ _ (closed.members a b i on s t (omega arith) (omega arith))))
      ]

  mapping_eq_internal-Ends :
      (equal : TaggedPtr → TaggedPtr → Run Bool) (a b : TaggedPtr)
      → get_tag a ≡ tag_mapping
      → get_tag b ≡ tag_mapping
      → on_stack a b pairs ≡ true
      → ((p q : TaggedPtr) → on_stack p q pairs ≡ true → Ends (equal p q))
      → Ends (mapping_eq_internal memory equal a b)
  unfolding mapping_eq_internal
  mapping_eq_internal-Ends equal a b s t on f =
      elim (Bool-cases
        ((mapping_of memory b).fields.length == (mapping_of memory a).fields.length)) [
          | inr e ↦ (false, rw e)
          | inl e ↦ rw e (
              fields_equal-Ends memory equal (mapping_of memory a) (mapping_of memory b) (sane a s)
                (sane b t) (mapping_of memory a).fields.length 0 (omega arith)
                (λ i j h k. f _ _ (closed.values a b i j on s t h k)))
        ]

  tagged_ptr_eq-Ends :
      (fuel : ℕ) (a b : TaggedPtr) (stack : EqStack)
      → on_stack a b pairs ≡ true
      → fresh pairs stack < fuel
      → Ends (tagged_ptr_eq memory fuel a b stack)
  tagged_ptr_eq-Ends zero a b stack on h = absurd (omega arith)
  tagged_ptr_eq-Ends (suc fuel) a b stack on h = elim (tagged_ptr_eq-Call memory fuel a b stack) [
    | same_pointer e r ↦ (true, r)
    | other_tag t r ↦ (false, r)
    | scalar d t k r ↦ (_, r)
    | stacked on r ↦ (true, r)
    | list_call d t k off r ↦ rw r (
        list_eq_internal-Ends (below memory fuel a b stack) a b k (sym t ∙ k) on (λ p q e.
          tagged_ptr_eq-Ends fuel p q _ e (omega (arith, fresh-less a b pairs stack on off))))
    | mapping_call d t k off r ↦ rw r (
        mapping_eq_internal-Ends (below memory fuel a b stack) a b k (sym t ∙ k) on (λ p q e.
          tagged_ptr_eq-Ends fuel p q _ e (omega (arith, fresh-less a b pairs stack on off))))
  ]

  -- In a memory whose mappings are valid, for a finite list of pairs of pointers that has with two
  -- lists, or two mappings, the pairs of their members, `_bal_eq` of a pair of them returns within
  -- one call more in depth than there are pairs, and says true just when the two are alike as far
  -- as any number of steps through their members
  pub bal_eq-Returns :
      (a b : TaggedPtr)
      → on_stack a b pairs ≡ true
      → Returns (bal_eq memory (suc (length pairs)) a b) (λ r. (r ≡ true) ↔ AlwaysAlike memory a b)
  unfolding bal_eq
  bal_eq-Returns a b on =
      let (r, run) =
        tagged_ptr_eq-Ends (suc (length pairs)) a b [] on (omega (arith, fresh_bound pairs [])) in
      (r, run, bal_eq-AlwaysAlike memory sane (suc (length pairs)) a b r run)
