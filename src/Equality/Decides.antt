-- ===== src/Equality/Decides.antt =====
-- `taggedPtrEq` against alikeness: what it says is right, through cycles too.
use nballerina.Prelude.{
  ℕ, zero, suc, ◌<◌, ◌≡◌, ◌↔◌, inl, inr, refl, sym, ne→==, ap, ◌∙◌, arith, Bool, true, ◌==◌, some,
  Bool-cases, ==_iff, ==_refl, [], ◌∷◌,
}
use nballerina.Array.Access.{view}
use nballerina.Equality.{
  Memory, EqStack, on_stack, list_eq_internal, mapping_eq_internal, tagged_ptr_eq, bal_eq,
}
use nballerina.Equality.Alike.{
  Sane, list_length_of, mapping_of, same, scalars, lists, mappings, ListsAlike, MappingsAlike,
  Alike, AlwaysAlike, Alike-less, Step-tag, Step-scalars, Step-lists, Step-mappings,
}
use nballerina.Equality.Cases.{
  on_stack-push, below, same_pointer, other_tag, scalar, stacked, list_call, mapping_call,
  tagged_ptr_eq-Call, tagged_ptr_eq-no_fuel,
}
use nballerina.Equality.Fields.{
  OnlyTrue, done_true, members_equal-true, members_equal-OnlyTrue, fields_equal-true,
  fields_equal-OnlyTrue,
}
use nballerina.Mapping.Valid.{get_spec}
use nballerina.Run.{Run, done}
use nballerina.Tagged.{TaggedPtr, get_tag, tag_mapping}

module _ (memory : Memory) (sane : Sane memory) where
  -- all pairs on the stack are alike as far as `n` steps
  abbrev pub StackAlike : ℕ → EqStack → Type 0
  StackAlike n stack = (p q : TaggedPtr) → on_stack p q stack ≡ true → Alike memory n p q

  StackAlike-push :
      (n : ℕ) (a b : TaggedPtr) (stack : EqStack)
      → Alike memory n a b
      → StackAlike n stack
      → StackAlike n ((a, b) ∷ stack)
  StackAlike-push n a b stack alike old p q on = elim (on_stack-push a b p q stack on) [
    | inl here ↦ let (e, k) = here in rw (e, k) alike
    | inr there ↦ old p q there
  ]

  list_eq_internal-true :
      (equal : TaggedPtr → TaggedPtr → Run Bool) (R : TaggedPtr → TaggedPtr → Type 0)
      (a b : TaggedPtr)
      → ((p q : TaggedPtr) → equal p q ≡ done true → R p q)
      → list_eq_internal memory equal a b ≡ done true
      → ListsAlike memory R a b
  unfolding list_eq_internal
  list_eq_internal-true equal R a b f run =
      elim (Bool-cases (list_length_of memory b == list_length_of memory a)) [
        | inl e ↦ (
          (==_iff _ _).0 e,
          λ i h.
              f _ _ (
                members_equal-true memory equal a b _ 0 (rw e at run) i (omega arith)
                  (omega arith)),
        )
        | inr e ↦ cc (rw e at run)
      ]

  mapping_eq_internal-true :
      (equal : TaggedPtr → TaggedPtr → Run Bool) (R : TaggedPtr → TaggedPtr → Type 0)
      (a b : TaggedPtr)
      → get_tag a ≡ tag_mapping
      → get_tag b ≡ tag_mapping
      → ((p q : TaggedPtr) → equal p q ≡ done true → R p q)
      → mapping_eq_internal memory equal a b ≡ done true
      → MappingsAlike memory R a b
  unfolding mapping_eq_internal
  mapping_eq_internal-true equal R a b s t f run =
      let m₁ = mapping_of memory a in
      let m₂ = mapping_of memory b in
      elim (Bool-cases (m₂.fields.length == m₁.fields.length)) [
        | inl e ↦ (
          (==_iff _ _).0 e,
          λ i h.
              (let (v, at, r) =
                  fields_equal-true memory equal m₁ m₂ (sane a s) (sane b t) m₁.fields.length 0
                    (omega arith) (rw e at run) i (omega arith) (omega arith) in
                (v, at, f _ _ r)),
        )
        | inr e ↦ cc (rw e at run)
      ]

  pub tagged_ptr_eq_sound :
      (n fuel : ℕ) (a b : TaggedPtr) (stack : EqStack)
      → tagged_ptr_eq memory fuel a b stack ≡ done true
      → StackAlike n stack
      → Alike memory n a b
  unfolding Alike
  tagged_ptr_eq_sound zero fuel a b stack run old = refl
  tagged_ptr_eq_sound (suc n) zero a b stack run old =
      cc (tagged_ptr_eq-no_fuel memory 0 a b stack, run)
  tagged_ptr_eq_sound (suc n) (suc fuel) a b stack run old =
      let less : StackAlike n stack = λ p q on. Alike-less memory n p q (old p q on) in
      let pushed =
        StackAlike-push n a b stack (tagged_ptr_eq_sound n (suc fuel) a b stack run less) less in
      elim (tagged_ptr_eq-Call memory fuel a b stack) [
        | same_pointer e r ↦ same e
        | other_tag t r ↦ cc (r, run)
        | scalar d t k r ↦ scalars t k (cc (r, run))
        | stacked on r ↦ old a b on
        | list_call d t k off r ↦ lists t k (
            list_eq_internal-true (below memory fuel a b stack) (Alike memory n) a b
              (λ p q e. tagged_ptr_eq_sound n fuel p q _ e pushed) (sym r ∙ run))
        | mapping_call d t k off r ↦ mappings t k (
            mapping_eq_internal-true (below memory fuel a b stack) (Alike memory n) a b k
              (sym t ∙ k) (λ p q e. tagged_ptr_eq_sound n fuel p q _ e pushed) (sym r ∙ run))
      ]

  list_eq_internal-OnlyTrue :
      (equal : TaggedPtr → TaggedPtr → Run Bool) (a b : TaggedPtr)
      → ((p q : TaggedPtr) → AlwaysAlike memory p q → OnlyTrue (equal p q))
      → ((n : ℕ) → ListsAlike memory (Alike memory n) a b)
      → OnlyTrue (list_eq_internal memory equal a b)
  unfolding list_eq_internal
  list_eq_internal-OnlyTrue equal a b f alike =
      rw (let (len, each) = alike 0 in len, ==_refl)
        (members_equal-OnlyTrue memory equal a b _ 0
          (λ i h k. f _ _ (λ n. let (len, each) = alike n in each i (omega arith))))

  mapping_eq_internal-OnlyTrue :
      (equal : TaggedPtr → TaggedPtr → Run Bool) (a b : TaggedPtr)
      → get_tag a ≡ tag_mapping
      → get_tag b ≡ tag_mapping
      → ((p q : TaggedPtr) → AlwaysAlike memory p q → OnlyTrue (equal p q))
      → ((n : ℕ) → MappingsAlike memory (Alike memory n) a b)
      → OnlyTrue (mapping_eq_internal memory equal a b)
  unfolding mapping_eq_internal
  mapping_eq_internal-OnlyTrue equal a b s t f alike =
      let m₁ = mapping_of memory a in
      let m₂ = mapping_of memory b in
      let (len, first) = alike 0 in
      let same_length = (==_iff m₂.fields.length m₁.fields.length).1 len in
      rw same_length (
        fields_equal-OnlyTrue memory equal m₁ m₂ (sane a s) (sane b t) m₁.fields.length 0
          (omega arith)
          (λ i h k.
            (let (v, at, r) = first i (omega arith) in
              (v, at, f _ v (same_partner i (omega arith) v at)))))
    where
      -- the partner is the same for every number of steps
      same_partner :
          (i : ℕ)
          → i < (mapping_of memory a).fields.length
          → (v : TaggedPtr)
          → get_spec memory.key
              ((mapping_of memory a).fields.members.cell i).key
              (view (mapping_of memory b).fields)
            ≡ some v
          → AlwaysAlike memory ((mapping_of memory a).fields.members.cell i).value v
      same_partner i h v at n =
          let (len, each) = alike n in
          let (w, at', r) = each i h in let e : w ≡ v = cc (at, at') in rw e at r

  pub tagged_ptr_eq_complete :
      (fuel : ℕ) (a b : TaggedPtr) (stack : EqStack)
      → AlwaysAlike memory a b
      → OnlyTrue (tagged_ptr_eq memory fuel a b stack)
  unfolding Alike
  tagged_ptr_eq_complete zero a b stack alike =
      rw (tagged_ptr_eq-no_fuel memory 0 a b stack) (λ r e. cc)
  tagged_ptr_eq_complete (suc fuel) a b stack alike =
      elim (tagged_ptr_eq-Call memory fuel a b stack) [
        | same_pointer e r ↦ rw r done_true
        | other_tag t r ↦
            absurd (
              t (
                Step-tag memory (Alike memory 0) a b (ne→== a b (λ e. t (ap get_tag e))) (alike 1)))
        | scalar d t k r ↦ rw (r, Step-scalars memory (Alike memory 0) a b d k (alike 1)) done_true
        | stacked on r ↦ rw r done_true
        | list_call d t k off r ↦ rw r (
            list_eq_internal-OnlyTrue (below memory fuel a b stack) a b
              (λ p q e. tagged_ptr_eq_complete fuel p q _ e)
              (λ n. Step-lists memory (Alike memory n) a b d k (alike (suc n))))
        | mapping_call d t k off r ↦ rw r (
            mapping_eq_internal-OnlyTrue (below memory fuel a b stack) a b k (sym t ∙ k)
              (λ p q e. tagged_ptr_eq_complete fuel p q _ e)
              (λ n. Step-mappings memory (Alike memory n) a b d k (alike (suc n))))
      ]

  -- In a memory whose mappings are valid, when `_bal_eq` returns, with any fuel, it says true just
  -- when the two values are alike as far as any number of steps through their members, though it
  -- takes a pair that is being compared for equal
  pub bal_eq-AlwaysAlike :
      (fuel : ℕ) (a b : TaggedPtr) (r : Bool)
      → bal_eq memory fuel a b ≡ done r
      → (r ≡ true) ↔ AlwaysAlike memory a b
  unfolding bal_eq
  bal_eq-AlwaysAlike fuel a b r run = (
    λ e n. tagged_ptr_eq_sound n fuel a b [] (rw e at run) (λ p q on. cc),
    λ alike. tagged_ptr_eq_complete fuel a b [] alike r run,
  )
