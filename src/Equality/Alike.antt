-- ===== src/Equality/Alike.antt =====
-- When two values are alike: equal as far as a walk of `n` steps from both can see.
use nballerina.Prelude.{
  ℕ, zero, suc, ◌<◌, ◌≡◌, refl, ap, Bool, true, false, ◌==◌, ◌||◌, some, ==_false, arith,
}
use nballerina.Array.Access.{view}
use nballerina.Equality.{Memory, scalar_eq}
use nballerina.Mapping.Table.{Mapping}
use nballerina.Mapping.Valid.{get_spec, IsValid}
use nballerina.Tagged.{TaggedPtr, get_tag, tag_list, tag_mapping, tagged_to_ptr}

abbrev pub is_structure : (tag : ℕ) → Bool
is_structure tag = (tag == tag_list) || (tag == tag_mapping)

-- every mapping of the memory is valid
abbrev pub Sane : Memory → Type 0
Sane memory =
    (p : TaggedPtr)
    → get_tag p ≡ tag_mapping
    → IsValid memory.key (memory.mapping_at (tagged_to_ptr p))

module _ (memory : Memory) where
  abbrev pub list_length_of : TaggedPtr → ℕ
  list_length_of p = memory.list_length (tagged_to_ptr p)

  abbrev pub mapping_of : TaggedPtr → Mapping
  mapping_of p = memory.mapping_at (tagged_to_ptr p)

  module _ (R : TaggedPtr → TaggedPtr → Type 0) (a b : TaggedPtr) where
    abbrev pub ListsAlike : Type 0
    ListsAlike =
        (list_length_of b ≡ list_length_of a)
        × ((i : ℕ) → i < list_length_of a → R (memory.get a i) (memory.get b i))

    -- each field of one has a partner in the other, and they have as many
    abbrev pub MappingsAlike : Type 0
    MappingsAlike =
        ((mapping_of b).fields.length ≡ (mapping_of a).fields.length)
        × ((i : ℕ)
            → i < (mapping_of a).fields.length
            → (v : TaggedPtr) × (get_spec memory.key ((mapping_of a).fields.members.cell i).key
                  (view (mapping_of b).fields)
                ≡ some v)
              × R ((mapping_of a).fields.members.cell i).value v)

    -- one step, with `R` for the members
    pub data Step : Type 0 where
      same : a ≡ b → Step
      scalars :
          get_tag a ≡ get_tag b
          → is_structure (get_tag a) ≡ false
          → scalar_eq memory (get_tag a) a b ≡ true
          → Step
      lists : get_tag a ≡ get_tag b → get_tag a ≡ tag_list → ListsAlike → Step
      mappings : get_tag a ≡ get_tag b → get_tag a ≡ tag_mapping → MappingsAlike → Step

  unfoldable pub Alike : ℕ → TaggedPtr → TaggedPtr → Type 0
  Alike zero a b = get_tag a ≡ get_tag a
  Alike (suc n) a b = Step (Alike n) a b

  -- alike as far as any number of steps
  abbrev pub AlwaysAlike : TaggedPtr → TaggedPtr → Type 0
  AlwaysAlike a b = (n : ℕ) → Alike n a b

  pub Step-mono :
      (R S : TaggedPtr → TaggedPtr → Type 0)
      → ((a b : TaggedPtr) → R a b → S a b)
      → (a b : TaggedPtr) → Step R a b
      → Step S a b
  Step-mono R S f a b (same e) = same e
  Step-mono R S f a b (scalars t k e) = scalars t k e
  Step-mono R S f a b (lists t k (len, each)) = lists t k (len, λ i h. f _ _ (each i h))
  Step-mono R S f a b (mappings t k (len, each)) =
      mappings t k (len, λ i h. (let (v, at, r) = each i h in (v, at, f _ _ r)))

  pub Alike-refl : (n : ℕ) (a : TaggedPtr) → Alike n a a
  unfolding Alike
  Alike-refl zero a = refl
  Alike-refl (suc n) a = same refl

  pub Alike-less : (n : ℕ) (a b : TaggedPtr) → Alike (suc n) a b → Alike n a b
  unfolding Alike
  Alike-less zero a b alike = refl
  Alike-less (suc n) a b alike = Step-mono (Alike (suc n)) (Alike n) (Alike-less n) a b alike

  module _ (R : TaggedPtr → TaggedPtr → Type 0) (a b : TaggedPtr) (differ : (a == b) ≡ false) where
    pub Step-tag : Step R a b → get_tag a ≡ get_tag b
    Step-tag (same e) = ap get_tag e
    Step-tag (scalars t k e) = t
    Step-tag (lists t k e) = t
    Step-tag (mappings t k e) = t

    pub Step-scalars :
        is_structure (get_tag a) ≡ false → Step R a b → scalar_eq memory (get_tag a) a b ≡ true
    Step-scalars k (same e) = absurd (==_false a b differ e)
    Step-scalars k (scalars t _ e) = e
    Step-scalars k (lists t l e) = cc (rw l at k)
    Step-scalars k (mappings t l e) = cc (rw l at k)

    pub Step-lists : get_tag a ≡ tag_list → Step R a b → ListsAlike R a b
    Step-lists k (same e) = absurd (==_false a b differ e)
    Step-lists k (scalars t l e) = cc (rw k at l)
    Step-lists k (lists t l e) = e
    Step-lists k (mappings t l e) = absurd (omega (arith, k, l))

    pub Step-mappings : get_tag a ≡ tag_mapping → Step R a b → MappingsAlike R a b
    Step-mappings k (same e) = absurd (==_false a b differ e)
    Step-mappings k (scalars t l e) = cc (rw k at l)
    Step-mappings k (lists t l e) = absurd (omega (arith, k, l))
    Step-mappings k (mappings t l e) = e
