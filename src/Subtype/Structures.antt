-- ===== src/Subtype/Structures.antt =====
-- The tests of structures by their descriptors.
use nballerina.Prelude.{
  ℕ, zero, suc, ◌+◌, ◌-◌, ◌%◌, ◌^◌, ◌≤◌, ◌<◌, ◌≡◌, refl, arith, Bool, true, false, ltb, lt-or-le,
  inl, inr, if◌then◌else◌, Bool-cases, ltb→lt,
}
use nballerina.List.Stores.{ListDesc, member_type_at, list_desc_allows_tagged_at}
use nballerina.Mapping.Methods.{MappingDesc}
use nballerina.MemberType.{
  MemberType, UniformSubtype, complex, bit, word_and_not, word_or, bitset_member_type,
  member_type_is_supertype_simple, member_type_is_subtype_simple, member_type_contains_tagged,
}
use nballerina.MemberType.Laws.{
  member_type_is_subtype_simple_sound, member_type_is_supertype_simple_sound,
}
use nballerina.Subtype.{
  all_subtypes_simple, array_subtype_contains, map_subtype_contains, EasyFunctionSubtype,
  FunctionDesc, params_contain, function_subtype_contains,
}
use nballerina.Tagged.{TaggedPtr, uniform_type, tag_int}

module _ {H : Type 0} where
  all_subtypes_simple-at :
      (rounds i j : ℕ) (types : ℕ → MemberType H) (bit_set : ℕ)
      → all_subtypes_simple rounds i types bit_set ≡ true
      → i ≤ j
      → j < i + rounds
      → member_type_is_subtype_simple (types j) bit_set ≡ true
  unfolding all_subtypes_simple
  all_subtypes_simple-at zero i j types bit_set h p q = absurd (omega arith)
  all_subtypes_simple-at (suc rounds) i j types bit_set h p q = elim (lt-or-le i j) [
    | inl lt ↦
        all_subtypes_simple-at rounds (suc i) j types bit_set (ground arith) (omega arith)
          (omega arith)
    | inr le ↦ let same : j ≡ i = omega arith in rw same (ground arith)
  ]

  -- the integers that a subtype contains
  abbrev pub some_ints : UniformSubtype H → MemberType H
  some_ints subtype = complex (record { all = 0; some_of = 4; subtypes = λ _. subtype })

  -- what balrt.h says of the lengths in a list descriptor
  pub record IsDesc (ldp : ListDesc H) : Type 0 where
    pub in_range : ldp.n_member_types < 2 ^ 32
    pub min_length : ldp.n_member_types ≤ ldp.min_length
    pub has_types : 0 < ldp.min_length → 0 < ldp.n_member_types

  member_type_at-subtype :
      (bit_set : ℕ) (ldp : ListDesc H) (index : ℕ)
      → IsDesc ldp
      → array_subtype_contains bit_set ldp ≡ true
      → member_type_is_subtype_simple (member_type_at ldp index) bit_set ≡ true
  unfolding array_subtype_contains member_type_at
  member_type_at-subtype bit_set ldp index d h = elim (Bool-cases (ltb index ldp.min_length)) [
    | inr e ↦ rw e (ground arith)
    | inl e ↦
        let last = ldp.n_member_types in
        let j : ℕ = if ltb index last then index else (last + 2 ^ 32 - 1) % 2 ^ 32 in
        rw e (
          all_subtypes_simple-at last 0 j ldp.member_types bit_set (ground arith) (omega arith)
            (ground (arith, d.has_types, d.in_range)))
  ]

  -- Where `_bal_array_subtype_contains` accepts a bit set for a list descriptor whose lengths are
  -- as balrt.h says, the basic type of each value that the descriptor allows, at any index, is in
  -- the set
  pub array_subtype_contains_sound :
      (bit_set : ℕ) (ldp : ListDesc H) (h : H) (index : ℕ) (p : TaggedPtr)
      → IsDesc ldp
      → array_subtype_contains bit_set ldp ≡ true
      → list_desc_allows_tagged_at ldp h index p ≡ true
      → bit bit_set (uniform_type p) ≡ 1
  unfolding list_desc_allows_tagged_at
  array_subtype_contains_sound bit_set ldp h index p d c a =
      member_type_is_subtype_simple_sound (member_type_at ldp index) bit_set h p
        (member_type_at-subtype bit_set ldp index d c) a

  -- Where `_bal_map_subtype_contains` accepts a bit set for a mapping descriptor, the basic type
  -- of each value that the type of a field, or the rest type, contains is in the set
  pub map_subtype_contains_sound :
      (bit_set : ℕ) (p : TaggedPtr) (mdp : MappingDesc H) (h : H) (i : ℕ) (value : TaggedPtr)
      → map_subtype_contains bit_set p mdp ≡ true
      → member_type_contains_tagged
          (if ltb i mdp.n_fields then mdp.field_types i else mdp.rest_type)
          h
          value
        ≡ true
      → bit bit_set (uniform_type value) ≡ 1
  unfolding map_subtype_contains
  map_subtype_contains_sound bit_set p mdp h i value c a =
      member_type_is_subtype_simple_sound
        (if ltb i mdp.n_fields then mdp.field_types i else mdp.rest_type) bit_set h value
        (field (ltb i mdp.n_fields) refl) a
    where
      field :
          (b : Bool)
          → ltb i mdp.n_fields ≡ b
          → member_type_is_subtype_simple (if b then mdp.field_types i else mdp.rest_type) bit_set
            ≡ true
      field true e =
          all_subtypes_simple-at mdp.n_fields 0 i mdp.field_types bit_set (ground arith)
            (omega arith) (omega (arith, ltb→lt _ _ e))
      field false e = ground arith

  params_contain-at :
      (rounds i j : ℕ) (subtype : EasyFunctionSubtype) (desc : FunctionDesc H)
      → params_contain rounds i subtype desc ≡ true
      → i ≤ j
      → j < i + rounds
      → member_type_is_supertype_simple
          (if ltb j desc.n_required_params then desc.param_types j else desc.rest_type)
          (subtype.param_bit_sets j)
        ≡ true
  unfolding params_contain
  params_contain-at zero i j subtype desc h p q = absurd (omega arith)
  params_contain-at (suc rounds) i j subtype desc h p q = elim (lt-or-le i j) [
    | inl lt ↦
        params_contain-at rounds (suc i) j subtype desc (ground arith) (omega arith) (omega arith)
    | inr le ↦ let same : j ≡ i = omega arith in rw same (ground arith)
  ]

  -- Where `_bal_function_subtype_contains` accepts a function, the function requires at most as
  -- many parameters as the subtype, what it returns has a basic type of the subtype, and each
  -- parameter whose type is a 32-bit set of basic types contains every argument of the subtype
  pub function_subtype_contains_sound :
      (subtype : EasyFunctionSubtype) (p : TaggedPtr) (desc : FunctionDesc H) (h : H)
      → function_subtype_contains subtype p desc ≡ true
      → (desc.n_required_params ≤ subtype.n_required_params)
        × ((v : TaggedPtr)
            → member_type_contains_tagged desc.return_type h v ≡ true
            → bit subtype.return_bit_set (uniform_type v) ≡ 1)
        × ((i b : ℕ) (v : TaggedPtr)
            → i < subtype.n_required_params
            → b < 2 ^ 32
            → (if ltb i desc.n_required_params then desc.param_types i else desc.rest_type)
              ≡ bitset_member_type b
            → bit (subtype.param_bit_sets i) (uniform_type v) ≡ 1
            → member_type_contains_tagged (bitset_member_type {H = H} b) h v ≡ true)
  unfolding function_subtype_contains
  function_subtype_contains_sound subtype p desc h c =
      let few : desc.n_required_params ≤ subtype.n_required_params = ground arith in
      let params : params_contain subtype.n_required_params 0 subtype desc ≡ true = ground arith in
      (
        few,
        λ v a.
            member_type_is_subtype_simple_sound desc.return_type subtype.return_bit_set h v
              (ground arith) a,
        λ i b v lt w e a.
            member_type_is_supertype_simple_sound b (subtype.param_bit_sets i) h v w
              (rw e at (
                params_contain-at subtype.n_required_params 0 i subtype desc params (omega arith)
                  (omega arith)))
              a,
      )

  -- For a member type of some integers, `memberTypeIsSupertypeSimple` accepts the set of all
  -- integers, though the type does not contain an integer that its subtype rejects
  pub member_type_is_supertype_simple_partial :
      (subtype : UniformSubtype H) (h : H) (p : TaggedPtr)
      → uniform_type p ≡ tag_int
      → subtype h p ≡ false
      → (member_type_is_supertype_simple (some_ints subtype) 4 ≡ true)
        × (member_type_contains_tagged (some_ints subtype) h p ≡ false)
  unfolding member_type_is_supertype_simple member_type_contains_tagged word_and_not word_or
  member_type_is_supertype_simple_partial subtype h p t e = (refl, rw (t, e))
