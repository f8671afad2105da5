-- ===== src/MemberType.antt =====
-- Member types (`MemberType`, `ComplexType` and the functions on them in runtime/balrt.h). A member
-- type is a 64-bit word: a set of basic types, shifted and with the low bit set, or the address of
-- a `ComplexType`, which stands here by its contents. `H` is the memory that a `contains` function
-- reads.
pub mod Laws
use Prim.Native.Nat.{max}
use nballerina.Prelude.{
  ℕ, ◌-◌, ◌⊎◌, inl, inr, zero, suc, ◌+◌, ◌*◌, ◌/◌, ◌%◌, ◌^◌, Bool, true, false, ◌==◌, ◌||◌,
  if◌then◌else◌,
}
use nballerina.Tagged.{TaggedPtr, uniform_type}

-- the bit of weight 2 ^ i
abbrev pub bit : ℕ → ℕ → ℕ
bit n i = n / 2 ^ i % 2

abbrev pub has_bit : ℕ → ℕ → Bool
has_bit n i = bit n i == 1

-- `__builtin_popcount` of the low `width` bits
unfoldable pub popcount : (width n : ℕ) → ℕ
popcount zero n = 0
popcount (suc width) n = n % 2 + popcount width (n / 2)

-- `a | b` and `a & ~b` on the low `width` bits
unfoldable pub word_or : (width a b : ℕ) → ℕ
word_or zero a b = 0
word_or (suc width) a b = max (a % 2) (b % 2) + 2 * word_or width (a / 2) (b / 2)

unfoldable pub word_and_not : (width a b : ℕ) → ℕ
word_and_not zero a b = 0
word_and_not (suc width) a b = (a % 2 - b % 2) + 2 * word_and_not width (a / 2) (b / 2)

module _ (H : Type 0) where
  -- `contains` of a uniform subtype, with the subtype that it is called on
  abbrev pub UniformSubtype : Type 0
  UniformSubtype = H → TaggedPtr → Bool

  -- `subtypes` is the flexible array at the end of the struct
  pub record ComplexType : Type 0 where
    pub all : ℕ
    pub some_of : ℕ
    pub subtypes : ℕ → UniformSubtype

  pub data MemberType : Type 0 where
    simple : ℕ → MemberType
    complex : ComplexType → MemberType

module _ {H : Type 0} where
  -- `BITSET_MEMBER_TYPE`
  unfoldable pub bitset_member_type : ℕ → MemberType H
  bitset_member_type bit_set = simple (bit_set * 2 % 2 ^ 64 + 1)

  -- the index of a partly included basic type among the subtypes: `ctp->some & (flag - 1)` keeps
  -- the low `tag` bits
  unfoldable pub subtype_index : ComplexType H → (tag : ℕ) → ℕ
  subtype_index ct tag = popcount tag ct.some_of

  unfoldable pub complex_type_contains_tagged : ComplexType H → H → TaggedPtr → Bool
  unfolding subtype_index
  complex_type_contains_tagged ct h p =
      let tag = uniform_type p in
      if has_bit ct.all tag
      then true
      else if has_bit ct.some_of tag
      then ct.subtypes (subtype_index ct tag) h p
      else false

  unfoldable pub member_type_contains_tagged : MemberType H → H → TaggedPtr → Bool
  unfolding complex_type_contains_tagged
  member_type_contains_tagged (simple m) h p = has_bit m (1 + uniform_type p)
  member_type_contains_tagged (complex ct) h p = complex_type_contains_tagged ct h p

  unfoldable pub member_bit_set : MemberType H → ℕ
  member_bit_set (simple m) = m / 2 % 2 ^ 32
  member_bit_set (complex ct) = word_or 32 ct.all ct.some_of

  unfoldable pub member_type_is_subtype_simple : MemberType H → (bit_set : ℕ) → Bool
  unfolding member_bit_set
  member_type_is_subtype_simple mt bit_set = word_and_not 32 (member_bit_set mt) bit_set == 0

  unfoldable pub member_type_is_supertype_simple : MemberType H → (bit_set : ℕ) → Bool
  unfolding member_bit_set
  member_type_is_supertype_simple mt bit_set = word_and_not 32 bit_set (member_bit_set mt) == 0

  -- `complexTypeUniformSubtypeData`: the answer for a whole basic type, or the subtype to ask
  unfoldable pub complex_type_uniform_subtype_data :
      ComplexType H → (tag : ℕ) → Bool ⊎ UniformSubtype H
  unfolding subtype_index
  complex_type_uniform_subtype_data ct tag =
      if has_bit ct.all tag
      then inl true
      else if has_bit ct.some_of tag
      then inr (ct.subtypes (subtype_index ct tag))
      else inl false
