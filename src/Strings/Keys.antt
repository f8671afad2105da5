-- ===== src/Strings/Keys.antt =====
-- Strings as the keys of mappings.
use nballerina.Prelude.{◌≡◌, inl, inr, sym, ◌∙◌, true, ==_refl}
use nballerina.Mapping.Table.{Key}
use nballerina.Strings.{Words, HashKey, tagged_string_equal, string_hash}
use nballerina.Strings.Equal.{SameWords, SameWords-equal, equal-SameWords}
use nballerina.Strings.Hash.{string_hash-equal}
use nballerina.Tagged.{TaggedPtr}

module _ (mem : Words) where
  pub tagged_string_equal_refl : (a : TaggedPtr) → tagged_string_equal mem a a ≡ true
  unfolding tagged_string_equal
  tagged_string_equal_refl a = rw ==_refl

  SameWords-symm : (a b : TaggedPtr) → SameWords mem a b → SameWords mem b a
  SameWords-symm a b s = record {
    heap_left = s.heap_right;
    heap_right = s.heap_left;
    large = sym s.large;
    header = sym s.header;
    words = λ i h. sym (s.words i (rw (s.large, s.header) h));
  }

  SameWords-trans : (a b c : TaggedPtr) → SameWords mem a b → SameWords mem b c → SameWords mem a c
  SameWords-trans a b c s t = record {
    heap_left = s.heap_left;
    heap_right = t.heap_right;
    large = s.large ∙ t.large;
    header = s.header ∙ t.header;
    words = λ i h. s.words i h ∙ t.words i (rw (← s.large, ← s.header) h);
  }

  pub tagged_string_equal_symm :
      (a b : TaggedPtr) → tagged_string_equal mem a b ≡ true → tagged_string_equal mem b a ≡ true
  tagged_string_equal_symm a b h = elim (SameWords-equal mem a b h) [
    | inl e ↦ rw e (tagged_string_equal_refl b)
    | inr s ↦ equal-SameWords mem b a (SameWords-symm a b s)
  ]

  -- `taggedStringEqual` is transitive, in a memory that does not change
  pub tagged_string_equal_trans :
      (a b c : TaggedPtr)
      → tagged_string_equal mem a b ≡ true
      → tagged_string_equal mem b c ≡ true
      → tagged_string_equal mem a c ≡ true
  tagged_string_equal_trans a b c h k = elim (SameWords-equal mem a b h) [
    | inl e ↦ rw e k
    | inr s ↦ elim (SameWords-equal mem b c k) [
      | inl e ↦ rw (← e) h
      | inr t ↦ equal-SameWords mem a c (SameWords-trans a b c s t)
    ]
  ]

-- The strings of a memory that does not change are keys of mappings.
abbrev pub string_key : HashKey → Words → Key
string_key hash_key mem = record {
  equal = tagged_string_equal mem;
  hash = string_hash hash_key mem;
  equal_refl = tagged_string_equal_refl mem;
  equal_symm = tagged_string_equal_symm mem;
  equal_trans = tagged_string_equal_trans mem;
  hash-equal = string_hash-equal hash_key mem;
}
