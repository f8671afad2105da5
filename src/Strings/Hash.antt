-- ===== src/Strings/Hash.antt =====
-- Equal strings have equal hashes.
use nballerina.Prelude.{
  ℕ, zero, suc, ◌+◌, ◌-◌, ◌/◌, ◌%◌, ◌^◌, ◌≤◌, ◌<◌, ◌≡◌, inl, inr, refl, ap, arith, true, false,
  ◌==◌, Bool-cases,
}
use nballerina.Strings.{
  Words, is_large, string_word, n_ints, medium_string_size, large_string_size, tagged_string_equal,
  HashKey, hash_update, hash_words, hash_finish, medium_string_hash, large_string_hash, string_hash,
}
use nballerina.Strings.Equal.{SameWords-equal}
use nballerina.Tagged.{TaggedPtr}

module _ (p q : ℕ → ℕ) where
  hash_words-same :
      (rounds i h : ℕ)
      → ((j : ℕ) → i ≤ j → j < i + rounds → p j ≡ q j)
      → hash_words rounds i p h ≡ hash_words rounds i q h
  unfolding hash_words
  hash_words-same zero i h same = refl
  hash_words-same (suc rounds) i h same = rw (same i (omega arith) (omega arith)) (
      hash_words-same rounds (suc i) (hash_update h (q i))
        (λ j a b. same j (omega arith) (omega arith)))

  medium_string_hash-same :
      (h : ℕ)
      → ((i : ℕ) → i < n_ints false (p 0) → p i ≡ q i)
      → medium_string_hash p h ≡ medium_string_hash q h
  unfolding medium_string_hash
  medium_string_hash-same h same =
      let size = medium_string_size (q 0 % 2 ^ 16) in
      let n : ℕ = size / 8 in
      let header : p 0 ≡ q 0 = same 0 (omega arith) in
      rw (
        header,
        hash_words-same (n - 1) 1 h (λ j a b. same j (omega (arith, header))),
        hash_words-same (n - 1 - 1) 1 h (λ j a b. same j (omega (arith, header))),
        same (n - 1) (omega (arith, header)),
      )

  large_string_hash-same :
      (h : ℕ)
      → p 0 ≡ q 0
      → ((i : ℕ) → i < n_ints true (p 0) → p i ≡ q i)
      → large_string_hash p h ≡ large_string_hash q h
  unfolding large_string_hash
  large_string_hash-same h header same =
      let size = large_string_size (q 0) in
      let n : ℕ = size / 8 in
      elim (Bool-cases (size - (q 0 + 16) == 0)) [
        | inl e ↦
            rw (header, e, hash_words-same (n - 2) 2 h (λ j a b. same j (omega (arith, header))))
        | inr e ↦
            let some_words : 0 < n = ground arith in
            rw (
              header,
              e,
              hash_words-same (n - 1 - 2) 2 h (λ j a b. same j (omega (arith, header))),
              same (n - 1) (omega (arith, header)),
            )
      ]

-- Two strings that `taggedStringEqual` takes for equal have the same `_bal_string_hash`, in all
-- three representations and with any hash key
pub string_hash-equal :
    (hash_key : HashKey) (mem : Words) (a b : TaggedPtr)
    → tagged_string_equal mem a b ≡ true
    → string_hash hash_key mem a ≡ string_hash hash_key mem b
unfolding string_hash
string_hash-equal hash_key mem a b h = elim (SameWords-equal mem a b h) [
  | inl e ↦ ap (string_hash hash_key mem) e
  | inr s ↦ elim (Bool-cases (is_large a)) [
    | inl l ↦
        rw (s.heap_left, s.heap_right, ← s.large, l)
          (ap (hash_finish hash_key) (
            large_string_hash-same (string_word mem a) (string_word mem b) hash_key.first s.header
              (rw l at s.words)))
    | inr l ↦
        rw (s.heap_left, s.heap_right, ← s.large, l)
          (ap (hash_finish hash_key) (
            medium_string_hash-same (string_word mem a) (string_word mem b) hash_key.first
              (rw l at s.words)))
  ]
]
