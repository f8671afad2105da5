-- ===== src/Strings/Equal.antt =====
-- What it means that two strings are equal.
use nballerina.Prelude.{
  ℕ, zero, suc, ◌+◌, ◌-◌, ◌≤◌, ◌<◌, ◌≡◌, ◌⊎◌, inl, inr, refl, arith, true, false, ◌==◌, ==_iff,
  ==_refl, Bool-cases, lt-or-le,
}
use nballerina.Strings.{
  Words, is_large, string_word, same_words, n_ints, string_heap_eq, tagged_string_equal,
}
use nballerina.Tagged.{TaggedPtr, is_immediate}

same_words-at :
    (rounds i j : ℕ) (p q : ℕ → ℕ)
    → same_words rounds i p q ≡ true
    → i ≤ j
    → j < i + rounds
    → p j ≡ q j
unfolding same_words
same_words-at zero i j p q h a b = absurd (omega arith)
same_words-at (suc rounds) i j p q h a b = elim (lt-or-le i j) [
  | inl lt ↦ same_words-at rounds (suc i) j p q (ground arith) (omega arith) (omega arith)
  | inr le ↦ let here : j ≡ i = omega arith in rw here (ground arith)
]

same_words-all :
    (rounds i : ℕ) (p q : ℕ → ℕ)
    → ((j : ℕ) → i ≤ j → j < i + rounds → p j ≡ q j)
    → same_words rounds i p q ≡ true
unfolding same_words
same_words-all zero i p q h = refl
same_words-all (suc rounds) i p q h =
    rw (h i (omega arith) (omega arith), ==_refl)
      (same_words-all rounds (suc i) p q (λ j a b. h j (omega arith) (omega arith)))

-- two strings on the heap with the same words
pub record SameWords (mem : Words) (a b : TaggedPtr) : Type 0 where
  pub heap_left : is_immediate a ≡ false
  pub heap_right : is_immediate b ≡ false
  pub large : is_large a ≡ is_large b
  pub header : string_word mem a 0 ≡ string_word mem b 0
  pub words :
      (i : ℕ)
      → i < n_ints (is_large a) (string_word mem a 0)
      → string_word mem a i ≡ string_word mem b i

module _ (mem : Words) (a b : TaggedPtr) where
  all_words :
      (n : ℕ)
      → string_word mem a 0 ≡ string_word mem b 0
      → same_words (n - 1) 1 (string_word mem a) (string_word mem b) ≡ true
      → (i : ℕ) → i < n
      → string_word mem a i ≡ string_word mem b i
  all_words n e h i lt = elim (lt-or-le 0 i) [
    | inl more ↦ same_words-at (n - 1) 1 i _ _ h (omega arith) (omega arith)
    | inr le ↦ let first : i ≡ 0 = omega arith in rw first e
  ]

  pub SameWords-equal : tagged_string_equal mem a b ≡ true → (a ≡ b) ⊎ SameWords mem a b
  unfolding tagged_string_equal string_heap_eq
  SameWords-equal h = elim (Bool-cases (a == b)) [
    | inl e ↦ inl ((==_iff a b).0 e)
    | inr e ↦
        let header : string_word mem a 0 ≡ string_word mem b 0 = ground arith in
        inr (elim (Bool-cases (is_large a)) [
          | inl l ↦ record {
            heap_left = ground arith;
            heap_right = ground arith;
            large = ground arith;
            header = header;
            words = rw l (all_words (n_ints true (string_word mem a 0)) header (ground arith));
          }
          | inr l ↦ record {
            heap_left = ground arith;
            heap_right = ground arith;
            large = ground arith;
            header = header;
            words = rw l (all_words (n_ints false (string_word mem a 0)) header (ground arith));
          }
        ])
  ]

  words_same :
      (n : ℕ)
      → ((i : ℕ) → i < n → string_word mem a i ≡ string_word mem b i)
      → same_words (n - 1) 1 (string_word mem a) (string_word mem b) ≡ true
  words_same n h = same_words-all (n - 1) 1 _ _ (λ j p q. h j (omega (arith, p, q)))

  pub equal-SameWords : SameWords mem a b → tagged_string_equal mem a b ≡ true
  unfolding tagged_string_equal string_heap_eq
  equal-SameWords s = elim (Bool-cases (a == b)) [
    | inl e ↦ rw e
    | inr e ↦ elim (Bool-cases (is_large a)) [
      | inl l ↦
          rw (e, s.heap_left, s.heap_right, ← s.header, ==_refl, ← s.large, l)
            (words_same (n_ints true (string_word mem a 0)) (rw l at s.words))
      | inr l ↦
          rw (e, s.heap_left, s.heap_right, ← s.header, ==_refl, ← s.large, l)
            (words_same (n_ints false (string_word mem a 0)) (rw l at s.words))
    ]
  ]
