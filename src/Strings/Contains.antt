-- ===== src/Strings/Contains.antt =====
-- The binary search of a string among those of a subtype (runtime/string.c).
use nballerina.Prelude.{
  ℕ, zero, suc, ◌+◌, ◌-◌, ◌/◌, ◌<◌, ◌≤◌, ◌≡◌, ◌≢◌, inl, inr, refl, sym, ap, ◌∙◌, arith, Bool, true,
  false, not, ltb, lt→ltb, ◌==◌, ◌&&◌, if◌then◌else◌, Bool-cases, cells_from, lt-or-le,
}
use nballerina.Compare.{compare_lt, int_compare}
use nballerina.Compare.Lists.{lexicographic}
use nballerina.Compare.ListOrder.{
  is_eq, is_lt, all_words, list_order, lexicographic-same, equal_lists, equal_lists_refl, both,
}
use nballerina.Run.{Returns}
use nballerina.Strings.{Words, tagged_string_is_char}
use nballerina.Strings.Order.{string_cmp, string_list_contains, string_subtype_contains}
use nballerina.Strings.Ordered.{
  string_bytes, string_byte-lt, IsString, ComparesBytes, string_cmp-lexicographic,
}
use nballerina.Subtype.{list_contains}
use nballerina.Subtype.Search.{list_contains-Answers}
use nballerina.Tagged.{TaggedPtr}
use nballerina.Word.{word, lt_signed}

cells-all_words :
    (n i : ℕ) (f : ℕ → ℕ) → ((k : ℕ) → f k < 256) → all_words (cells_from n i f) ≡ true
unfolding all_words
cells-all_words zero i f h = refl
cells-all_words (suc n) i f h =
    let small = h i in
    let low : ltb (f i) word ≡ true = lt→ltb _ _ (omega (arith, small)) in
    rw low (cells-all_words n (suc i) f h)

-- the tests of the loop, by the order that the comparison gives
comparison_tests :
    (c : ℕ)
    → (is_eq (int_compare c 0) ≡ (c == 0))
      × ((c == 0) ≡ false → is_lt (int_compare c 0) ≡ lt_signed c 0)
unfolding int_compare is_eq is_lt
comparison_tests c = (ground arith, λ h. ground arith)

-- the answer is what is included for strings of that length if the string is in the list, and the
-- opposite if it is not
pub record StringAnswers (mem : Words) (n : ℕ) (strs : ℕ → TaggedPtr) (included : Bool)
    (str : TaggedPtr) (b : Bool) : Type 0 where
  pub found : (i : ℕ) → i < n → string_bytes mem str ≡ string_bytes mem (strs i) → b ≡ included
  pub missed :
      ((i : ℕ) → i < n → string_bytes mem str ≢ string_bytes mem (strs i)) → b ≡ not included

module _ (memcmp : (f g : ℕ → ℕ) → (n : ℕ) → ℕ) (compares : ComparesBytes memcmp) (mem : Words)
    (n : ℕ) (strs : ℕ → TaggedPtr) (str : TaggedPtr)
    (strings : (i : ℕ) → i < n → IsString mem (strs i)) (is_string : IsString mem str) where
  string_bytes-all_words : (p : TaggedPtr) → all_words (string_bytes mem p) ≡ true
  string_bytes-all_words p = cells-all_words _ 0 _ (string_byte-lt mem p)

  same_equal :
      (i : ℕ)
      → string_bytes mem str ≡ string_bytes mem (strs i)
      → equal_lists (string_bytes mem str) (string_bytes mem (strs i)) ≡ true
  same_equal i same =
      ap (equal_lists (string_bytes mem str)) (sym same)
      ∙ equal_lists_refl (string_bytes mem str) (string_bytes-all_words str)

  -- the comparison with an element, by the order of lists
  element_tests :
      (i : ℕ)
      → i < n
      → ((string_cmp memcmp mem str (strs i) == 0)
          ≡ list_order.equal (string_bytes mem str) (string_bytes mem (strs i)))
        × ((string_cmp memcmp mem str (strs i) == 0) ≡ false
            → lt_signed (string_cmp memcmp mem str (strs i)) 0
              ≡ list_order.less (string_bytes mem str) (string_bytes mem (strs i)))
  unfolding equal_lists
  element_tests i h =
      let cmp = string_cmp memcmp mem str (strs i) in
      let same =
        string_cmp-lexicographic memcmp compares mem str (strs i) is_string (strings i h) in
      let (eq, lt) = comparison_tests cmp in
      (
        sym eq
            ∙ ap is_eq same
            ∙ sym (
                ap
                  (λ b.
                    b && is_eq (lexicographic (string_bytes mem str) (string_bytes mem (strs i))))
                  (string_bytes-all_words str)),
        λ ne. sym (lt ne) ∙ ap is_lt same,
      )

  string_list_contains-list_contains :
      (fuel start stop : ℕ)
      → stop ≤ n
      → string_list_contains memcmp mem fuel strs start stop str
        ≡ list_contains list_order fuel
            (λ i. string_bytes mem (strs i))
            start
            stop
            (string_bytes mem str)
  unfolding string_list_contains list_contains
  string_list_contains-list_contains zero start stop h = refl
  string_list_contains-list_contains (suc fuel) start stop h = elim (lt-or-le start stop) [
    | inr over ↦ let none : ltb start stop ≡ false = ground arith in rw none refl
    | inl lt ↦
        let mid : ℕ = start + (stop - start) / 2 in
        let high : mid < stop = omega arith in
        let before = string_list_contains-list_contains fuel start mid (omega arith) in
        let after = string_list_contains-list_contains fuel (mid + 1) stop h in
        let (eq, less) = element_tests mid (omega arith) in
        elim (Bool-cases (string_cmp memcmp mem str (strs mid) == 0)) [
          | inl e ↦ rw (lt→ltb _ _ lt, sym eq, e) refl
          | inr e ↦ rw (lt→ltb _ _ lt, sym eq, e, less e, before, after) refl
        ]
  ]

  -- For strings as the runtime makes them, those of a subtype in ascending lexicographic order of
  -- their bytes, the test of a string returns, and the answer is what is included for strings of
  -- its kind, one character or not, if it has the bytes of one of them, and the opposite if it has
  -- the bytes of none
  pub string_subtype_contains-StringAnswers :
      (char_included non_char_included : Bool)
      → ((i j : ℕ)
          → i < j
          → j < n
          → lexicographic (string_bytes mem (strs i)) (string_bytes mem (strs j)) ≡ compare_lt)
      → Returns (string_subtype_contains memcmp mem n strs char_included non_char_included str) (
          StringAnswers mem n strs
            (if tagged_string_is_char str then char_included else non_char_included)
            str)
  unfolding string_subtype_contains equal_lists is_lt
  string_subtype_contains-StringAnswers char_included non_char_included sorted =
      let included = if tagged_string_is_char str then char_included else non_char_included in
      let (b, run, a) =
        list_contains-Answers list_order (λ i. string_bytes mem (strs i)) (string_bytes mem str)
          (string_bytes-all_words str) (n + 1) 0 n (omega arith) (omega arith)
          (λ i j p q r. ap is_lt (sorted i j q r)) (λ i p q. string_bytes-all_words (strs i)) in
      (
        if b then included else not included,
        rw (string_list_contains-list_contains (n + 1) 0 n (omega arith), run),
        elim (Bool-cases b) [
          | inl e ↦ record {
            found = λ i h same. rw e refl;
            missed = λ absent.
                (let (i, p, q, r) = a.found e in
                  absurd (absent i q (lexicographic-same _ _ ((both _ _ r).1))));
          }
          | inr e ↦ record {
            found = λ i h same. cc (same_equal i same, a.missed e i (omega arith) h);
            missed = λ absent. rw e refl;
          }
        ],
      )
