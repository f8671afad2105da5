-- ===== src/Compare/Lists.antt =====
-- `_bal_array_exact_int_compare` is the lexicographic order.
use nballerina.Prelude.{
  ℕ, zero, suc, ◌+◌, ◌^◌, ◌<◌, ◌≡◌, refl, sym, ap, ◌∙◌, arith, Bool, true, false, leb, ◌==◌,
  if◌then◌else◌, List, [], ◌∷◌, cells, cells_from, ==_refl,
}
use nballerina.Compare.{
  CompareResult, compare_lt, compare_eq, compare_gt, int_compare, int_members_compare,
  array_exact_int_compare,
}
use nballerina.Word.{word, lt_signed}

-- the first difference decides, and a list comes after its proper prefixes
unfoldable pub lexicographic : List ℕ → List ℕ → CompareResult
unfolding int_compare
lexicographic [] [] = compare_eq
lexicographic [] (y ∷ ys) = compare_lt
lexicographic (x ∷ xs) [] = compare_gt
lexicographic (x ∷ xs) (y ∷ ys) = if x == y then lexicographic xs ys else int_compare x y

pub lexicographic_refl : (xs : List ℕ) → lexicographic xs xs ≡ compare_eq
unfolding lexicographic
lexicographic_refl [] = refl
lexicographic_refl (x ∷ xs) = rw ==_refl (lexicographic_refl xs)

-- one step of the loop, by the order of the two members
step :
    (x y : ℕ) (rest : CompareResult)
    → x < word
    → y < word
    → (if lt_signed y x then compare_gt else if lt_signed x y then compare_lt else rest)
      ≡ (if x == y then rest else int_compare x y)
unfolding int_compare
step x y rest h k = ground arith

module _ (len₁ len₂ : ℕ) (arr₁ arr₂ : ℕ → ℕ) (short₁ : len₁ < 2 ^ 63) (short₂ : len₂ < 2 ^ 63)
    (ints₁ : (i : ℕ) → arr₁ i < word) (ints₂ : (i : ℕ) → arr₂ i < word) where
  int_members_compare-lexicographic :
      (n₁ n₂ i rounds : ℕ)
      → len₁ ≡ i + n₁
      → len₂ ≡ i + n₂
      → rounds ≡ (if leb n₁ n₂ then n₁ else n₂)
      → int_members_compare len₁ len₂ arr₁ arr₂ rounds i
        ≡ lexicographic (cells_from n₁ i arr₁) (cells_from n₂ i arr₂)
  unfolding int_members_compare lexicographic int_compare
  int_members_compare-lexicographic zero zero i rounds e f r =
      let none_left : rounds ≡ 0 = ground arith in
      let same : len₂ ≡ len₁ = omega arith in rw (none_left, same, ==_refl)
  int_members_compare-lexicographic zero (suc n₂) i rounds e f r =
      let none_left : rounds ≡ 0 = ground arith in rw none_left (ground arith)
  int_members_compare-lexicographic (suc n₁) zero i rounds e f r =
      let none_left : rounds ≡ 0 = ground arith in rw none_left (ground arith)
  int_members_compare-lexicographic (suc n₁) (suc n₂) i zero e f r = absurd (ground arith)
  int_members_compare-lexicographic (suc n₁) (suc n₂) i (suc rounds) e f r =
      rw
        (int_members_compare-lexicographic n₁ n₂ (suc i) rounds (omega arith) (omega arith)
          (ground arith))
        (step (arr₁ i) (arr₂ i) _ (ints₁ i) (ints₂ i))

  -- For arrays of int64 shorter than 2 ^ 63, `_bal_array_exact_int_compare` is the lexicographic
  -- order on their lists of members, if equal pointers have equal members
  pub array_exact_int_compare-lexicographic :
      (same : Bool)
      → (same ≡ true → cells len₁ arr₁ ≡ cells len₂ arr₂)
      → array_exact_int_compare len₁ len₂ arr₁ arr₂ same
        ≡ lexicographic (cells len₁ arr₁) (cells len₂ arr₂)
  unfolding array_exact_int_compare
  array_exact_int_compare-lexicographic true equal =
      sym (lexicographic_refl (cells len₂ arr₂))
      ∙ ap (λ xs. lexicographic xs (cells len₂ arr₂)) (sym (equal refl))
  array_exact_int_compare-lexicographic false equal =
      int_members_compare-lexicographic len₁ len₂ 0 _ (omega arith) (omega arith) refl
