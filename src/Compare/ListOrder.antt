-- ===== src/Compare/ListOrder.antt =====
-- The lexicographic order as an order for the binary search.
use nballerina.Prelude.{
  ℕ, ◌≡◌, inl, inr, refl, sym, ap, ap₂, ◌∙◌, arith, Bool, true, false, ltb, ◌==◌, ◌&&◌,
  if◌then◌else◌, Bool-cases, List, [], ◌∷◌, ==_iff,
}
use nballerina.Compare.{CompareResult, compare_eq, compare_lt, compare_gt, compare_un, int_compare}
use nballerina.Compare.Lists.{lexicographic, lexicographic_refl}
use nballerina.Subtype.{Order}
use nballerina.Word.{word, lt_signed}

unfoldable pub is_eq : CompareResult → Bool
is_eq compare_eq = true
is_eq compare_lt = false
is_eq compare_gt = false
is_eq compare_un = false

unfoldable pub is_lt : CompareResult → Bool
is_lt compare_lt = true
is_lt compare_eq = false
is_lt compare_gt = false
is_lt compare_un = false

unfoldable pub all_words : List ℕ → Bool
all_words [] = true
all_words (x ∷ xs) = ltb x word && all_words xs

-- the order of two numbers that are not equal
abbrev unequal_compare : ℕ → ℕ → CompareResult
unequal_compare x y = if lt_signed x y then compare_lt else compare_gt

unequal_compare_trans :
    (x y z : ℕ)
    → is_lt (unequal_compare x y) ≡ true
    → is_lt (unequal_compare y z) ≡ true
    → is_lt (unequal_compare x z) ≡ true
unfolding is_lt
unequal_compare_trans x y z h k = ground arith

unequal_compare_apart : (x y : ℕ) → is_lt (unequal_compare x y) ≡ true → (x == y) ≡ false
unfolding is_lt
unequal_compare_apart x y h = ground arith

unequal_compare_decides : (x y : ℕ) → is_eq (unequal_compare x y) ≡ false
unfolding is_eq
unequal_compare_decides x y = ground arith

unequal_compare_total :
    (x y : ℕ)
    → ltb x word ≡ true
    → ltb y word ≡ true
    → (x == y) ≡ false
    → is_lt (unequal_compare x y) ≡ false
    → is_lt (unequal_compare y x) ≡ true
unfolding is_lt
unequal_compare_total x y h k e l = ground arith

pub both : (x y : Bool) → (x && y) ≡ true → (x ≡ true) × (y ≡ true)
both true y h = (refl, h)
both false y h = cc

pub lexicographic_trans :
    (xs ys zs : List ℕ)
    → is_lt (lexicographic xs ys) ≡ true
    → is_lt (lexicographic ys zs) ≡ true
    → is_lt (lexicographic xs zs) ≡ true
unfolding lexicographic int_compare is_lt
lexicographic_trans [] [] [] h k = cc
lexicographic_trans [] (y ∷ ys) [] h k = cc
lexicographic_trans [] ys (z ∷ zs) h k = refl
lexicographic_trans (x ∷ xs) [] [] h k = cc
lexicographic_trans (x ∷ xs) (y ∷ ys) [] h k = cc
lexicographic_trans (x ∷ xs) [] (z ∷ zs) h k = cc
lexicographic_trans (x ∷ xs) (y ∷ ys) (z ∷ zs) h k = elim (Bool-cases (x == y)) [
  | inl e ↦
      let p : x ≡ y = (==_iff x y).0 e in
      elim (Bool-cases (x == z)) [
        | inl f ↦
            let g : (y == z) ≡ true = rw (sym p) f in
            rw f (lexicographic_trans xs ys zs (rw e at h) (rw g at k))
        | inr f ↦ let g : (y == z) ≡ false = rw (sym p) f in rw (f, p) (rw g at k)
      ]
  | inr e ↦ elim (Bool-cases (y == z)) [
    | inl f ↦
        let p : y ≡ z = (==_iff y z).0 f in
        let g : (x == z) ≡ false = rw (sym p) e in rw (g, sym p) (rw e at h)
    | inr f ↦
        let both = unequal_compare_trans x y z (rw e at h) (rw f at k) in
        let g : (x == z) ≡ false = unequal_compare_apart x z both in rw g both
  ]
]

lexicographic_symm : (xs ys : List ℕ) → is_eq (lexicographic xs ys) ≡ is_eq (lexicographic ys xs)
unfolding lexicographic int_compare is_eq
lexicographic_symm [] [] = refl
lexicographic_symm [] (y ∷ ys) = refl
lexicographic_symm (x ∷ xs) [] = refl
lexicographic_symm (x ∷ xs) (y ∷ ys) = elim (Bool-cases (x == y)) [
  | inl e ↦ let p : (y == x) ≡ true = ground arith in rw (e, p) (lexicographic_symm xs ys)
  | inr e ↦
      let p : (y == x) ≡ false = ground arith in
      rw (e, p) (unequal_compare_decides x y ∙ sym (unequal_compare_decides y x))
]

pub lexicographic_total :
    (xs ys : List ℕ)
    → all_words xs ≡ true
    → all_words ys ≡ true
    → is_eq (lexicographic xs ys) ≡ false
    → is_lt (lexicographic xs ys) ≡ false
    → is_lt (lexicographic ys xs) ≡ true
unfolding lexicographic int_compare is_lt is_eq all_words
lexicographic_total [] [] h k e l = cc
lexicographic_total [] (y ∷ ys) h k e l = cc
lexicographic_total (x ∷ xs) [] h k e l = refl
lexicographic_total (x ∷ xs) (y ∷ ys) h k e l = elim (Bool-cases (x == y)) [
  | inl q ↦
      let p : (y == x) ≡ true = ground arith in
      let a = both (ltb x word) (all_words xs) h in
      let b = both (ltb y word) (all_words ys) k in
      rw p (lexicographic_total xs ys (a.1) (b.1) (rw q at e) (rw q at l))
  | inr q ↦
      let p : (y == x) ≡ false = ground arith in
      let a = both (ltb x word) (all_words xs) h in
      let b = both (ltb y word) (all_words ys) k in
      rw p (unequal_compare_total x y (a.0) (b.0) q (rw q at l))
]

pub lexicographic-same : (xs ys : List ℕ) → is_eq (lexicographic xs ys) ≡ true → xs ≡ ys
unfolding lexicographic int_compare is_eq
lexicographic-same [] [] h = refl
lexicographic-same [] (y ∷ ys) h = cc
lexicographic-same (x ∷ xs) [] h = cc
lexicographic-same (x ∷ xs) (y ∷ ys) h = elim (Bool-cases (x == y)) [
  | inl e ↦ ap₂ (λ u v. u ∷ v) ((==_iff x y).0 e) (lexicographic-same xs ys (rw e at h))
  | inr e ↦ cc (unequal_compare_decides x y, rw e at h)
]

pub less_not_equal : (c : CompareResult) → is_lt c ≡ true → is_eq c ≡ false
unfolding is_lt is_eq
less_not_equal compare_lt h = refl
less_not_equal compare_eq h = cc
less_not_equal compare_gt h = cc
less_not_equal compare_un h = cc

unfoldable pub equal_lists : List ℕ → List ℕ → Bool
equal_lists xs ys = all_words xs && is_eq (lexicographic xs ys)

pub and_false : (x : Bool) → (x && false) ≡ false
and_false true = refl
and_false false = refl

pub equal_lists_symm : (xs ys : List ℕ) → equal_lists xs ys ≡ equal_lists ys xs
unfolding equal_lists
equal_lists_symm xs ys = elim (Bool-cases (is_eq (lexicographic xs ys))) [
  | inl e ↦
      let same = lexicographic-same xs ys e in
      ap (λ zs. all_words zs && is_eq (lexicographic zs ys)) same
      ∙ ap (λ zs. all_words ys && is_eq (lexicographic ys zs)) (sym same)
  | inr e ↦
      rw (sym (lexicographic_symm xs ys), e)
        (and_false (all_words xs) ∙ sym (and_false (all_words ys)))
]

-- the lists of words in the order of their first difference
abbrev pub list_order : Order (List ℕ)
unfolding equal_lists
list_order = record {
  equal = equal_lists;
  less = λ xs ys. is_lt (lexicographic xs ys);
  ordered = all_words;
  less_trans = lexicographic_trans;
  less-equal = λ xs ys h.
      ap (λ b. all_words xs && b) (less_not_equal (lexicographic xs ys) h)
      ∙ and_false (all_words xs);
  equal_symm = equal_lists_symm;
  less_total = λ xs ys h k e l. lexicographic_total xs ys h k (rw h at e) l;
  unordered-equal = λ xs ys h. rw h refl;
}

pub equal_lists_refl : (xs : List ℕ) → all_words xs ≡ true → equal_lists xs xs ≡ true
unfolding equal_lists is_eq
equal_lists_refl xs h = rw (h, lexicographic_refl xs) refl
