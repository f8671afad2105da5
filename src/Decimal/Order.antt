-- ===== src/Decimal/Order.antt =====
-- The order on decimals: `_bal_decimal_cmp`, and the binary search of a subtype.
use nballerina.Prelude.{
  ℕ, zero, suc, ◌+◌, ◌-◌, ◌/◌, ◌<◌, ◌≡◌, inl, inr, refl, sym, ap, ◌∙◌, arith, Bool, true, false,
  not, if◌then◌else◌, Bool-cases,
}
use nballerina.Compare.{CompareResult, compare_eq, compare_lt, compare_gt, int_compare}
use nballerina.Compare.Laws.{flip}
use nballerina.Decimal.{
  DecClass, qnan, neg_normal, pos_zero, pos_normal, Number, Decimals, tagged_to_quad, decimal_cmp,
  decimal_list_contains, decimal_subtype_contains,
}
use nballerina.Run.{Returns}
use nballerina.Subtype.{Order, list_contains}
use nballerina.Subtype.Search.{list_contains-Answers}
use nballerina.Tagged.{TaggedPtr}

-- the class of the decimal -1, 0 or 1, or of the NaN, that a comparison gives
unfoldable pub class_of : {D : Type 0} → Order D → (a b : D) → DecClass
class_of order a b =
    if order.equal a b
    then pos_zero
    else if order.less a b
    then neg_normal
    else if order.less b a
    then pos_normal
    else qnan

-- what decNumber documents of `decQuadCompare`
abbrev pub Compares : {D : Type 0} → Number D → Order D → Type 0
Compares {D} number order = (a b : D) → number.class (number.compare_quad a b) ≡ class_of order a b

less_asym :
    {D : Type 0} (order : Order D) (a b : D)
    → order.equal a a ≡ true
    → order.less a b ≡ true
    → order.less b a ≡ false
less_asym order a b same l = elim (Bool-cases (order.less b a)) [
  | inr g ↦ g
  | inl g ↦ cc (order.less-equal a a (order.less_trans a b a l g), same)
]

-- the answer is `included` if the decimal is in the list, and the opposite if it is not
pub record DecimalAnswers {D : Type 0} (order : Order D) (n : ℕ) (decimals : ℕ → D)
    (included : Bool) (d : D) (b : Bool) : Type 0 where
  pub found : (i : ℕ) → i < n → order.equal d (decimals i) ≡ true → b ≡ included
  pub missed : ((i : ℕ) → i < n → order.equal d (decimals i) ≡ false) → b ≡ not included

-- the comparison by the order
abbrev pub numeric_compare : {D : Type 0} → Order D → (a b : D) → CompareResult
numeric_compare order a b =
    if order.equal a b then compare_eq else if order.less a b then compare_lt else compare_gt

module _ {D : Type 0} (number : Number D) (order : Order D) (compares : Compares number order) where
  decimal_list_contains-list_contains :
      (fuel : ℕ) (decimals : ℕ → D) (start stop : ℕ) (d : D)
      → decimal_list_contains number fuel decimals start stop d
        ≡ list_contains order fuel decimals start stop d
  unfolding decimal_list_contains list_contains class_of
  decimal_list_contains-list_contains zero decimals start stop d = refl
  decimal_list_contains-list_contains (suc fuel) decimals start stop d =
      let mid : ℕ = start + (stop - start) / 2 in
      let before = decimal_list_contains-list_contains fuel decimals start mid d in
      let after = decimal_list_contains-list_contains fuel decimals (mid + 1) stop d in
      elim (Bool-cases (order.equal d (decimals mid))) [
        | inl e ↦ rw (compares d (decimals mid), before, after, e)
        | inr e ↦ elim (Bool-cases (order.less d (decimals mid))) [
          | inl l ↦ rw (compares d (decimals mid), before, after, e, l)
          | inr l ↦ elim (Bool-cases (order.less (decimals mid) d)) [
            | inl g ↦ rw (compares d (decimals mid), before, after, e, l, g)
            | inr g ↦ rw (compares d (decimals mid), before, after, e, l, g)
          ]
        ]
      ]

  -- Where decNumber compares by an order, for the decimals of a subtype in ascending order the
  -- test of a decimal returns, and the answer is `included` if the decimal is equal to one of
  -- them, and the opposite if it is equal to none
  pub decimal_subtype_contains-DecimalAnswers :
      (n : ℕ) (decimals : ℕ → D) (included : Bool) (tp : TaggedPtr) (heap : Decimals D)
      → ((i j : ℕ) → i < j → j < n → order.less (decimals i) (decimals j) ≡ true)
      → ((i : ℕ) → i < n → order.ordered (decimals i) ≡ true)
      → order.ordered (tagged_to_quad tp heap) ≡ true
      → Returns
          (decimal_subtype_contains number n decimals included tp heap)
          (DecimalAnswers order n decimals included (tagged_to_quad tp heap))
  unfolding decimal_subtype_contains
  decimal_subtype_contains-DecimalAnswers n decimals included tp heap sorted good ordered =
      let d = tagged_to_quad tp heap in
      let (b, run, a) =
        list_contains-Answers order decimals d ordered (n + 1) 0 n (omega arith) (omega arith)
          (λ i j p q r. sorted i j q r) (λ i p q. good i q) in
      (
        if b then included else not included,
        rw (decimal_list_contains-list_contains (n + 1) decimals 0 n d, run),
        elim (Bool-cases b) [
          | inl e ↦ record {
            found = λ i h k. rw e;
            missed = λ none_equal. (let (i, p, q, r) = a.found e in cc (none_equal i q, r));
          }
          | inr e ↦ record {
            found = λ i h k. cc (a.missed e i (omega arith) h, k);
            missed = λ none_equal. rw e;
          }
        ],
      )

  module _ (tp₁ tp₂ : TaggedPtr) (heap : Decimals D)
      (ordered₁ : order.ordered (tagged_to_quad tp₁ heap) ≡ true)
      (ordered₂ : order.ordered (tagged_to_quad tp₂ heap) ≡ true) where
    decimal_cmp-numeric_compare :
        int_compare (decimal_cmp number tp₁ tp₂ heap) 0
        ≡ numeric_compare order (tagged_to_quad tp₁ heap) (tagged_to_quad tp₂ heap)
    unfolding decimal_cmp class_of int_compare
    decimal_cmp-numeric_compare =
        let a = tagged_to_quad tp₁ heap in
        let b = tagged_to_quad tp₂ heap in
        let class = compares a b in
        elim (Bool-cases (order.equal a b)) [
          | inl e ↦ rw (class, e)
          | inr e ↦ elim (Bool-cases (order.less a b)) [
            | inl l ↦ rw (class, e, l)
            | inr l ↦ rw (class, e, l, order.less_total a b ordered₁ ordered₂ e l)
          ]
        ]

    numeric_compare-flip :
        ((d : D) → order.ordered d ≡ true → order.equal d d ≡ true)
        → numeric_compare order (tagged_to_quad tp₂ heap) (tagged_to_quad tp₁ heap)
          ≡ flip (numeric_compare order (tagged_to_quad tp₁ heap) (tagged_to_quad tp₂ heap))
    unfolding flip
    numeric_compare-flip reflexive =
        let a = tagged_to_quad tp₁ heap in
        let b = tagged_to_quad tp₂ heap in
        elim (Bool-cases (order.equal a b)) [
          | inl e ↦ rw (order.equal_symm b a, e)
          | inr e ↦ elim (Bool-cases (order.less a b)) [
            | inl l ↦ rw (order.equal_symm b a, e, l, less_asym order a b (reflexive a ordered₁) l)
            | inr l ↦ rw (order.equal_symm b a, e, l, order.less_total a b ordered₁ ordered₂ e l)
          ]
        ]

  -- Where decNumber compares by an order in which the decimals, which are no NaN, are equal to
  -- themselves, `_bal_decimal_cmp` is below, at or above 0 as that order says, and opposite in the
  -- other order of the arguments
  pub decimal_cmp-flip :
      ((d : D) → order.ordered d ≡ true → order.equal d d ≡ true)
      → (tp₁ tp₂ : TaggedPtr) (heap : Decimals D) → order.ordered (tagged_to_quad tp₁ heap) ≡ true
      → order.ordered (tagged_to_quad tp₂ heap) ≡ true
      → (int_compare (decimal_cmp number tp₁ tp₂ heap) 0
          ≡ numeric_compare order (tagged_to_quad tp₁ heap) (tagged_to_quad tp₂ heap))
        × (int_compare (decimal_cmp number tp₂ tp₁ heap) 0
            ≡ flip (int_compare (decimal_cmp number tp₁ tp₂ heap) 0))
  decimal_cmp-flip reflexive tp₁ tp₂ heap o₁ o₂ =
      let there = decimal_cmp-numeric_compare tp₁ tp₂ heap o₁ o₂ in
      (
        there,
        decimal_cmp-numeric_compare tp₂ tp₁ heap o₂ o₁
            ∙ numeric_compare-flip tp₁ tp₂ heap o₁ o₂ reflexive
            ∙ ap flip (sym there),
      )
