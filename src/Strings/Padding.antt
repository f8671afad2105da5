-- ===== src/Strings/Padding.antt =====
-- Comparing past the end of a string, where its padding is 0, changes nothing.
use nballerina.Prelude.{
  ℕ, zero, suc, ◌+◌, ◌-◌, ◌<◌, ◌≤◌, ◌≡◌, ◌≢◌, ◌⊎◌, inl, inr, refl, sym, ap, ◌∙◌, arith, leb, ◌==◌,
  if◌then◌else◌, Bool-cases, ==_false, ==_iff, lt-or-le, leb→le, leb-false,
}
use nballerina.Compare.{compare_lt, compare_eq, compare_gt}
use nballerina.Strings.Bytes.{order, or_else, or_else_assoc, bytes_compare, bytes_compare-append}

-- zeros are at most what they are compared with
left_zeros :
    (b i : ℕ) (f g : ℕ → ℕ)
    → ((k : ℕ) → i ≤ k → k < i + b → f k ≡ 0)
    → (bytes_compare b i f g ≡ compare_eq)
      ⊎ ((bytes_compare b i f g ≡ compare_lt) × (k : ℕ) × (i ≤ k) × (k < i + b) × (g k ≢ 0))
unfolding bytes_compare
left_zeros zero i f g z = inl refl
left_zeros (suc b) i f g z =
    let here : f i ≡ 0 = z i (omega arith) (omega arith) in
    elim (Bool-cases (g i == 0)) [
      | inr more ↦
          inr (rw here (ground (arith, more)), i, omega arith, omega arith, ==_false _ _ more)
      | inl nothing ↦
          let same : order (f i) (g i) ≡ compare_eq = rw (here, (==_iff (g i) 0).0 nothing) refl in
          rw same (elim (left_zeros b (suc i) f g (λ k p q. z k (omega arith) (omega arith))) [
            | inl e ↦ inl e
            | inr (e, k, p, q, r) ↦ inr (e, k, omega arith, omega arith, r)
          ])
    ]

-- what is compared with zeros is at least those
right_zeros :
    (b i : ℕ) (f g : ℕ → ℕ)
    → ((k : ℕ) → i ≤ k → k < i + b → g k ≡ 0)
    → (bytes_compare b i f g ≡ compare_eq)
      ⊎ ((bytes_compare b i f g ≡ compare_gt) × (k : ℕ) × (i ≤ k) × (k < i + b) × (f k ≢ 0))
unfolding bytes_compare
right_zeros zero i f g z = inl refl
right_zeros (suc b) i f g z =
    let here : g i ≡ 0 = z i (omega arith) (omega arith) in
    elim (Bool-cases (f i == 0)) [
      | inr more ↦
          inr (rw here (ground (arith, more)), i, omega arith, omega arith, ==_false _ _ more)
      | inl nothing ↦
          let same : order (f i) (g i) ≡ compare_eq = rw (here, (==_iff (f i) 0).0 nothing) refl in
          rw same (elim (right_zeros b (suc i) f g (λ k p q. z k (omega arith) (omega arith))) [
            | inl e ↦ inl e
            | inr (e, k, p, q, r) ↦ inr (e, k, omega arith, omega arith, r)
          ])
    ]

module _ (n m i : ℕ) (f g : ℕ → ℕ) where
  left_tail :
      (b : ℕ)
      → n ≤ m
      → ((k : ℕ) → i + n ≤ k → k < i + n + b → f k ≡ 0)
      → ((k : ℕ) → i + m ≤ k → k < i + n + b → g k ≡ 0)
      → or_else (bytes_compare b (i + n) f g) (order n m) ≡ order n m
  left_tail b le zf zg = elim (left_zeros b (i + n) f g zf) [
    | inl e ↦ rw e
    | inr (e, k, p, q, more) ↦ elim (lt-or-le n m) [
      | inl lt ↦ rw e (ground (arith, lt))
      | inr ge ↦ absurd (more (zg k (omega arith) q))
    ]
  ]

  right_tail :
      (b : ℕ)
      → m ≤ n
      → ((k : ℕ) → i + n ≤ k → k < i + m + b → f k ≡ 0)
      → ((k : ℕ) → i + m ≤ k → k < i + m + b → g k ≡ 0)
      → or_else (bytes_compare b (i + m) f g) (order n m) ≡ order n m
  right_tail b le zf zg = elim (right_zeros b (i + m) f g zg) [
    | inl e ↦ rw e
    | inr (e, k, p, q, more) ↦ elim (lt-or-le m n) [
      | inl lt ↦ rw e (ground (arith, lt))
      | inr ge ↦ absurd (more (zf k (omega arith) q))
    ]
  ]

  -- `size` bytes in place of those that both have
  pub padded_compare :
      (size : ℕ)
      → (if leb n m then n else m) ≤ size
      → ((k : ℕ) → i + n ≤ k → k < i + size → f k ≡ 0)
      → ((k : ℕ) → i + m ≤ k → k < i + size → g k ≡ 0)
      → or_else (bytes_compare size i f g) (order n m)
        ≡ or_else (bytes_compare (if leb n m then n else m) i f g) (order n m)
  padded_compare size le zf zg = elim (Bool-cases (leb n m)) [
    | inl e ↦
        let low : n ≤ m = leb→le n m e in
        let fits : n ≤ size = rw e at le in
        let split : n + (size - n) ≡ size = omega arith in
        rw e (
          ap (λ s. or_else (bytes_compare s i f g) (order n m)) (sym split)
          ∙ ap (λ c. or_else c (order n m)) (bytes_compare-append n (size - n) i f g)
          ∙ or_else_assoc (bytes_compare n i f g) (bytes_compare (size - n) (i + n) f g) (order n m)
          ∙ ap (or_else (bytes_compare n i f g)) (
              left_tail (size - n) low (λ k p q. zf k p (omega arith))
                (λ k p q. zg k p (omega arith))))
    | inr e ↦
        let low : m < n = leb-false n m e in
        let fits : m ≤ size = rw e at le in
        let split : m + (size - m) ≡ size = omega arith in
        rw e (
          ap (λ s. or_else (bytes_compare s i f g) (order n m)) (sym split)
          ∙ ap (λ c. or_else c (order n m)) (bytes_compare-append m (size - m) i f g)
          ∙ or_else_assoc (bytes_compare m i f g) (bytes_compare (size - m) (i + m) f g) (order n m)
          ∙ ap (or_else (bytes_compare m i f g)) (
              right_tail (size - m) (omega arith) (λ k p q. zf k p (omega arith))
                (λ k p q. zg k p (omega arith))))
  ]
