-- ===== src/Strings/Bytes.antt =====
-- Byte by byte comparison, and the first bytes that differ.
use nballerina.Prelude.{
  ℕ, zero, suc, ◌+◌, ◌-◌, ◌^◌, ◌<◌, ◌≤◌, ◌≡◌, ◌≢◌, ◌⊎◌, inl, inr, refl, sym, ap, ap₂, ==_false, ◌∙◌,
  arith, ltb, leb, ◌==◌, if◌then◌else◌, Bool-cases, ==_iff, ==_refl, lt-or-le, cells_from,
}
use nballerina.Compare.{CompareResult, compare_lt, compare_eq, compare_gt, compare_un, int_compare}
use nballerina.Compare.Lists.{lexicographic}

-- the order of numbers
abbrev pub order : (x y : ℕ) → CompareResult
order x y = if x == y then compare_eq else if ltb x y then compare_lt else compare_gt

pub int_compare-order : (x y : ℕ) → x < 2 ^ 63 → y < 2 ^ 63 → int_compare x y ≡ order x y
unfolding int_compare
int_compare-order x y h k = ground arith

-- the second result where the first one does not decide
abbrev pub or_else : CompareResult → CompareResult → CompareResult
or_else compare_eq rest = rest
or_else compare_lt rest = compare_lt
or_else compare_gt rest = compare_gt
or_else compare_un rest = compare_un

pub or_else_assoc : (a b c : CompareResult) → or_else (or_else a b) c ≡ or_else a (or_else b c)
or_else_assoc compare_eq b c = refl
or_else_assoc compare_lt b c = refl
or_else_assoc compare_gt b c = refl
or_else_assoc compare_un b c = refl

-- the first difference among `rounds` bytes from `i` on
unfoldable pub bytes_compare : (rounds i : ℕ) → (f g : ℕ → ℕ) → CompareResult
bytes_compare zero i f g = compare_eq
bytes_compare (suc rounds) i f g = or_else (order (f i) (g i)) (bytes_compare rounds (suc i) f g)

pub bytes_compare-append :
    (a b i : ℕ) (f g : ℕ → ℕ)
    → bytes_compare (a + b) i f g ≡ or_else (bytes_compare a i f g) (bytes_compare b (i + a) f g)
unfolding bytes_compare
bytes_compare-append zero b i f g =
    let e : i ≡ i + 0 = omega arith in
    let n : 0 + b ≡ b = omega arith in ap₂ (λ n k. bytes_compare n k f g) n e
bytes_compare-append (suc a) b i f g =
    let e : suc i + a ≡ i + suc a = omega arith in
    let n : suc a + b ≡ suc (a + b) = omega arith in
    ap (λ k. bytes_compare k i f g) n
    ∙ ap (or_else (order (f i) (g i))) (
        bytes_compare-append a b (suc i) f g
        ∙ ap (λ k. or_else (bytes_compare a (suc i) f g) (bytes_compare b k f g)) e)
    ∙ sym (
        or_else_assoc (order (f i) (g i)) (bytes_compare a (suc i) f g)
          (bytes_compare b (i + suc a) f g))

pub bytes_compare-ext :
    (n i j : ℕ) (f g f' g' : ℕ → ℕ)
    → ((k : ℕ) → k < n → (f (i + k) ≡ f' (j + k)) × (g (i + k) ≡ g' (j + k)))
    → bytes_compare n i f g ≡ bytes_compare n j f' g'
unfolding bytes_compare
bytes_compare-ext zero i j f g f' g' same = refl
bytes_compare-ext (suc n) i j f g f' g' same =
    let e : i + 0 ≡ i = omega arith in
    let e' : j + 0 ≡ j = omega arith in
    let (p, q) = same 0 (omega arith) in
    ap₂ or_else (ap₂ order (ap f (sym e) ∙ p ∙ ap f' e') (ap g (sym e) ∙ q ∙ ap g' e')) (
      bytes_compare-ext n (suc i) (suc j) f g f' g' (λ k h.
        (let here : suc i + k ≡ i + suc k = omega arith in
          let there : suc j + k ≡ j + suc k = omega arith in
          let (p, q) = same (suc k) (omega arith) in
          (ap f here ∙ p ∙ ap f' (sym there), ap g here ∙ q ∙ ap g' (sym there)))))

lexicographic-step :
    (x y : ℕ) (rest : CompareResult)
    → x < 256
    → y < 256
    → (if x == y then rest else int_compare x y) ≡ or_else (order x y) rest
unfolding int_compare
lexicographic-step x y rest h k = ground arith

-- the lexicographic order on the bytes of two strings
pub lexicographic-bytes_compare :
    (n m i : ℕ) (f g : ℕ → ℕ)
    → ((k : ℕ) → f k < 256)
    → ((k : ℕ) → g k < 256)
    → lexicographic (cells_from n i f) (cells_from m i g)
      ≡ or_else (bytes_compare (if leb n m then n else m) i f g) (order n m)
unfolding lexicographic bytes_compare int_compare
lexicographic-bytes_compare zero zero i f g h k = refl
lexicographic-bytes_compare zero (suc m) i f g h k = ground arith
lexicographic-bytes_compare (suc n) zero i f g h k = ground arith
lexicographic-bytes_compare (suc n) (suc m) i f g h k =
    let shorter : (if leb (suc n) (suc m) then suc n else suc m) ≡ suc (if leb n m then n else m) =
      ground arith in
    let lengths : order n m ≡ order (suc n) (suc m) = ground arith in
    lexicographic-step (f i) (g i) _ (h i) (k i)
    ∙ ap (or_else (order (f i) (g i))) (lexicographic-bytes_compare n m (suc i) f g h k)
    ∙ sym (
        or_else_assoc (order (f i) (g i)) (bytes_compare (if leb n m then n else m) (suc i) f g)
          (order n m))
    ∙ ap₂ (λ c o. or_else c o) (ap (λ r. bytes_compare r i f g) (sym shorter)) lengths

-- bytes that are the same, and the first ones that differ
pub bytes_compare-same :
    (n i : ℕ) (f g : ℕ → ℕ)
    → ((k : ℕ) → i ≤ k → k < i + n → f k ≡ g k)
    → bytes_compare n i f g ≡ compare_eq
unfolding bytes_compare
bytes_compare-same zero i f g same = refl
bytes_compare-same (suc n) i f g same =
    rw (same i (omega arith) (omega arith), ==_refl (g i))
      (bytes_compare-same n (suc i) f g (λ k p q. same k (omega arith) (omega arith)))

unfoldable pub First : (f g : ℕ → ℕ) → (j : ℕ) → Type 0
First f g j = ((k : ℕ) → k < j → f k ≡ g k) × (f j ≢ g j)

pub unequal_byte :
    (n : ℕ) (f g : ℕ → ℕ) → ((k : ℕ) → k < n → f k ≡ g k) ⊎ ((j : ℕ) × (j < n) × First f g j)
unfolding First
unequal_byte zero f g = inl (λ k h. absurd (omega arith))
unequal_byte (suc n) f g = elim (unequal_byte n f g) [
  | inr (j, h, first) ↦ inr (j, omega arith, first)
  | inl same ↦ elim (Bool-cases (f n == g n)) [
    | inr e ↦ inr (n, omega arith, (same, ==_false _ _ e))
    | inl e ↦ inl (λ k h. elim (lt-or-le k n) [
      | inl lt ↦ same k lt
      | inr ge ↦ let last : k ≡ n = omega arith in rw last ((==_iff (f n) (g n)).0 e)
    ])
  ]
]

decided : (x y : ℕ) (rest : CompareResult) → x ≢ y → or_else (order x y) rest ≡ order x y
decided x y rest h = ground arith

pub bytes_compare-First :
    (n j : ℕ) (f g : ℕ → ℕ) → First f g j → j < n → bytes_compare n 0 f g ≡ order (f j) (g j)
unfolding First bytes_compare
bytes_compare-First n j f g (same, differ) h =
    let split : j + suc (n - suc j) ≡ n = omega arith in
    ap (λ r. bytes_compare r 0 f g) (sym split)
    ∙ bytes_compare-append j (suc (n - suc j)) 0 f g
    ∙ (let at : 0 + j ≡ j = omega arith in
        rw (bytes_compare-same j 0 f g (λ k p q. same k (omega arith)), at)
          (decided (f j) (g j) _ differ))
