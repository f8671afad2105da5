-- ===== src/Prelude/Cells.antt =====
-- Memory as a function from indices to cells, and the list of the first cells.
use Prim.Native.Nat.{ℕ, zero, suc, ◌+◌, ◌<◌, ◌≤◌}
use mathlib.Core.Path.{◌≡◌, refl, ap, ap₂, ◌∙◌}
use mathlib.Core.List.{List, [], ◌∷◌, ◌++◌}
use native.Mathlib.Omega.{arith}
use nballerina.Prelude.Tests.{◌==◌, if◌then◌else◌}
use native.Mathlib.Nat.{zero-add, add-zero, suc-add, add-suc, le_refl}
use nballerina.Prelude.Lists.{length, set}

module _ {ℓ} {A : Type ℓ} where
  -- one write
  abbrev pub update : (ℕ → A) → ℕ → A → ℕ → A
  update f p v q = if p == q then v else f q

  -- the cells lo, lo + 1, ..., lo + n - 1
  abbrev pub cells_from : ℕ → ℕ → (ℕ → A) → List A
  cells_from zero lo f = []
  cells_from (suc n) lo f = f lo ∷ cells_from n (suc lo) f

  abbrev pub cells : ℕ → (ℕ → A) → List A
  cells n f = cells_from n 0 f

  pub length-cells_from : (n lo : ℕ) (f : ℕ → A) → length (cells_from n lo f) ≡ n
  length-cells_from zero lo f = refl
  length-cells_from (suc n) lo f = ap suc (length-cells_from n (suc lo) f)

  pub cells_from_ext :
      (n lo : ℕ) (f g : ℕ → A)
      → ((i : ℕ) → lo ≤ i → i < lo + n → f i ≡ g i)
      → cells_from n lo f ≡ cells_from n lo g
  cells_from_ext zero lo f g h = refl
  cells_from_ext (suc n) lo f g h =
      ap₂ ◌∷◌ (h lo (omega arith) (omega arith))
        (cells_from_ext n (suc lo) f g (λ i p q. h i (omega arith) (omega arith)))

  pub cells_from-append :
      (n m lo : ℕ) (f : ℕ → A)
      → cells_from (n + m) lo f ≡ cells_from n lo f ++ cells_from m (lo + n) f
  cells_from-append zero m lo f = rw (zero-add, add-zero)
  cells_from-append (suc n) m lo f =
      rw (suc-add, add-suc, ← suc-add) (ap (◌∷◌ (f lo)) (cells_from-append n m (suc lo) f))

  pub cells_ext : (n : ℕ) (f g : ℕ → A) → ((i : ℕ) → i < n → f i ≡ g i) → cells n f ≡ cells n g
  cells_ext n f g h = cells_from_ext n 0 f g (λ i p q. h i (omega arith))

  -- a write at the end appends
  pub cells-suc : (n : ℕ) (f : ℕ → A) → cells (suc n) f ≡ cells n f ++ f n ∷ []
  cells-suc n f =
      let e : suc n ≡ n + 1 = omega arith in
      ap (λ k. cells k f) e ∙ cells_from-append n 1 0 f ∙ rw zero-add

  -- a write inside is the list's write
  cells_from-update :
      (n lo i : ℕ) (f : ℕ → A) (v : A)
      → i < n
      → cells_from n lo (update f (lo + i) v) ≡ set (cells_from n lo f) i v
  cells_from-update zero lo i f v h = absurd (omega arith)
  cells_from-update (suc n) lo zero f v h =
      ap₂ ◌∷◌ (ground arith) (cells_from_ext n (suc lo) _ f (λ i p q. ground arith))
  cells_from-update (suc n) lo (suc i) f v h =
      let e : lo + suc i ≡ suc lo + i = omega arith in
      rw e (ap₂ ◌∷◌ (ground arith) (cells_from-update n (suc lo) i f v (omega arith)))

  pub cells-update :
      (n i : ℕ) (f : ℕ → A) (v : A) → i < n → cells n (update f i v) ≡ set (cells n f) i v
  cells-update n i f v h = rw zero-add at (cells_from-update n 0 i f v h)

  -- a write past the end does not show
  pub cells-update_past : (n i : ℕ) (f : ℕ → A) (v : A) → n ≤ i → cells n (update f i v) ≡ cells n f
  cells-update_past n i f v h = cells_ext n _ f (λ j p. ground arith)

  -- a write at the end appends
  pub cells-update_end :
      (n : ℕ) (f : ℕ → A) (v : A) → cells (suc n) (update f n v) ≡ cells n f ++ v ∷ []
  cells-update_end n f v =
      cells-suc n (update f n v)
      ∙ ap₂ (λ xs x. xs ++ x ∷ []) (cells-update_past n n f v (le_refl n)) (ground arith)
