-- ===== src/Strings/Ordered.antt =====
-- The lexicographic order on strings, through all of `_bal_string_cmp`.
use nballerina.Prelude.{
  ℕ, zero, suc, ◌+◌, ◌%◌, ◌^◌, ◌<◌, ◌≡◌, inl, inr, refl, sym, ap, ap₂, ◌∙◌, arith, Bool, true,
  false, leb, ◌==◌, ◌&&◌, if◌then◌else◌, Bool-cases, ==_false, ==_iff, List, ◌∷◌, cells, cells_ext,
  cells_from,
}
use native.Mathlib.Nat.{mod-lt}
use nballerina.Compare.{int_compare}
use nballerina.Compare.Lists.{lexicographic, lexicographic_refl}
use nballerina.Strings.{Words, is_large, string_word, tagged_string_length, immediate_string_length}
use nballerina.Strings.Bytes.{order, or_else, bytes_compare, lexicographic-bytes_compare}
use nballerina.Strings.Order.{
  digit, byte_of, string_byte, same_kind, string_cmp_medium, string_cmp_large, string_cmp_generic,
  string_cmp,
}
use nballerina.Strings.Immediate.{Immediate, string_cmp_immediate-lexicographic}
use nballerina.Strings.Lexicographic.{
  Padded, then_lengths, string_cmp_medium-lexicographic, string_cmp_large-lexicographic,
}
use nballerina.Tagged.{TaggedPtr, is_immediate}

-- the bytes of a string
abbrev pub string_bytes : Words → TaggedPtr → List ℕ
string_bytes mem p = cells (tagged_string_length mem p).n_bytes (string_byte mem p)

-- A string as the runtime makes it. A large string has less than 2 ^ 62 bytes.
pub record IsString (mem : Words) (p : TaggedPtr) : Type 0 where
  pub immediate : is_immediate p ≡ true → Immediate ((immediate_string_length p).n_bytes) p
  pub medium :
      is_immediate p ≡ false
      → is_large p ≡ false
      → Padded 4 (string_word mem p 0 % 2 ^ 16) (string_word mem p)
  pub large :
      is_immediate p ≡ false
      → is_large p ≡ true
      → (string_word mem p 0 < 2 ^ 62) × Padded 16 (string_word mem p 0) (string_word mem p)

-- what the C library says of `memcmp`
abbrev pub ComparesBytes : ((f g : ℕ → ℕ) → (n : ℕ) → ℕ) → Type 0
ComparesBytes memcmp =
    (f g : ℕ → ℕ) (n : ℕ)
    → ((k : ℕ) → f k < 256)
    → ((k : ℕ) → g k < 256)
    → int_compare (memcmp f g n) 0 ≡ bytes_compare n 0 f g

cells_from-shift {ℓ} :
    {A : Type ℓ} (n a b : ℕ) (f : ℕ → A) → cells_from n (a + b) f ≡ cells_from n b (λ i. f (a + i))
cells_from-shift zero a b f = refl
cells_from-shift (suc n) a b f =
    let e : suc (a + b) ≡ a + suc b = omega arith in
    ap (◌∷◌ (f (a + b))) (ap (λ k. cells_from n k f) e ∙ cells_from-shift n a (suc b) f)

module _ (mem : Words) (p : TaggedPtr) where
  bytes_immediate :
      is_immediate p ≡ true
      → string_bytes mem p ≡ cells_from ((immediate_string_length p).n_bytes) 0 (digit p)
  unfolding tagged_string_length
  bytes_immediate i =
      ap (λ n. cells n (string_byte mem p)) (rw i)
      ∙ cells_ext ((immediate_string_length p).n_bytes) (string_byte mem p) (digit p) (λ k h. rw i)

  bytes_medium :
      is_immediate p ≡ false
      → is_large p ≡ false
      → string_bytes mem p
        ≡ cells_from (string_word mem p 0 % 2 ^ 16) 4 (byte_of (string_word mem p))
  unfolding tagged_string_length
  bytes_medium i l =
      ap (λ n. cells n (string_byte mem p)) (rw (i, l))
      ∙ cells_ext (string_word mem p 0 % 2 ^ 16) (string_byte mem p)
          (λ k. byte_of (string_word mem p) (4 + k)) (λ k h. rw (i, l))
      ∙ sym (cells_from-shift (string_word mem p 0 % 2 ^ 16) 4 0 (byte_of (string_word mem p)))

  bytes_large :
      is_immediate p ≡ false
      → is_large p ≡ true
      → string_bytes mem p ≡ cells_from (string_word mem p 0) 16 (byte_of (string_word mem p))
  unfolding tagged_string_length
  bytes_large i l =
      ap (λ n. cells n (string_byte mem p)) (rw (i, l))
      ∙ cells_ext (string_word mem p 0) (string_byte mem p)
          (λ k. byte_of (string_word mem p) (16 + k)) (λ k h. rw (i, l))
      ∙ sym (cells_from-shift (string_word mem p 0) 16 0 (byte_of (string_word mem p)))

  pub string_byte-lt : (k : ℕ) → string_byte mem p k < 256
  string_byte-lt k = elim (Bool-cases (is_immediate p)) [
    | inl i ↦ rw i (mod-lt _ (omega arith))
    | inr i ↦ elim (Bool-cases (is_large p)) [
      | inl l ↦ rw (i, l) (mod-lt _ (omega arith))
      | inr l ↦ rw (i, l) (mod-lt _ (omega arith))
    ]
  ]

  length_small : IsString mem p → (tagged_string_length mem p).n_bytes < 2 ^ 63
  unfolding tagged_string_length
  length_small s = elim (Bool-cases (is_immediate p)) [
    | inl i ↦ rw i (let short = (s.immediate i).short in omega (arith, short))
    | inr i ↦ elim (Bool-cases (is_large p)) [
      | inl l ↦ rw (i, l) (let (small, _) = s.large i l in omega (arith, small))
      | inr l ↦ rw (i, l) (omega arith)
    ]
  ]

both_immediate : (x y : Bool) → (x && y) ≡ true → (x ≡ true) × (y ≡ true)
both_immediate true y h = (refl, h)
both_immediate false y h = cc

-- the flags that say the kind are the same
kind_facts :
    (a b : TaggedPtr)
    → same_kind a b ≡ true
    → (is_immediate a && is_immediate b) ≡ false
    → (is_immediate a ≡ false) × (is_immediate b ≡ false) × (is_large a ≡ is_large b)
kind_facts a b k n = ground arith

module _ (memcmp : (f g : ℕ → ℕ) → (n : ℕ) → ℕ) (compares : ComparesBytes memcmp) (mem : Words)
    (a b : TaggedPtr) (left : IsString mem a) (right : IsString mem b) where
  generic_order :
      int_compare (string_cmp_generic memcmp mem a b) 0
      ≡ lexicographic (string_bytes mem a) (string_bytes mem b)
  unfolding string_cmp_generic
  generic_order =
      let n = (tagged_string_length mem a).n_bytes in
      let m = (tagged_string_length mem b).n_bytes in
      then_lengths (memcmp (string_byte mem a) (string_byte mem b) (if leb n m then n else m)) n m
        (length_small mem a left) (length_small mem b right)
      ∙ ap (λ c. or_else c (order n m))
          (compares (string_byte mem a) (string_byte mem b) _ (string_byte-lt mem a)
            (string_byte-lt mem b))
      ∙ sym (
          lexicographic-bytes_compare n m 0 (string_byte mem a) (string_byte mem b)
            (string_byte-lt mem a) (string_byte-lt mem b))

  heap_order :
      is_immediate a ≡ false
      → is_immediate b ≡ false
      → is_large a ≡ is_large b
      → int_compare
          (if is_large a
            then string_cmp_large (string_word mem a) (string_word mem b)
            else string_cmp_medium (string_word mem a) (string_word mem b))
          0
        ≡ lexicographic (string_bytes mem a) (string_bytes mem b)
  heap_order i j same = elim (Bool-cases (is_large a)) [
    | inl l ↦
        let k : is_large b ≡ true = sym same ∙ l in
        let (small₁, pad₁) = left.large i l in
        let (small₂, pad₂) = right.large j k in
        rw l (
          string_cmp_large-lexicographic (string_word mem a) (string_word mem b) small₁ small₂ pad₁
            pad₂)
        ∙ ap₂ lexicographic (sym (bytes_large mem a i l)) (sym (bytes_large mem b j k))
    | inr l ↦
        let k : is_large b ≡ false = sym same ∙ l in
        rw l (
          string_cmp_medium-lexicographic (string_word mem a) (string_word mem b) (left.medium i l)
            (right.medium j k))
        ∙ ap₂ lexicographic (sym (bytes_medium mem a i l)) (sym (bytes_medium mem b j k))
  ]

  -- For two strings as the runtime makes them, immediate, medium or large (and then shorter than 2
  -- ^ 62 bytes), with zeros or all ones after their bytes, `_bal_string_cmp` is below, at or above
  -- 0 as the lexicographic order on their bytes says, if `memcmp` compares bytes
  pub string_cmp-lexicographic :
      int_compare (string_cmp memcmp mem a b) 0
      ≡ lexicographic (string_bytes mem a) (string_bytes mem b)
  unfolding string_cmp int_compare
  string_cmp-lexicographic = elim (Bool-cases (a == b)) [
    | inl e ↦
        let same : a ≡ b = (==_iff a b).0 e in
        rw e (
          sym (
            ap (λ p. lexicographic (string_bytes mem p) (string_bytes mem b)) same
            ∙ lexicographic_refl (string_bytes mem b)))
    | inr d ↦ elim (Bool-cases (is_immediate a && is_immediate b)) [
      | inl both ↦
          let (i, j) = both_immediate (is_immediate a) (is_immediate b) both in
          rw (d, both)
            (string_cmp_immediate-lexicographic _ _ a b (left.immediate i) (right.immediate j)
              (==_false a b d))
          ∙ ap₂ lexicographic (sym (bytes_immediate mem a i)) (sym (bytes_immediate mem b j))
      | inr not_both ↦ elim (Bool-cases (same_kind a b)) [
        | inr k ↦ rw (d, not_both, k) generic_order
        | inl k ↦
            let (i, j, same) = kind_facts a b k not_both in
            rw (d, not_both, k) (heap_order i j same)
      ]
    ]
  ]
