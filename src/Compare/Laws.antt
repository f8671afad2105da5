-- ===== src/Compare/Laws.antt =====
-- Comparing two values in the other order gives the opposite result.
use nballerina.Prelude.{
  ℕ, zero, suc, ◌+◌, ◌*◌, ◌^◌, ◌<◌, ◌≡◌, refl, ap, ◌∙◌, arith, Bool, true, false, leb, ◌==◌, ◌||◌,
  if◌then◌else◌, Bool-cases, inl, inr, ==_iff, ==_refl,
}
use nballerina.Compare.{
  CompareResult, compare_un, compare_lt, compare_eq, compare_gt, int_compare, Doubles,
  float_compare, tagged_boolean_compare, tagged_int_compare, tagged_float_compare, Read,
  unless_equal, members_compare, opt_list_do_compare, tagged_ptr_compare,
}
use nballerina.Run.{Run, done, panicked, fault, diverged, ◌>>=◌}
use nballerina.Tagged.{
  TaggedPtr, nil, uniform_type, tag_boolean, tag_int, tag_float, tag_decimal, tag_string, tag_list,
  tagged_to_boolean, tagged_to_ptr,
}
use nballerina.Tagged.Ints.{tagged_to_int}
use nballerina.Word.{word}

unfoldable pub flip : CompareResult → CompareResult
flip compare_un = compare_un
flip compare_lt = compare_gt
flip compare_eq = compare_eq
flip compare_gt = compare_lt

abbrev pub flip_run : Run CompareResult → Run CompareResult
flip_run r = r >>= λ result. done (flip result)

pub int_compare-flip : (a b : ℕ) → a < word → b < word → int_compare b a ≡ flip (int_compare a b)
unfolding int_compare flip
int_compare-flip a b h k = ground arith

-- two pointers to booleans are the same if the booleans are
abbrev pub IsBoolean : TaggedPtr → Type 0
IsBoolean tp = uniform_type tp ≡ tag_boolean → tp ≡ tag_boolean * 2 ^ 56 + tagged_to_boolean tp

tagged_boolean_compare-flip :
    (a b : TaggedPtr)
    → uniform_type a ≡ tag_boolean
    → uniform_type b ≡ tag_boolean
    → IsBoolean a
    → IsBoolean b
    → tagged_boolean_compare b a ≡ flip (tagged_boolean_compare a b)
unfolding tagged_boolean_compare flip
tagged_boolean_compare-flip a b s t p q = ground (arith, p s, q t)

float_compare-flip :
    (doubles : Doubles) (a b : ℕ)
    → doubles.equal b a ≡ doubles.equal a b
    → (doubles.less a b ≡ true → doubles.less b a ≡ false)
    → float_compare doubles b a ≡ flip (float_compare doubles a b)
unfolding float_compare flip
float_compare-flip doubles a b symm asym = elim (Bool-cases (doubles.equal a b)) [
  | inl e ↦ rw (symm, e)
  | inr e ↦ elim (Bool-cases (doubles.less a b)) [
    | inl l ↦ rw (symm, e, l, asym l)
    | inr l ↦ rw (symm, e, l) (opposite (doubles.less b a))
  ]
]
  where
    opposite :
        (x : Bool)
        → (if x then compare_lt else if false then compare_gt else compare_un)
          ≡ flip (if false then compare_lt else if x then compare_gt else compare_un)
    opposite true = refl
    opposite false = refl

unless_equal-flip :
    (r rest : Run CompareResult)
    → (flip_run r >>= λ result. unless_equal result (flip_run rest))
      ≡ flip_run (r >>= λ result. unless_equal result rest)
unfolding unless_equal flip
unless_equal-flip (done compare_un) rest = refl
unless_equal-flip (done compare_lt) rest = refl
unless_equal-flip (done compare_eq) rest = refl
unless_equal-flip (done compare_gt) rest = refl
unless_equal-flip (panicked c) rest = refl
unless_equal-flip fault rest = refl
unless_equal-flip diverged rest = refl

if-flip :
    (c : Bool) (x x' y y' : Run CompareResult)
    → (c ≡ true → x' ≡ flip_run x)
    → y' ≡ flip_run y
    → (if c then x' else y') ≡ flip_run (if c then x else y)
if-flip true x x' y y' h k = h refl
if-flip false x x' y y' h k = k

-- the choice of a comparison by the tag
abbrev by_tag : (t : ℕ) → (i b f d s l : Run CompareResult) → Run CompareResult
by_tag t i b f d s l =
    if t == tag_int
    then i
    else if t == tag_boolean
    then b
    else if t == tag_float
    then f
    else if t == tag_decimal
    then d
    else if t == tag_string
    then s
    else if t == tag_list
    then l
    else done compare_eq

tags-flip :
    (t u : ℕ) (i i' b b' f f' d d' s s' l l' : Run CompareResult)
    → i' ≡ flip_run i
    → (t ≡ tag_boolean → u ≡ tag_boolean → b' ≡ flip_run b)
    → f' ≡ flip_run f
    → d' ≡ flip_run d
    → s' ≡ flip_run s
    → l' ≡ flip_run l
    → (if u == t then by_tag u i' b' f' d' s' l' else done compare_un)
      ≡ flip_run (if t == u then by_tag t i b f d s l else done compare_un)
unfolding flip
tags-flip t u i i' b b' f f' d d' s s' l l' hi hb hf hd hs hl = elim (Bool-cases (t == u)) [
  | inr e ↦ let e' : (u == t) ≡ false = ground arith in rw (e, e')
  | inl e ↦
      let same : u ≡ t = ground arith in
      rw (same, ==_refl)
        (if-flip (t == tag_int) _ _ _ _ (λ _. hi)
          (if-flip (t == tag_boolean) _ _ _ _ (λ k. hb ((==_iff t _).0 k) (same ∙ (==_iff t _).0 k))
            (if-flip (t == tag_float) _ _ _ _ (λ _. hf)
              (if-flip (t == tag_decimal) _ _ _ _ (λ _. hd)
                (if-flip (t == tag_string) _ _ _ _ (λ _. hs)
                  (if-flip (t == tag_list) _ _ _ _ (λ _. hl) refl))))))
]

-- What is read is of its type, and the comparisons that are parameters are opposite when swapped.
pub record IsSymmetric (read : Read) : Type 0 where
  pub ints : (i : ℕ) → read.boxes.at i < word
  pub equal_symm : (a b : ℕ) → read.doubles.equal b a ≡ read.doubles.equal a b
  pub less_asym : (a b : ℕ) → read.doubles.less a b ≡ true → read.doubles.less b a ≡ false
  pub strings :
      (a b : TaggedPtr)
      → int_compare (read.string_cmp b a) 0 ≡ flip (int_compare (read.string_cmp a b) 0)
  pub decimals :
      (a b : TaggedPtr)
      → int_compare (read.decimal_cmp b a) 0 ≡ flip (int_compare (read.decimal_cmp a b) 0)
  pub lengths : (l : TaggedPtr) → read.list_length l < word
  pub members : (l : TaggedPtr) (i : ℕ) → IsBoolean (read.get l i)

module _ (read : Read) (symmetric : IsSymmetric read) where
  tagged_to_int-word : (p : TaggedPtr) → tagged_to_int p read.boxes < word
  unfolding tagged_to_int
  tagged_to_int-word p = ground (arith, symmetric.ints (tagged_to_ptr p))

  tagged_int_compare-flip :
      (a b : TaggedPtr) → tagged_int_compare read b a ≡ flip (tagged_int_compare read a b)
  unfolding tagged_int_compare
  tagged_int_compare-flip a b = int_compare-flip _ _ (tagged_to_int-word a) (tagged_to_int-word b)

  tagged_float_compare-flip :
      (a b : TaggedPtr) → tagged_float_compare read b a ≡ flip (tagged_float_compare read a b)
  unfolding tagged_float_compare
  tagged_float_compare-flip a b =
      float_compare-flip read.doubles _ _ (symmetric.equal_symm _ _) (symmetric.less_asym _ _)

  module _ (compare : TaggedPtr → TaggedPtr → Run CompareResult)
      (flips : (a b : TaggedPtr)
        → IsBoolean a
        → IsBoolean b
        → compare b a ≡ flip_run (compare a b)) where
    members_compare-flip :
        (a b : TaggedPtr) (rounds i : ℕ)
        → members_compare read compare b a rounds i
          ≡ flip_run (members_compare read compare a b rounds i)
    unfolding members_compare
    members_compare-flip a b zero i =
        ap done (int_compare-flip _ _ (symmetric.lengths a) (symmetric.lengths b))
    members_compare-flip a b (suc rounds) i =
        rw
          (
            flips (read.get a i) (read.get b i) (symmetric.members a i) (symmetric.members b i),
            members_compare-flip a b rounds (suc i),
          )
          (unless_equal-flip (compare (read.get a i) (read.get b i))
            (members_compare read compare a b rounds (suc i)))

    opt_list_do_compare-flip :
        (a b : TaggedPtr)
        → opt_list_do_compare read b a compare ≡ flip_run (opt_list_do_compare read a b compare)
    unfolding opt_list_do_compare flip
    opt_list_do_compare-flip a b =
        let same_length = min_symm (read.list_length a) (read.list_length b) in
        rw (==_swap a b, or_swap (a == nil) (b == nil), same_length, members_compare-flip a b)
          (branches (a == b) ((a == nil) || (b == nil)) _)
      where
        min_symm : (m n : ℕ) → (if leb n m then n else m) ≡ (if leb m n then m else n)
        min_symm m n = ground arith

        ==_swap : (m n : ℕ) → (n == m) ≡ (m == n)
        ==_swap m n = ground arith

        or_swap : (x y : Bool) → (y || x) ≡ (x || y)
        or_swap true true = refl
        or_swap true false = refl
        or_swap false true = refl
        or_swap false false = refl

        branches :
            (x y : Bool) (r : Run CompareResult)
            → (if x then done compare_eq else if y then done compare_un else flip_run r)
              ≡ flip_run (if x then done compare_eq else if y then done compare_un else r)
        branches true y r = refl
        branches false true r = refl
        branches false false r = refl

  -- Where what is read from the memory is of its type and the comparisons of doubles, strings and
  -- decimals are opposite when swapped, `taggedPtrCompare` of two values in the other order gives
  -- the opposite result, through lists of any depth that the fuel bounds (and spends its fuel in
  -- both orders or in none)
  pub tagged_ptr_compare-flip :
      (fuel : ℕ) (a b : TaggedPtr)
      → IsBoolean a
      → IsBoolean b
      → tagged_ptr_compare read fuel b a ≡ flip_run (tagged_ptr_compare read fuel a b)
  unfolding tagged_ptr_compare flip
  tagged_ptr_compare-flip zero a b p q = refl
  tagged_ptr_compare-flip (suc fuel) a b p q =
      tags-flip (uniform_type a) (uniform_type b) _ _ _ _ _ _ _ _ _ _ _ _
        (ap done (tagged_int_compare-flip a b))
        (λ s t. ap done (tagged_boolean_compare-flip a b s t p q))
        (ap done (tagged_float_compare-flip a b)) (ap done (symmetric.decimals a b))
        (ap done (symmetric.strings a b))
        (opt_list_do_compare-flip (tagged_ptr_compare read fuel) (tagged_ptr_compare-flip fuel) a b)
