-- ===== src/Errors/Names/Counted.antt =====
-- The delimited names of a mangled name, read one by one.
use mathlib.Core.List.{append_assoc}
use nballerina.Prelude.{
  ℕ, zero, suc, ◌+◌, ◌^◌, ◌<◌, ◌≤◌, ◌≡◌, ◌≢◌, ◌⊎◌, ap₂, ==_iff, inl, inr, refl, sym, ap, ◌∙◌, arith,
  false, ◌==◌, if◌then◌else◌, Bool-cases, length, Option, none, some, List, [], ◌∷◌, ◌++◌, ne→==,
  length-append,
}
use nballerina.Prelude.Int.{ℤ, pos}
use nballerina.Errors.{Text}
use nballerina.Errors.Names.{
  head, tail, drop, is_digit, ballerina, strip_prefix, delimit_name, mangle_module_names,
  count_chars, demangle_counted_name, demangle_modules,
}
use nballerina.Run.{done}

-- what `toString` writes, `sscanf` reads
pub record Formats (decimal : ℕ → Text) (scan : Text → Option (ℤ × ℕ)) : Type 0 where
  pub zero_text : decimal 0 ≡ 48 ∷ []
  pub first : (n : ℕ) → 1 ≤ n → (49 ≤ head (decimal n)) × (head (decimal n) ≤ 57)
  pub scanned :
      (n : ℕ) (rest : Text)
      → n < 2 ^ 63
      → is_digit (head rest) ≡ false
      → scan (decimal n ++ rest) ≡ some (pos n, length (decimal n))

-- a name that is not empty and does not start with '_'
pub record IsName (name : Text) : Type 0 where
  pub some_byte : 1 ≤ length name
  pub short : length name < 2 ^ 63
  pub no_underscore : head name ≢ 95

abbrev pub AreNames : List Text → Type 0
AreNames [] = Unit
AreNames (name ∷ names) = IsName name × AreNames names

-- the organization as it is printed, with "/"
abbrev pub printed_org : Text → Text
printed_org [] = []
printed_org (c ∷ org) = (c ∷ org) ++ 47 ∷ []

-- the names, each with "."
abbrev pub printed_modules : List Text → Text
printed_modules [] = []
printed_modules (name ∷ names) = name ++ 46 ∷ printed_modules names

-- what follows "ballerina", or all of it
abbrev pub after_ballerina : Text → Text
after_ballerina org = elim (strip_prefix ballerina org) [ none ↦ org | some rest ↦ rest ]

pub prefix_cases :
    (prefix p : Text)
    → (strip_prefix prefix p ≡ none)
      ⊎ ((rest : Text) × (strip_prefix prefix p ≡ some rest) × (p ≡ prefix ++ rest))
prefix_cases [] p = inr (p, refl, refl)
prefix_cases (c ∷ prefix) [] = inl refl
prefix_cases (c ∷ prefix) (d ∷ p) = elim (Bool-cases (c == d)) [
  | inr e ↦ inl (rw e refl)
  | inl e ↦ elim (prefix_cases prefix p) [
    | inl n ↦ inl (rw (e, n) refl)
    | inr (rest, q, w) ↦ inr (rest, rw (e, q) refl, ap₂ (λ u v. u ∷ v) (sym ((==_iff c d).0 e)) w)
  ]
]

drop-length : (p q : Text) → drop (length p) (p ++ q) ≡ q
drop-length [] q = refl
drop-length (c ∷ p) q = drop-length p q

head-append : (p q : Text) → 1 ≤ length p → head (p ++ q) ≡ head p
head-append [] q h = absurd (omega arith)
head-append (c ∷ p) q h = refl

head_nonempty : (p : Text) → 49 ≤ head p → 1 ≤ length p
head_nonempty [] h = absurd (omega arith)
head_nonempty (c ∷ p) h = omega arith

count_chars-append :
    (p q : Text) → 1 ≤ length q → count_chars (length p) (p ++ q) ≡ done (some (p, q))
unfolding count_chars
count_chars-append [] q h = refl
count_chars-append (c ∷ []) [] h = absurd (omega arith)
count_chars-append (c ∷ []) (d ∷ q) h = refl
count_chars-append (c ∷ d ∷ p) q h = rw (count_chars-append (d ∷ p) q h) refl

module _ (decimal : ℕ → Text) (scan : Text → Option (ℤ × ℕ)) (formats : Formats decimal scan) where
  counted :
      (p q : Text) (n k : ℕ)
      → scan p ≡ some (pos n, k)
      → drop k p ≡ q
      → demangle_counted_name scan p ≡ count_chars n (if head q == 95 then tail q else q)
  unfolding demangle_counted_name
  counted p q n k found dropped = rw (demangle_counted_name, found, dropped) refl

  -- the digits are read, and dropped
  counted_digits :
      (n : ℕ) (q : Text)
      → n < 2 ^ 63
      → is_digit (head q) ≡ false
      → demangle_counted_name scan (decimal n ++ q)
        ≡ count_chars n (if head q == 95 then tail q else q)
  counted_digits n q h d =
      counted (decimal n ++ q) q n (length (decimal n)) (formats.scanned n q h d)
        (drop-length (decimal n) q)

  pub demangle_counted_name-delimit_name :
      (name rest : Text)
      → IsName name
      → 1 ≤ length rest
      → demangle_counted_name scan (delimit_name decimal name ++ rest) ≡ done (some (name, rest))
  unfolding delimit_name
  demangle_counted_name-delimit_name name rest h k = elim (Bool-cases (is_digit (head name))) [
    | inl digit ↦ rw digit (
        ap (demangle_counted_name scan) (append_assoc (decimal (length name)) (95 ∷ name) rest)
        ∙ counted_digits (length name) (95 ∷ name ++ rest) h.short refl
        ∙ count_chars-append name rest k)
    | inr other ↦
        let same = head-append name rest h.some_byte in
        let plain : (head (name ++ rest) == 95) ≡ false =
          ap (λ c. c == 95) same ∙ ne→== (head name) 95 h.no_underscore in
        let chosen : (if head (name ++ rest) == 95 then tail (name ++ rest) else name ++ rest)
            ≡ name ++ rest =
          rw plain refl in
        rw other (
          ap (demangle_counted_name scan) (append_assoc (decimal (length name)) name rest)
          ∙ counted_digits (length name) (name ++ rest) h.short (ap is_digit same ∙ other)
          ∙ ap (count_chars (length name)) chosen
          ∙ count_chars-append name rest k)
  ]

  pub delimit_name-head :
      (name rest : Text)
      → 1 ≤ length name
      → (49 ≤ head (delimit_name decimal name ++ rest))
        × (head (delimit_name decimal name ++ rest) ≤ 57)
  unfolding delimit_name
  delimit_name-head name rest h =
      let (low, high) = formats.first (length name) h in
      let digits = decimal (length name) in
      let nonempty : 1 ≤ length digits = head_nonempty digits low in
      let body = if is_digit (head name) then 95 ∷ name else name in
      let same : head ((digits ++ body) ++ rest) ≡ head digits =
        ap head (append_assoc digits body rest) ∙ head-append digits (body ++ rest) nonempty in
      (rw same low, rw same high)

  pub delimit_name-empty : (rest : Text) → delimit_name decimal [] ++ rest ≡ 48 ∷ rest
  unfolding delimit_name
  delimit_name-empty rest = rw formats.zero_text refl

  pub delimit_name-digit :
      (name rest : Text)
      → (48 ≤ head (delimit_name decimal name ++ rest))
        × (head (delimit_name decimal name ++ rest) ≤ 57)
  delimit_name-digit [] rest =
      let e : head (delimit_name decimal [] ++ rest) ≡ 48 = ap head (delimit_name-empty rest) in
      (omega (arith, e), omega (arith, e))
  delimit_name-digit (c ∷ name) rest =
      let (low, high) = delimit_name-head (c ∷ name) rest (omega arith) in
      (omega (arith, low), high)

  pub mangle_module_names-nonempty :
      (names : List Text) (last rest : Text)
      → 1 ≤ length last
      → 1 ≤ length (mangle_module_names decimal names last ++ rest)
  unfolding mangle_module_names
  mangle_module_names-nonempty [] last rest n =
      head_nonempty (delimit_name decimal last ++ rest) (delimit_name-head last rest n).0
  mangle_module_names-nonempty (name ∷ names) last rest n = omega arith

  -- a name takes at least one byte
  pub mangle_module_names-length :
      (names : List Text) (last rest : Text)
      → length names ≤ length (mangle_module_names decimal names last ++ rest)
  unfolding mangle_module_names
  mangle_module_names-length [] last rest = omega arith
  mangle_module_names-length (name ∷ names) last rest =
      let more = mangle_module_names-length names last rest in
      let d = delimit_name decimal name in
      let m = mangle_module_names decimal names last in
      let sum : length ((d ++ m) ++ rest) ≡ length d + length (m ++ rest) =
        ap length (append_assoc d m rest) ∙ length-append d (m ++ rest) in
      omega (arith, more, sum)

  pub demangle_modules-mangle_module_names :
      (fuel : ℕ) (names : List Text) (last rest : Text)
      → length names < fuel
      → AreNames names
      → 1 ≤ length last
      → demangle_modules scan fuel (mangle_module_names decimal names last ++ rest)
        ≡ done (some (printed_modules names, delimit_name decimal last ++ rest))
  unfolding demangle_modules mangle_module_names
  demangle_modules-mangle_module_names zero names last rest h are n = absurd (omega arith)
  demangle_modules-mangle_module_names (suc fuel) [] last rest h are n =
      let (low, high) = delimit_name-head last rest n in
      let plain : (head (delimit_name decimal last ++ rest) == 109) ≡ false =
        ne→== _ 109 (λ e. absurd (omega (arith, e, high))) in
      rw plain refl
  demangle_modules-mangle_module_names (suc fuel) (name ∷ names) last rest h are n =
      let more = demangle_modules-mangle_module_names fuel names last rest (omega arith) are.1 n in
      let follows = mangle_module_names decimal names last ++ rest in
      let read =
        demangle_counted_name-delimit_name name follows are.0
          (mangle_module_names-nonempty names last rest n) in
      let split : (delimit_name decimal name ++ mangle_module_names decimal names last) ++ rest
          ≡ delimit_name decimal name ++ follows =
        append_assoc (delimit_name decimal name) (mangle_module_names decimal names last) rest in
      rw (split, read, more) refl
