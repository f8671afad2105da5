-- ===== src/Examples/Names.antt =====
-- The mangled name of "f" in the module "b/p.q", where a number is written as that many ones.
use nballerina.Prelude.{
  ℕ, zero, suc, ◌≤◌, ◌≡◌, refl, sym, ap, ◌∙◌, arith, false, ◌==◌, if◌then◌else◌, length, Option,
  some, [], ◌∷◌, ◌++◌,
}
use nballerina.Prelude.Int.{ℤ, pos}
use nballerina.Errors.{Text}
use nballerina.Errors.Names.{
  head, is_digit, mangle_public_symbol, mangle_private_symbol, print_mangled_name,
}
use nballerina.Errors.Names.Counted.{Formats, IsName, printed_org, printed_modules}
use nballerina.Errors.Names.Demangled.{print_mangled_name-mangle_public_symbol}
use nballerina.Run.{done}

abbrev ones : ℕ → Text
ones zero = []
ones (suc n) = 49 ∷ ones n

abbrev write_ones : ℕ → Text
write_ones zero = 48 ∷ []
write_ones (suc n) = 49 ∷ ones n

abbrev count_ones : Text → ℕ
count_ones [] = 0
count_ones (c ∷ p) = let rest = count_ones p in if c == 49 then suc rest else 0

abbrev scan_ones : Text → Option (ℤ × ℕ)
scan_ones p = if head p == 48 then some (pos 0, 1) else some (pos (count_ones p), count_ones p)

count_ones-ones :
    (n : ℕ) (rest : Text) → is_digit (head rest) ≡ false → count_ones (ones n ++ rest) ≡ n
count_ones-ones zero [] d = refl
count_ones-ones zero (c ∷ rest) d = let other : (c == 49) ≡ false = ground arith in rw other refl
count_ones-ones (suc n) rest d = ap suc (count_ones-ones n rest d)

length-ones : (n : ℕ) → length (ones n) ≡ n
length-ones zero = refl
length-ones (suc n) = ap suc (length-ones n)

scan_ones-write_ones :
    (n : ℕ) (rest : Text)
    → is_digit (head rest) ≡ false
    → scan_ones (write_ones n ++ rest) ≡ some (pos n, length (write_ones n))
scan_ones-write_ones zero rest d = refl
scan_ones-write_ones (suc n) rest d =
    ap (λ k. some (pos (suc k), suc k)) (count_ones-ones n rest d)
    ∙ ap (λ k. some (pos (suc n), suc k)) (sym (length-ones n))

write_ones-first : (n : ℕ) → 1 ≤ n → (49 ≤ head (write_ones n)) × (head (write_ones n) ≤ 57)
write_ones-first zero h = absurd (omega arith)
write_ones-first (suc n) h = (omega arith, omega arith)

ones-Formats : Formats write_ones scan_ones
ones-Formats = record {
  zero_text = refl;
  first = write_ones-first;
  scanned = λ n rest h d. scan_ones-write_ones n rest d;
}

abbrev org_name : Text
org_name = 98 ∷ []

abbrev outer_name : Text
outer_name = 112 ∷ []

abbrev inner_name : Text
inner_name = 113 ∷ []

abbrev function_name : Text
function_name = 102 ∷ []

outer-IsName : IsName outer_name
outer-IsName = record {
  some_byte = omega arith;
  short = ground arith;
  no_underscore = λ e. absurd (omega (arith, e));
}

inner-IsName : IsName inner_name
inner-IsName = record {
  some_byte = omega arith;
  short = ground arith;
  no_underscore = λ e. absurd (omega (arith, e));
}

print_mangled_name-mangle_public_symbol_example :
    (print_mangled_name scan_ones
        (mangle_public_symbol write_ones org_name (outer_name ∷ []) inner_name function_name)
      ≡ done (
          function_name
          ++ 32 ∷ 40 ∷ (printed_org org_name ++ printed_modules (outer_name ∷ []) ++ inner_name)
          ++ 41 ∷ []))
    × (print_mangled_name scan_ones (mangle_private_symbol function_name) ≡ done function_name)
print_mangled_name-mangle_public_symbol_example =
    print_mangled_name-mangle_public_symbol write_ones scan_ones ones-Formats org_name
      (outer_name ∷ []) inner_name function_name (ground arith) (λ e. absurd (omega (arith, e)))
      (outer-IsName, tt) inner-IsName (omega arith)
