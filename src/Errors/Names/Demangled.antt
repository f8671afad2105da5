-- ===== src/Errors/Names/Demangled.antt =====
-- What is printed for a mangled name.
use nballerina.Prelude.{
  ℕ, ◌+◌, ◌^◌, ◌<◌, ◌≤◌, ◌≡◌, ◌≢◌, inl, inr, refl, ap, ◌∙◌, arith, Bool, true, false, ◌==◌,
  if◌then◌else◌, length, Option, List, [], ◌∷◌, ◌++◌, ne→==,
}
use nballerina.Prelude.Int.{ℤ}
use nballerina.Errors.{Text}
use nballerina.Errors.Names.{
  head, ballerina, delimit_name, mangle_org, mangle_module_names, mangle_public_symbol,
  mangle_private_symbol, demangle_module_name, demangle_org, demangle, print_mangled_name,
  public_ballerina_name,
}
use nballerina.Errors.Names.Counted.{
  Formats, IsName, AreNames, printed_org, printed_modules, after_ballerina, prefix_cases,
  delimit_name-empty, delimit_name-head, delimit_name-digit, mangle_module_names-nonempty,
  mangle_module_names-length, demangle_modules-mangle_module_names,
  demangle_counted_name-delimit_name,
}
use nballerina.Run.{done}

module _ (decimal : ℕ → Text) (scan : Text → Option (ℤ × ℕ)) (formats : Formats decimal scan) where
  module _ (names : List Text) (last identifier : Text) (are : AreNames names)
      (is_name : IsName last) (local : 1 ≤ length identifier) where
    demangle_module_name-mangle_module_names :
        (written : Text)
        → demangle_module_name scan written (mangle_module_names decimal names last ++ identifier)
          ≡ done (public_ballerina_name, identifier, written ++ printed_modules names ++ last)
    unfolding demangle_module_name
    demangle_module_name-mangle_module_names written =
        let bound = mangle_module_names-length decimal scan formats names last identifier in
        let modules =
          demangle_modules-mangle_module_names decimal scan formats
            (length (mangle_module_names decimal names last ++ identifier) + 1) names last
            identifier (omega (arith, bound)) are is_name.some_byte in
        rw
          (
            demangle_module_name,
            modules,
            demangle_counted_name-delimit_name decimal scan formats last identifier is_name local,
          )
          refl

    demangle_org-empty :
        (b : Bool)
        → demangle_org scan b
            (delimit_name decimal [] ++ (mangle_module_names decimal names last ++ identifier))
          ≡ demangle_module_name scan
              (if b then (if b then ballerina else []) ++ 47 ∷ [] else [])
              (mangle_module_names decimal names last ++ identifier)
    unfolding demangle_org
    demangle_org-empty b =
        rw
          (delimit_name-empty decimal scan formats
            (mangle_module_names decimal names last ++ identifier))
          refl

    demangle_org-named :
        (b : Bool) (org : Text)
        → IsName org
        → demangle_org scan b
            (delimit_name decimal org ++ (mangle_module_names decimal names last ++ identifier))
          ≡ demangle_module_name scan
              ((if b then ballerina else []) ++ org ++ 47 ∷ [])
              (mangle_module_names decimal names last ++ identifier)
    unfolding demangle_org
    demangle_org-named b org org_name =
        let follows = mangle_module_names decimal names last ++ identifier in
        let (low, high) = delimit_name-head decimal scan formats org follows org_name.some_byte in
        let plain : (head (delimit_name decimal org ++ follows) == 48) ≡ false =
          ne→== _ 48 (λ e. absurd (omega (arith, e, low))) in
        let read = demangle_counted_name-delimit_name decimal scan formats org follows org_name (
          mangle_module_names-nonempty decimal scan formats names last identifier
            is_name.some_byte) in
        rw (plain, read) refl

    demangle_org-mangled :
        (b : Bool) (org : Text)
        → length org < 2 ^ 63
        → head org ≢ 95
        → demangle_org scan b
            (delimit_name decimal org ++ (mangle_module_names decimal names last ++ identifier))
          ≡ done (
            public_ballerina_name,
            identifier,
            printed_org (if b then ballerina ++ org else org) ++ printed_modules names ++ last,
          )
    demangle_org-mangled true [] h d =
        demangle_org-empty true ∙ demangle_module_name-mangle_module_names (ballerina ++ 47 ∷ [])
    demangle_org-mangled false [] h d =
        demangle_org-empty false ∙ demangle_module_name-mangle_module_names []
    demangle_org-mangled true (c ∷ org) h d =
        demangle_org-named true (c ∷ org)
          (record { some_byte = omega arith; short = h; no_underscore = d })
        ∙ demangle_module_name-mangle_module_names (ballerina ++ (c ∷ org) ++ 47 ∷ [])
    demangle_org-mangled false (c ∷ org) h d =
        demangle_org-named false (c ∷ org)
          (record { some_byte = omega arith; short = h; no_underscore = d })
        ∙ demangle_module_name-mangle_module_names ((c ∷ org) ++ 47 ∷ [])

    -- the demangling of the mangled name gives the parts
    demangle-mangle_public_symbol :
        (org : Text)
        → length org < 2 ^ 63
        → head (after_ballerina org) ≢ 95
        → demangle scan (mangle_public_symbol decimal org names last identifier)
          ≡ done
              (public_ballerina_name, identifier, printed_org org ++ printed_modules names ++ last)
    unfolding demangle mangle_public_symbol mangle_org
    demangle-mangle_public_symbol org h d = elim (prefix_cases ballerina org) [
      | inl none_left ↦
          let follows = mangle_module_names decimal names last ++ identifier in
          let start = delimit_name-digit decimal scan formats org follows in
          let plain : head org ≢ 95 = rw none_left at d in
          rw
            (
              none_left,
              ne→== (head (delimit_name decimal org ++ follows)) 95
                  (λ e. absurd (omega (arith, e, start))),
              ne→== (head (delimit_name decimal org ++ follows)) 98
                  (λ e. absurd (omega (arith, e, start))),
            )
            (demangle_org-mangled false org h plain)
      | inr (rest, some_left, whole) ↦
          let plain : head rest ≢ 95 = rw some_left at d in
          let sum = ap length whole in
          rw (some_left, whole) (demangle_org-mangled true rest (omega (arith, sum)) plain)
    ]

  print_mangled_name-mangle_private_symbol :
      (identifier : Text)
      → print_mangled_name scan (mangle_private_symbol identifier) ≡ done identifier
  unfolding print_mangled_name demangle
  print_mangled_name-mangle_private_symbol identifier = refl

  -- Where sscanf reads the numbers that toString writes, for an organization, module names and a
  -- function name, of which the organization (after "ballerina") and the module names do not start
  -- with "_", the module names and the function name are not empty, and all are shorter than 2 ^
  -- 63 bytes, the runtime prints the name that the compiler mangles for a public function as the
  -- function name with the organization and the module in parentheses, without reading past the
  -- end, and the one for a private function as the function name
  pub print_mangled_name-mangle_public_symbol :
      (org : Text) (names : List Text) (last identifier : Text)
      → length org < 2 ^ 63
      → head (after_ballerina org) ≢ 95
      → AreNames names
      → IsName last
      → 1 ≤ length identifier
      → (print_mangled_name scan (mangle_public_symbol decimal org names last identifier)
          ≡ done (
              identifier
              ++ 32 ∷ 40 ∷ (printed_org org ++ printed_modules names ++ last)
              ++ 41 ∷ []))
        × (print_mangled_name scan (mangle_private_symbol identifier) ≡ done identifier)
  unfolding print_mangled_name
  print_mangled_name-mangle_public_symbol org names last identifier h d are is_name local = (
    rw
        (
          print_mangled_name,
          demangle-mangle_public_symbol names last identifier are is_name local org h d,
        )
        refl,
    print_mangled_name-mangle_private_symbol identifier,
  )
