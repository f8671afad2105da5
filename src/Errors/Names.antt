-- ===== src/Errors/Names.antt =====
-- The mangling of names (compiler/modules/nback/symbol.bal) and their demangling (runtime/error.c).
-- A name is the list of its bytes, without the NUL at its end; all are ASCII, so that a length in code
-- points is one in bytes.
pub mod Counted
pub mod Demangled
use nballerina.Prelude.{
  ℕ, zero, suc, ◌+◌, ◌&&◌, ◌||◌, Bool, true, false, leb, ◌==◌, if◌then◌else◌, length, Option, none,
  some, List, [], ◌∷◌, ◌++◌,
}
use nballerina.Prelude.Int.{ℤ, pos, negsuc}
use nballerina.Errors.{Text}
use nballerina.Run.{Run, done, fault, diverged, ◌>>=◌}

-- the first byte, 0 at the end
abbrev pub head : Text → ℕ
head [] = 0
head (c ∷ p) = c

abbrev pub tail : Text → Text
tail [] = []
tail (c ∷ p) = p

abbrev pub drop : ℕ → Text → Text
drop zero p = p
drop (suc n) [] = []
drop (suc n) (c ∷ p) = drop n p

abbrev pub is_digit : ℕ → Bool
is_digit c = leb 48 c && leb c 57

-- "ballerina"
abbrev pub ballerina : Text
ballerina = 98 ∷ 97 ∷ 108 ∷ 108 ∷ 101 ∷ 114 ∷ 105 ∷ 110 ∷ 97 ∷ []

-- what follows a prefix
abbrev pub strip_prefix : (prefix : Text) → Text → Option Text
strip_prefix [] p = some p
strip_prefix (c ∷ prefix) [] = none
strip_prefix (c ∷ prefix) (d ∷ p) =
    let rest = strip_prefix prefix p in if c == d then rest else none

-- `decimal` is `toString` of an int
module _ (decimal : ℕ → Text) where
  unfoldable pub delimit_name : Text → Text
  delimit_name name = decimal (length name) ++ (if is_digit (head name) then 95 ∷ name else name)

  unfoldable pub mangle_org : Text → Text
  unfolding delimit_name
  mangle_org org = elim (strip_prefix ballerina org) [
    | none ↦ delimit_name org
    | some rest ↦ 98 ∷ delimit_name rest
  ]

  -- the names of a module are some names and a last one
  unfoldable pub mangle_module_names : (names : List Text) → (last : Text) → Text
  unfolding delimit_name
  mangle_module_names [] last = delimit_name last
  mangle_module_names (name ∷ names) last =
      109 ∷ delimit_name name ++ mangle_module_names names last

  unfoldable pub mangle_public_symbol :
      (org : Text) (names : List Text) (last identifier : Text) → Text
  unfolding mangle_org mangle_module_names
  mangle_public_symbol org names last identifier =
      95 ∷ 66 ∷ mangle_org org ++ (mangle_module_names names last ++ identifier)

abbrev pub mangle_private_symbol : (identifier : Text) → Text
mangle_private_symbol identifier = 95 ∷ 66 ∷ 95 ∷ identifier

pub data DemangleResult : Type 0 where
  public_ballerina_name : DemangleResult
  non_public_ballerina_name : DemangleResult
  non_ballerina_name : DemangleResult
  bad_ballerina_name : DemangleResult

-- the first `n` bytes and what follows; `p` steps to the next byte before the test
unfoldable pub count_chars : (n : ℕ) → Text → Run (Option (Text × Text))
count_chars zero p = done (some ([], p))
count_chars (suc n) [] = fault
count_chars (suc n) (c ∷ []) = done none
count_chars (suc n) (c ∷ d ∷ p) =
    count_chars n (d ∷ p) >>= λ r. elim r [ none ↦ done none | some s ↦ done (some (c ∷ s.0, s.1)) ]

-- the rounds of `while (nChars > 0)`
abbrev pub rounds : ℤ → ℕ
rounds (pos n) = n
rounds (negsuc n) = 0

-- `scan` is `sscanf` with "%ld%n"
module _ (scan : Text → Option (ℤ × ℕ)) where
  unfoldable pub demangle_counted_name : Text → Run (Option (Text × Text))
  unfolding count_chars
  demangle_counted_name p = elim (scan p) [
    | none ↦ done none
    | some read ↦
        let name = drop read.1 p in
        count_chars (rounds read.0) (if head name == 95 then tail name else name)
  ]

  -- what is written, and what follows
  unfoldable pub demangle_modules : (fuel : ℕ) → Text → Run (Option (Text × Text))
  unfolding demangle_counted_name
  demangle_modules zero p = diverged
  demangle_modules (suc fuel) p =
      if head p == 109
      then (demangle_counted_name (tail p) >>= λ r. elim r [
        | none ↦ done none
        | some module_name ↦ demangle_modules fuel module_name.1 >>= λ s. elim s [
          | none ↦ done none
          | some more ↦ done (some (module_name.0 ++ 46 ∷ more.0, more.1))
        ]
      ])
      else done (some ([], p))

  -- after the organization: the result, the local name, and what is written
  unfoldable pub demangle_module_name : (written p : Text) → Run (DemangleResult × Text × Text)
  unfolding demangle_modules demangle_counted_name
  demangle_module_name written p = demangle_modules (length p + 1) p >>= λ r. elim r [
    | none ↦ done (non_ballerina_name, [], [])
    | some modules ↦ demangle_counted_name modules.1 >>= λ s. elim s [
      | none ↦ done (non_ballerina_name, [], [])
      | some last ↦ done (public_ballerina_name, last.1, written ++ modules.0 ++ last.0)
    ]
  ]

  -- from the organization on
  unfoldable pub demangle_org : (ballerina_org : Bool) → Text → Run (DemangleResult × Text × Text)
  unfolding demangle_module_name demangle_counted_name
  demangle_org ballerina_org p =
      let prefix = if ballerina_org then ballerina else [] in
      if head p == 48
      then demangle_module_name (if ballerina_org then prefix ++ 47 ∷ [] else []) (tail p)
      else demangle_counted_name p >>= λ r. elim r [
        | none ↦ done (bad_ballerina_name, [], [])
        | some org ↦ demangle_module_name (prefix ++ org.0 ++ 47 ∷ []) org.1
      ]

  -- what the call with a file writes is the last part of the result of the call without one
  unfoldable pub demangle : Text → Run (DemangleResult × Text × Text)
  unfolding demangle_org
  demangle p =
      let q = tail (tail p) in
      if (head p == 95) && (head (tail p) == 66)
      then if head q == 95
        then done (non_public_ballerina_name, tail q, [])
        else if head q == 98
        then demangle_org true (tail q)
        else demangle_org false q
      else done (non_ballerina_name, [], [])

  unfoldable pub print_mangled_name : Text → Run Text
  unfolding demangle
  print_mangled_name p = demangle p >>= λ (res, local_name, written). done (elim res [
    | non_public_ballerina_name ↦ local_name
    | public_ballerina_name ↦ local_name ++ 32 ∷ 40 ∷ written ++ 41 ∷ []
    | non_ballerina_name ↦ p
    | bad_ballerina_name ↦ p
  ])
