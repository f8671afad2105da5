-- ===== src/Strings/Order.antt =====
-- The order of strings, and the subtypes of strings (runtime/string.c).
use nballerina.Prelude.{
  ℕ, zero, suc, ◌+◌, ◌-◌, ◌*◌, ◌/◌, ◌%◌, ◌^◌, Bool, true, false, not, ltb, leb, ◌==◌, ◌&&◌,
  if◌then◌else◌,
}
use nballerina.Run.{Run, done, diverged, ◌>>=◌}
use nballerina.Strings.{
  Words, is_large, string_word, medium_string_size, large_string_size, tagged_string_length,
  tagged_string_is_char, word_xor,
}
use nballerina.Tagged.{TaggedPtr, is_immediate}
use nballerina.Word.{lt_signed}

-- byte `j` of a number, the lowest first
abbrev pub digit : (n j : ℕ) → ℕ
digit n j = n / 256 ^ j % 256

-- `count` bytes from `j` on, with the first one highest
unfoldable pub reverse_bytes : (count j n : ℕ) → ℕ
reverse_bytes zero j n = 0
reverse_bytes (suc count) j n = digit n j * 256 ^ count + reverse_bytes count (suc j) n

-- `__builtin_bswap64`
abbrev pub bswap : ℕ → ℕ
bswap n = reverse_bytes 8 0 n

-- -1, and the difference of two numbers below 2 ^ 63, as int64_t
abbrev pub minus_one : ℕ
minus_one = 2 ^ 64 - 1

abbrev pub minus : (a b : ℕ) → ℕ
minus a b = (a + 2 ^ 64 - b) % 2 ^ 64

-- `rounds` words are left, from `i` on
unfoldable pub memcmp8 : (rounds i : ℕ) → (p₁ p₂ : ℕ → ℕ) → ℕ
unfolding reverse_bytes
memcmp8 zero i p₁ p₂ = 0
memcmp8 (suc rounds) i p₁ p₂ =
    let rest = memcmp8 rounds (suc i) p₁ p₂ in
    if p₁ i == p₂ i then rest else if ltb (bswap (p₁ i)) (bswap (p₂ i)) then minus_one else 1

unfoldable pub string_cmp_medium : (p₁ p₂ : ℕ → ℕ) → ℕ
unfolding memcmp8 reverse_bytes
string_cmp_medium p₁ p₂ =
    let len₁ = p₁ 0 % 2 ^ 16 in
    let len₂ = p₂ 0 % 2 ^ 16 in
    let d = minus (bswap (p₁ 0) % 2 ^ 32) (bswap (p₂ 0) % 2 ^ 32) in
    let min_len = if leb len₁ len₂ then len₁ else len₂ in
    let n_ints = medium_string_size min_len / 8 in
    let result = memcmp8 (n_ints - 1) 1 p₁ p₂ in
    if d == 0 then if result == 0 then minus len₁ len₂ else result else d

unfoldable pub string_cmp_large : (p₁ p₂ : ℕ → ℕ) → ℕ
unfolding memcmp8
string_cmp_large p₁ p₂ =
    let min_len = if leb (p₁ 0) (p₂ 0) then p₁ 0 else p₂ 0 in
    let n_ints = large_string_size min_len / 8 in
    let result = memcmp8 (n_ints - 2) 2 p₁ p₂ in if result == 0 then minus (p₁ 0) (p₂ 0) else result

-- `__builtin_ctzl` of a number of `width` bits that is not 0
unfoldable pub count_trailing_zeros : (width n : ℕ) → ℕ
count_trailing_zeros zero n = 0
count_trailing_zeros (suc width) n =
    let rest = count_trailing_zeros width (n / 2) in if n % 2 == 1 then 0 else 1 + rest

unfoldable pub string_cmp_immediate : (bits₁ bits₂ : ℕ) → ℕ
unfolding count_trailing_zeros word_xor
string_cmp_immediate bits₁ bits₂ =
    let shift = count_trailing_zeros 64 (word_xor 64 bits₁ bits₂) / 8 * 8 in
    let byte₁ = bits₁ / 2 ^ shift % 256 in
    let byte₂ = bits₂ / 2 ^ shift % 256 in
    if ltb byte₁ byte₂
    then if byte₂ == 0xFF then 1 else minus_one
    else if byte₁ == 0xFF
    then minus_one
    else 1

-- byte `k` of a structure, by its words
abbrev pub byte_of : (p : ℕ → ℕ) → (k : ℕ) → ℕ
byte_of p k = digit (p (k / 8)) (k % 8)

-- `taggedStringBytes`
abbrev pub string_byte : Words → TaggedPtr → ℕ → ℕ
string_byte mem p i =
    if is_immediate p
    then digit p i
    else if is_large p
    then byte_of (string_word mem p) (16 + i)
    else byte_of (string_word mem p) (4 + i)

-- the immediate flags are equal, and the flags of large strings
abbrev pub same_kind : (tp₁ tp₂ : TaggedPtr) → Bool
same_kind tp₁ tp₂ = (tp₁ / 2 ^ 61 % 2 == tp₂ / 2 ^ 61 % 2) && (tp₁ % 2 == tp₂ % 2)

-- `memcmp` of the C library, as an int64_t
module _ (memcmp : (f g : ℕ → ℕ) → (n : ℕ) → ℕ) (mem : Words) where
  unfoldable pub string_cmp_generic : (tp₁ tp₂ : TaggedPtr) → ℕ
  unfolding tagged_string_length
  string_cmp_generic tp₁ tp₂ =
      let len₁ = (tagged_string_length mem tp₁).n_bytes in
      let len₂ = (tagged_string_length mem tp₂).n_bytes in
      let result =
        memcmp (string_byte mem tp₁) (string_byte mem tp₂) (if leb len₁ len₂ then len₁ else len₂) in
      if result == 0 then minus len₁ len₂ else result

  unfoldable pub string_cmp : (tp₁ tp₂ : TaggedPtr) → ℕ
  unfolding string_cmp_immediate string_cmp_generic string_cmp_medium string_cmp_large
  string_cmp tp₁ tp₂ =
      if tp₁ == tp₂
      then 0
      else if is_immediate tp₁ && is_immediate tp₂
      then string_cmp_immediate tp₁ tp₂
      else if same_kind tp₁ tp₂
      then if is_large tp₁
        then string_cmp_large (string_word mem tp₁) (string_word mem tp₂)
        else string_cmp_medium (string_word mem tp₁) (string_word mem tp₂)
      else string_cmp_generic tp₁ tp₂

  -- the loop of `stringListContains`, with fuel
  unfoldable pub string_list_contains :
      (fuel : ℕ) → (strs : ℕ → TaggedPtr) → (start stop : ℕ) → TaggedPtr → Run Bool
  unfolding string_cmp
  string_list_contains zero strs start stop str = diverged
  string_list_contains (suc fuel) strs start stop str =
      let mid = start + (stop - start) / 2 in
      let before = string_list_contains fuel strs start mid str in
      let after = string_list_contains fuel strs (mid + 1) stop str in
      let cmp = string_cmp str (strs mid) in
      if ltb start stop
      then if cmp == 0 then done true else if lt_signed cmp 0 then before else after
      else done false

  unfoldable pub string_subtype_contains :
      (n_strs : ℕ)
      → (strs : ℕ → TaggedPtr) → (char_included non_char_included : Bool) → TaggedPtr
      → Run Bool
  unfolding string_list_contains tagged_string_is_char
  string_subtype_contains n strs char_included non_char_included str =
      string_list_contains (n + 1) strs 0 n str >>= λ in_strs.
      let included = if tagged_string_is_char str then char_included else non_char_included in
      done (if in_strs then included else not included)
