-- ===== src/Strings.antt =====
-- Strings: their three representations and lengths (runtime/balrt.h), equality and hash
-- (runtime/string.c, runtime/hash.h). The heap is read by words of 8 bytes.
pub mod Equal
pub mod Hash
pub mod Keys
pub mod Lengths
pub mod Order
pub mod Bytes
pub mod WordOrder
pub mod Padding
pub mod Immediate
pub mod Lexicographic
pub mod Ordered
pub mod Contains
use nballerina.Prelude.{
  ℕ, zero, suc, ◌+◌, ◌-◌, ◌*◌, ◌/◌, ◌%◌, ◌^◌, Bool, true, false, not, ltb, leb, ◌==◌, ◌&&◌,
  if◌then◌else◌,
}
use nballerina.MemberType.{word_or}
use nballerina.Tagged.{TaggedPtr, is_immediate, tagged_to_ptr}

-- what stands at an address, a multiple of 8
abbrev pub Words : Type 0
Words = ℕ → ℕ

-- `STRING_LARGE_FLAG`
abbrev pub is_large : TaggedPtr → Bool
is_large p = p % 2 == 1

-- word `i` of the string on the heap
abbrev pub string_word : Words → TaggedPtr → ℕ → ℕ
string_word mem p i = mem (tagged_to_ptr p + 8 * i)

-- the fields of the two structs: 16 bits each in one word, or a word each
abbrev pub medium_length_in_bytes : (header : ℕ) → ℕ
medium_length_in_bytes header = header % 2 ^ 16

abbrev pub medium_length_in_code_points : (header : ℕ) → ℕ
medium_length_in_code_points header = header / 2 ^ 16 % 2 ^ 16

abbrev pub round_up_int : ℕ → ℕ
round_up_int n = (n + 7) / 8 * 8

abbrev pub medium_string_size : (length_in_bytes : ℕ) → ℕ
medium_string_size length_in_bytes = round_up_int (length_in_bytes + 4)

abbrev pub round_up_uint64 : ℕ → ℕ
round_up_uint64 n = (n + 7) % 2 ^ 64 / 8 * 8

abbrev pub large_string_size : (length_in_bytes : ℕ) → ℕ
large_string_size length_in_bytes = round_up_uint64 ((length_in_bytes + 16) % 2 ^ 64)

-- `__builtin_clz` of a number of `width` bits
unfoldable pub count_leading_zeros : (width n : ℕ) → ℕ
count_leading_zeros zero n = 0
count_leading_zeros (suc width) n =
    let rest = count_leading_zeros width n in if leb (2 ^ width) n then 0 else 1 + rest

pub record StringLength : Type 0 where
  pub n_bytes : ℕ
  pub n_code_points : ℕ

unfoldable pub immediate_string_length : (bits : ℕ) → StringLength
unfolding count_leading_zeros
immediate_string_length bits =
    let lo_byte = bits % 256 in
    let complement = 2 ^ 56 - 1 - bits % 2 ^ 56 in
    let n = 8 - count_leading_zeros 64 complement / 8 in
    if lo_byte == 0xFF
    then record { n_bytes = 0; n_code_points = 0 }
    else if leb 0x80 lo_byte
    then record { n_bytes = count_leading_zeros 32 (255 - lo_byte) - 3 * 8; n_code_points = 1 }
    else record { n_bytes = n; n_code_points = n }

unfoldable pub tagged_string_length : Words → TaggedPtr → StringLength
unfolding immediate_string_length
tagged_string_length mem p =
    let header = string_word mem p 0 in
    if is_immediate p
    then immediate_string_length p
    else if is_large p
    then record { n_bytes = header; n_code_points = string_word mem p 1 }
    else record {
      n_bytes = medium_length_in_bytes header;
      n_code_points = medium_length_in_code_points header;
    }

-- The bytes between the top one and the bottom one are all ones where the rest of the quotient is.
unfoldable pub tagged_string_is_char : TaggedPtr → Bool
tagged_string_is_char p =
    let lo_byte = p % 256 in
    if is_immediate p
    then if leb 0x80 lo_byte then not (lo_byte == 0xFF) else (p / 256 % 2 ^ 48 == 2 ^ 48 - 1)
    else false

-- `while (--nInts > 0)`, with `rounds` words left from `i` on
unfoldable pub same_words : (rounds i : ℕ) → (p₁ p₂ : ℕ → ℕ) → Bool
same_words zero i p₁ p₂ = true
same_words (suc rounds) i p₁ p₂ =
    let rest = same_words rounds (suc i) p₁ p₂ in if p₁ i == p₂ i then rest else false

-- the number of words of a string, including the header
abbrev pub n_ints : (large : Bool) (header : ℕ) → ℕ
n_ints large header =
    if large then large_string_size header / 8 else medium_string_size (header % 2 ^ 16) / 8

unfoldable pub string_heap_eq : Words → (tp₁ tp₂ : TaggedPtr) → Bool
unfolding same_words
string_heap_eq mem tp₁ tp₂ =
    let h₁ = string_word mem tp₁ 0 in
    let compare : ℕ → Bool =
      λ n. same_words (n - 1) 1 (string_word mem tp₁) (string_word mem tp₂) in
    if h₁ == string_word mem tp₂ 0
    then if is_large tp₁
      then if is_large tp₂ then compare (n_ints true h₁) else false
      else if is_large tp₂
      then false
      else compare (n_ints false h₁)
    else false

unfoldable pub tagged_string_equal : Words → (tp₁ tp₂ : TaggedPtr) → Bool
unfolding string_heap_eq
tagged_string_equal mem tp₁ tp₂ =
    if tp₁ == tp₂
    then true
    else if is_immediate tp₁
    then false
    else if is_immediate tp₂
    then false
    else string_heap_eq mem tp₁ tp₂

-- `_bal_hash_key`, which the start of the program can set
pub record HashKey : Type 0 where
  pub first : ℕ
  pub second : ℕ

-- `a ^ b` on the low `width` bits
unfoldable pub word_xor : (width a b : ℕ) → ℕ
word_xor zero a b = 0
word_xor (suc width) a b = (a % 2 + b % 2) % 2 + 2 * word_xor width (a / 2) (b / 2)

unfoldable pub hash_folded_multiply : (x y : ℕ) → ℕ
unfolding word_xor
hash_folded_multiply x y = word_xor 64 (x * y % 2 ^ 64) (x * y / 2 ^ 64 % 2 ^ 64)

abbrev pub knuth_multiplier : ℕ
knuth_multiplier = 6364136223846793005

unfoldable pub hash_update : (h data_word : ℕ) → ℕ
unfolding hash_folded_multiply word_xor
hash_update h data_word = hash_folded_multiply (word_xor 64 data_word h) knuth_multiplier

-- A shift by 64 is not defined in C; the processor shifts by 0 then.
unfoldable pub hash_rotate_left : (bits rotate : ℕ) → ℕ
hash_rotate_left bits rotate =
    word_or 64 (bits * 2 ^ rotate % 2 ^ 64) (if rotate == 0 then bits else bits / 2 ^ (64 - rotate))

unfoldable pub hash_finish : HashKey → (h : ℕ) → ℕ
unfolding hash_rotate_left hash_folded_multiply
hash_finish hash_key h = hash_rotate_left (hash_folded_multiply h hash_key.second) (h % 64)

-- the loop over complete words, `rounds` of them left from `i` on
unfoldable pub hash_words : (rounds i : ℕ) → (ip : ℕ → ℕ) → (h : ℕ) → ℕ
hash_words zero i ip h = h
hash_words (suc rounds) i ip h = hash_words rounds (suc i) ip (hash_update h (ip i))

unfoldable pub immediate_string_hash : (bits h : ℕ) → ℕ
immediate_string_hash bits h =
    hash_update h (bits % 2 ^ (8 * (immediate_string_length bits).n_bytes))

-- the last word with its padding filled from the first 4 bytes of the string, and what is left of them
unfoldable pub hash_padded : (n_pad start last h : ℕ) → ℕ
hash_padded n_pad start last h =
    let shift = 8 * (8 - n_pad) in
    let filled = word_or 64 last (start * 2 ^ shift % 2 ^ 64) in
    let h' = hash_update h filled in
    if ltb 4 n_pad then h' else if n_pad == 4 then h' else hash_update h' (start / 2 ^ (64 - shift))

unfoldable pub medium_string_hash : (ip : ℕ → ℕ) → (h : ℕ) → ℕ
unfolding hash_words hash_padded
medium_string_hash ip h =
    let start = ip 0 / 2 ^ 32 in
    let len = ip 0 % 2 ^ 16 in
    let n = medium_string_size len / 8 in
    let n_pad = medium_string_size len - (len + 4) in
    if leb len 4
    then if len == 0 then h else hash_update h start
    else if n_pad == 0
    then hash_update (hash_words (n - 1) 1 ip h) start
    else hash_padded n_pad start (ip (n - 1)) (hash_words (n - 1 - 1) 1 ip h)

unfoldable pub large_string_hash : (ip : ℕ → ℕ) → (h : ℕ) → ℕ
unfolding hash_words
large_string_hash ip h =
    let n = large_string_size (ip 0) / 8 in
    let n_pad = large_string_size (ip 0) - (ip 0 + 16) in
    if n_pad == 0
    then hash_words (n - 2) 2 ip h
    else hash_update (hash_words (n - 1 - 2) 2 ip h) (ip (n - 1))

unfoldable pub string_hash : HashKey → Words → TaggedPtr → ℕ
unfolding immediate_string_hash medium_string_hash large_string_hash hash_finish
string_hash hash_key mem tp =
    let h = hash_key.first in
    hash_finish hash_key (
      if is_immediate tp
      then immediate_string_hash tp h
      else if is_large tp
      then large_string_hash (string_word mem tp) h
      else medium_string_hash (string_word mem tp) h)
