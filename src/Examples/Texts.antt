-- ===== src/Examples/Texts.antt =====
-- Strings at concrete inputs.
use nballerina.Prelude.{ℕ, ◌+◌, ◌*◌, ◌^◌, ◌≡◌, refl, true, ◌==◌, ◌||◌, if◌then◌else◌}
use nballerina.Strings.{
  Words, HashKey, same_words, string_heap_eq, tagged_string_equal, string_hash,
  tagged_string_is_char, immediate_string_length,
}
use nballerina.Strings.Hash.{string_hash-equal}
use nballerina.Strings.Keys.{tagged_string_equal_trans}
use nballerina.Strings.Lengths.{tagged_string_is_char-immediate_string_length}
use nballerina.Tagged.{TaggedPtr}

-- the same string of 10 bytes at three addresses
abbrev heap : Words
heap a =
    if (a == 64) || (a == 128) || (a == 192)
    then 0x64636261000a000a
    else if (a == 72) || (a == 136) || (a == 200)
    then 0x6a6968676665
    else 0

abbrev text : (address : ℕ) → TaggedPtr
text address = 5 * 2 ^ 56 + address

abbrev pi_digits : HashKey
pi_digits = record { first = 0x243F6A8885A308D3; second = 0x13198A2E03707344 }

first_two : tagged_string_equal heap (text 64) (text 128) ≡ true
unfolding tagged_string_equal string_heap_eq same_words
first_two = refl

last_two : tagged_string_equal heap (text 128) (text 192) ≡ true
unfolding tagged_string_equal string_heap_eq same_words
last_two = refl

string_hash-equal_example :
    string_hash pi_digits heap (text 64) ≡ string_hash pi_digits heap (text 128)
string_hash-equal_example = string_hash-equal pi_digits heap (text 64) (text 128) first_two

tagged_string_equal_trans_example : tagged_string_equal heap (text 64) (text 192) ≡ true
tagged_string_equal_trans_example =
    tagged_string_equal_trans heap (text 64) (text 128) (text 192) first_two last_two

-- the immediate string of the letter a
abbrev letter : TaggedPtr
letter = 0x25ffffffffffff61

tagged_string_is_char-immediate_string_length_example :
    tagged_string_is_char letter ≡ ((immediate_string_length letter).n_code_points == 1)
tagged_string_is_char-immediate_string_length_example =
    tagged_string_is_char-immediate_string_length letter refl
