-- ===== src/Errors/Panics.antt =====
-- The error of a panic: the message of its code, and its line.
use nballerina.Prelude.{
  ℕ, suc, ◌+◌, ◌*◌, ◌/◌, ◌%◌, ◌<◌, ◌≤◌, ◌≡◌, ◌⊎◌, inl, inr, refl, ap, ◌∙◌, arith, ◌==◌, length,
  Option, none, some, [], ◌∷◌, Bool, true, false, leb, ◌&&◌, zero, lt-or-le, List, get_elem?, cells,
  le→leb, leb→le, lt→leb, ne→==,
}
use nballerina.Errors.Buffer.{stored_pcs}
use nballerina.Errors.{
  Text, panic_message_strings, SimpleBacktrace, Error, panic_message, error_construct,
  panic_construct,
}

-- a length that the macro of the messages is made for
abbrev is_laid_out : Text → Bool
is_laid_out m = leb 13 (length m) && leb (length m) 19

all_laid_out : List Text → Bool
all_laid_out [] = true
all_laid_out (m ∷ ms) = is_laid_out m && all_laid_out ms

both : (x y : Bool) → (x && y) ≡ true → (x ≡ true) × (y ≡ true)
both true y h = (refl, h)
both false y h = cc

element_laid_out :
    (ms : List Text) (i : ℕ)
    → all_laid_out ms ≡ true
    → i < length ms
    → (m : Text) × (get_elem? ms i ≡ some m) × (is_laid_out m ≡ true)
unfolding all_laid_out
element_laid_out [] i h k = absurd (omega arith)
element_laid_out (m ∷ ms) zero h k = (m, refl, (both _ _ h).0)
element_laid_out (m ∷ ms) (suc i) h k = element_laid_out ms i ((both _ _ h).1) (omega arith)

-- the error of a panic, with a message of 13 to 19 bytes, the line, and the counters
pub record PanicError (code line : ℕ) (b : SimpleBacktrace) (e : Error) : Type 0 where
  pub message : panic_message code ≡ some e.message
  pub long : 13 ≤ length e.message
  pub short : length e.message ≤ 19
  pub line_number : e.line_number ≡ line
  pub backtrace_code : e.backtrace_code ≡ b.code
  pub pcs : cells e.n_pcs e.pcs ≡ stored_pcs b

abbrev rest : List Text → List Text
rest [] = []
rest (m ∷ ms) = ms

message_of :
    (code : ℕ)
    → 1 ≤ code
    → code ≤ 12
    → (m : Text) × (get_elem? panic_message_strings code ≡ some m) × (is_laid_out m ≡ true)
unfolding all_laid_out
message_of zero h k = absurd (omega arith)
message_of (suc i) h k =
    let below : i < 12 = omega arith in element_laid_out (rest panic_message_strings) i refl below

panic_message_known :
    (code : ℕ) (m : Text)
    → 1 ≤ code
    → code ≤ 12
    → get_elem? panic_message_strings code ≡ some m
    → panic_message code ≡ some m
unfolding panic_message
panic_message_known code m h k listed =
    let some_code : (code == 0) ≡ false = ne→== code 0 (λ q. absurd (omega arith)) in
    let inside : leb 13 code ≡ false = lt→leb 13 code (omega arith) in
    rw (panic_message, some_code, inside) listed

panic_message_unknown : (code : ℕ) → (code ≡ 0) ⊎ (13 ≤ code) → panic_message code ≡ none
unfolding panic_message
panic_message_unknown code (inl q) = rw q refl
panic_message_unknown code (inr q) =
    let outside : leb 13 code ≡ true = le→leb 13 code q in
    let some_code : (code == 0) ≡ false = ne→== code 0 (λ p. absurd (omega arith)) in
    rw (panic_message, some_code, outside) refl

-- the answer to a code and a line
unfoldable answer : (b : SimpleBacktrace) → (code line : ℕ) → Option Error
answer b code line = elim (panic_message code) [
  | none ↦ none
  | some message ↦ some (error_construct message line b)
]

panic_construct-answer :
    (code line : ℕ) (b : SimpleBacktrace)
    → code < 256
    → panic_construct (line * 256 + code) b ≡ answer b code line
unfolding panic_construct answer
panic_construct-answer code line b small =
    let low : (line * 256 + code) % 256 ≡ code = omega arith in
    let high : (line * 256 + code) / 256 ≡ line = omega arith in
    ap (λ c. answer b c ((line * 256 + code) / 256)) low ∙ ap (answer b code) high

known :
    (code line : ℕ) (b : SimpleBacktrace)
    → 1 ≤ code
    → code ≤ 12
    → (e : Error) × (panic_construct (line * 256 + code) b ≡ some e) × PanicError code line b e
unfolding answer error_construct
known code line b h k =
    let (m, listed, fine) = message_of code h k in
    let (least, most) = both _ _ fine in
    let message = panic_message_known code m h k listed in
    (
      error_construct m line b,
      rw (panic_construct-answer code line b (omega arith), answer, message) refl,
      record {
        message = message;
        long = leb→le 13 (length m) least;
        short = leb→le (length m) 19 most;
        line_number = refl;
        backtrace_code = refl;
        pcs = refl;
      },
    )

unknown :
    (code line : ℕ) (b : SimpleBacktrace)
    → code < 256
    → (code ≡ 0) ⊎ (13 ≤ code)
    → panic_construct (line * 256 + code) b ≡ none
unfolding answer
unknown code line b small h =
    rw (panic_construct-answer code line b small, answer, panic_message_unknown code h) refl

-- For a packed panic of a code below 256 and a line, `_bal_panic_construct` gives for the codes 1
-- to 12 an error with the message of the code, whose length is in the 13 to 19 bytes that the
-- macro of the messages asks for, the line, and the code and counters of the backtrace, and aborts
-- for every other code
pub panic_construct-PanicError :
    (code line : ℕ) (b : SimpleBacktrace)
    → code < 256
    → ((1 ≤ code)
        × (code ≤ 12)
        × ((e : Error) × (panic_construct (line * 256 + code) b ≡ some e)
            × PanicError code line b e))
      ⊎ (((code ≡ 0) ⊎ (13 ≤ code)) × (panic_construct (line * 256 + code) b ≡ none))
panic_construct-PanicError zero line b small = inr (inl refl, unknown zero line b small (inl refl))
panic_construct-PanicError (suc i) line b small = elim (lt-or-le i 12) [
  | inl lt ↦
      let top : suc i ≤ 12 = omega arith in
      inl (omega arith, top, known (suc i) line b (omega arith) top)
  | inr ge ↦
      let above : 13 ≤ suc i = omega arith in
      inr (inr above, unknown (suc i) line b small (inr above))
]
