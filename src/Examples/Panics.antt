-- ===== src/Examples/Panics.antt =====
-- Errors with backtraces: of three frames, of which the third finds no memory, and of a panic in line 7.
use nballerina.Prelude.{ℕ, ◌*◌, ◌+◌, ◌≤◌, ◌≡◌, ◌⊎◌, arith, none, some, true, false, List, [], ◌∷◌}
use nballerina.Errors.{
  Error, Event, frame, SimpleBacktrace, no_error, get_simple_backtrace, panic_construct,
}
use nballerina.Errors.Buffer.{Collected, get_simple_backtrace-Collected}
use nballerina.Errors.Panics.{PanicError, panic_construct-PanicError}
use nballerina.Run.{Returns}

abbrev three_frames : List Event
three_frames = frame true 11 ∷ frame true 22 ∷ frame false 33 ∷ []

get_simple_backtrace-Collected_example :
    Returns (get_simple_backtrace true (λ a. 9) none three_frames) (Collected three_frames)
get_simple_backtrace-Collected_example = get_simple_backtrace-Collected (λ a. 9) three_frames

abbrev two_pcs : SimpleBacktrace
two_pcs = record {
  code = no_error;
  message = none;
  n_pcs = 2;
  sz_pcs = 2;
  pcs = record { size = 16; cell = λ i. 11 * (i + 1) };
}

-- "index out of bounds"
abbrev bounds_code : ℕ
bounds_code = 5

panic_construct-PanicError_example :
    ((1 ≤ bounds_code)
      × (bounds_code ≤ 12)
      × ((e : Error) × (panic_construct (7 * 256 + bounds_code) two_pcs ≡ some e)
          × PanicError bounds_code 7 two_pcs e))
    ⊎ (((bounds_code ≡ 0) ⊎ (13 ≤ bounds_code))
        × (panic_construct (7 * 256 + bounds_code) two_pcs ≡ none))
panic_construct-PanicError_example = panic_construct-PanicError bounds_code 7 two_pcs (omega arith)
