-- ===== src/Errors.antt =====
-- Panics and errors (runtime/panic.c, and the construction of errors in runtime/error.c). libbacktrace
-- is what it calls: a sequence of events for the callbacks.
pub mod Buffer
pub mod Panics
pub mod Names
use nballerina.Prelude.{
  ◌||◌, length, get_elem?, ℕ, zero, suc, ◌+◌, ◌*◌, ◌/◌, ◌%◌, Bool, true, false, leb, ◌==◌,
  if◌then◌else◌, Option, none, some, List, [], ◌∷◌, update,
}
use nballerina.Prelude.Int.{ℤ, pos, negsuc}
use nballerina.Array.{Block}
use nballerina.Run.{Run, done, fault, ◌>>=◌}

-- the bytes of a text
abbrev pub Text : Type 0
Text = List ℕ

-- `panicMessageStrings`: no message for 0
abbrev pub panic_message_strings : List Text
panic_message_strings =
    []
    ∷ (97 ∷ 114 ∷ 105 ∷ 116 ∷ 104 ∷ 109 ∷ 101 ∷ 116 ∷ 105 ∷ 99 ∷ 32 ∷ 111 ∷ 118 ∷ 101 ∷ 114 ∷ 102
        ∷ 108 ∷ 111 ∷ 119 ∷ [])
    ∷ (100 ∷ 105 ∷ 118 ∷ 105 ∷ 100 ∷ 101 ∷ 32 ∷ 98 ∷ 121 ∷ 32 ∷ 122 ∷ 101 ∷ 114 ∷ 111 ∷ [])
    ∷ (98 ∷ 97 ∷ 100 ∷ 32 ∷ 116 ∷ 121 ∷ 112 ∷ 101 ∷ 32 ∷ 99 ∷ 97 ∷ 115 ∷ 116 ∷ [])
    ∷ (115 ∷ 116 ∷ 97 ∷ 99 ∷ 107 ∷ 32 ∷ 111 ∷ 118 ∷ 101 ∷ 114 ∷ 102 ∷ 108 ∷ 111 ∷ 119 ∷ [])
    ∷ (105 ∷ 110 ∷ 100 ∷ 101 ∷ 120 ∷ 32 ∷ 111 ∷ 117 ∷ 116 ∷ 32 ∷ 111 ∷ 102 ∷ 32 ∷ 98 ∷ 111 ∷ 117
        ∷ 110 ∷ 100 ∷ 115 ∷ [])
    ∷ (108 ∷ 105 ∷ 115 ∷ 116 ∷ 32 ∷ 116 ∷ 111 ∷ 111 ∷ 32 ∷ 108 ∷ 111 ∷ 110 ∷ 103 ∷ [])
    ∷ (115 ∷ 116 ∷ 114 ∷ 105 ∷ 110 ∷ 103 ∷ 32 ∷ 116 ∷ 111 ∷ 111 ∷ 32 ∷ 108 ∷ 111 ∷ 110 ∷ 103 ∷ [])
    ∷ (98 ∷ 97 ∷ 100 ∷ 32 ∷ 108 ∷ 105 ∷ 115 ∷ 116 ∷ 32 ∷ 115 ∷ 116 ∷ 111 ∷ 114 ∷ 101 ∷ [])
    ∷ (98 ∷ 97 ∷ 100 ∷ 32 ∷ 109 ∷ 97 ∷ 112 ∷ 112 ∷ 105 ∷ 110 ∷ 103 ∷ 32 ∷ 115 ∷ 116 ∷ 111 ∷ 114
        ∷ 101 ∷ [])
    ∷ (110 ∷ 111 ∷ 32 ∷ 102 ∷ 105 ∷ 108 ∷ 108 ∷ 101 ∷ 114 ∷ 32 ∷ 118 ∷ 97 ∷ 108 ∷ 117 ∷ 101 ∷ [])
    ∷ (105 ∷ 110 ∷ 116 ∷ 101 ∷ 114 ∷ 110 ∷ 97 ∷ 108 ∷ 32 ∷ 101 ∷ 114 ∷ 114 ∷ 111 ∷ 114 ∷ [])
    ∷ (110 ∷ 111 ∷ 116 ∷ 32 ∷ 97 ∷ 32 ∷ 118 ∷ 97 ∷ 108 ∷ 105 ∷ 100 ∷ 32 ∷ 100 ∷ 101 ∷ 99 ∷ 105 ∷ 109
        ∷ 97 ∷ 108 ∷ [])
    ∷ []

-- the message of a code, if it has one
unfoldable pub panic_message : (code : ℕ) → Option Text
panic_message code =
    if (code == 0) || leb (length panic_message_strings) code
    then none
    else get_elem? panic_message_strings code

-- `int` codes of a backtrace; those of libbacktrace are -1 and up
abbrev pub no_error : ℤ
no_error = negsuc 1

abbrev pub exceeds_max_pc_count : ℤ
exceeds_max_pc_count = negsuc 2

abbrev pub out_of_memory : ℤ
out_of_memory = negsuc 3

abbrev pub max_pc_count : ℕ
max_pc_count = 256

-- `pcs` is a block of `sz_pcs` elements of 8 bytes, if `malloc` gave one
pub record SimpleBacktrace : Type 0 where
  pub code : ℤ
  pub message : Option Text
  pub n_pcs : ℕ
  pub sz_pcs : ℕ
  pub pcs : Block ℕ

abbrev pub is_no_error : ℤ → Bool
is_no_error (pos n) = false
is_no_error (negsuc n) = n == 1

-- the first error is kept; `saved` says whether there is memory for the message
unfoldable pub store_backtrace_error :
    (saved : Bool) → Text → (errnum : ℤ) → SimpleBacktrace → SimpleBacktrace
store_backtrace_error saved msg errnum b =
    if is_no_error b.code
    then record b { code = errnum; message = if saved then some msg else none }
    else b

-- `SUCCESS` and `FAIL`; `grown` says whether `realloc` finds memory
unfoldable pub store_pc : (grown : Bool) → (pc : ℕ) → SimpleBacktrace → Run (ℕ × SimpleBacktrace)
store_pc grown pc b =
    let stored : (sz : ℕ) → Block ℕ → Run (ℕ × SimpleBacktrace) = λ sz pcs.
      (if leb (8 * (b.n_pcs + 1)) pcs.size
        then done (
          0,
          record b {
            sz_pcs = sz;
            pcs = record { size = pcs.size; cell = update pcs.cell b.n_pcs pc };
            n_pcs = b.n_pcs + 1;
          },
        )
        else fault) in
    if b.n_pcs == b.sz_pcs
    then if b.sz_pcs == max_pc_count
      then done (1, record b { code = exceeds_max_pc_count })
      else if grown
      then stored (b.sz_pcs * 2) (record { size = 8 * (b.sz_pcs * 2); cell = b.pcs.cell })
      else done (1, record b { code = out_of_memory })
    else stored b.sz_pcs b.pcs

-- a call of a callback by libbacktrace
pub data Event : Type 0 where
  frame : (grown : Bool) (pc : ℕ) → Event
  failed : (saved : Bool) (msg : Text) (errnum : ℤ) → Event

-- `backtrace_simple` stops where the callback does not return 0
unfoldable pub backtrace_simple : List Event → SimpleBacktrace → Run SimpleBacktrace
unfolding store_pc store_backtrace_error
backtrace_simple [] b = done b
backtrace_simple (frame grown pc ∷ events) b = do
  (code, b') ← store_pc grown pc b
  if code == 0 then backtrace_simple events b' else done b'
backtrace_simple (failed saved msg errnum ∷ events) b =
    backtrace_simple events (store_backtrace_error saved msg errnum b)

-- `report` is the error with which `backtrace_create_state` fails, if it does
unfoldable pub get_simple_backtrace :
    (allocated : Bool) (junk : ℕ → ℕ) (report : Option (Bool × Text × ℤ))
    → List Event
    → Run SimpleBacktrace
unfolding backtrace_simple store_backtrace_error
get_simple_backtrace allocated junk report events =
    let start : SimpleBacktrace = record {
      code = if allocated then no_error else out_of_memory;
      message = none;
      n_pcs = 0;
      sz_pcs = if allocated then 1 else 0;
      pcs = record { size = if allocated then 8 else 0; cell = junk };
    } in
    if allocated
    then elim report [
      | none ↦ backtrace_simple events start
      | some error ↦ done (store_backtrace_error error.0 error.1 error.2 start)
    ]
    else done start

-- `struct Error`
pub record Error : Type 0 where
  pub message : Text
  pub line_number : ℕ
  pub backtrace_code : ℤ
  pub backtrace_message : Option Text
  pub n_pcs : ℕ
  pub pcs : ℕ → ℕ

unfoldable pub error_construct : (message : Text) (line_number : ℕ) → SimpleBacktrace → Error
error_construct message line_number b = record {
  message = message;
  line_number = line_number;
  backtrace_code = b.code;
  backtrace_message = b.message;
  n_pcs = b.n_pcs;
  pcs = b.pcs.cell;
}

-- `none` is `abort`
unfoldable pub panic_construct : (err : ℕ) → SimpleBacktrace → Option Error
unfolding panic_message error_construct
panic_construct err b = elim (panic_message (err % 256)) [
  | none ↦ none
  | some message ↦ some (error_construct message (err / 256) b)
]
