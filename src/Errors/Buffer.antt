-- ===== src/Errors/Buffer.antt =====
-- The buffer of program counters: it grows to 256 and keeps the first ones.
use native.Mathlib.Numerals.{add-one}
use native.Mathlib.Nat.{pow-succ', pow-le-pow_right}
use mathlib.Core.List.{append_assoc, append-nil}
use nballerina.Prelude.{
  ℕ, none, suc, ◌+◌, ◌*◌, ◌^◌, ◌<◌, ◌≤◌, ◌≡◌, ◌≢◌, ◌⊎◌, inl, inr, refl, sym, ap, ◌∙◌, arith, Bool,
  true, leb, ◌==◌, Bool-cases, ==_iff, ==_false, lt-or-le, le→leb, List, [], ◌∷◌, ◌++◌, cells,
  update, cells-update_end,
}
use nballerina.Prelude.Int.{ℤ}
use nballerina.Errors.{
  Text, is_no_error, SimpleBacktrace, Event, frame, failed, exceeds_max_pc_count, out_of_memory,
  max_pc_count, store_backtrace_error, store_pc, backtrace_simple, get_simple_backtrace,
}
use nballerina.Run.{Returns}

-- the program counters that are stored
abbrev pub stored_pcs : SimpleBacktrace → List ℕ
stored_pcs b = cells b.n_pcs b.pcs.cell

-- those that libbacktrace reports
abbrev pub frames : List Event → List ℕ
frames [] = []
frames (frame grown pc ∷ events) = pc ∷ frames events
frames (failed saved msg errnum ∷ events) = frames events

-- the capacity is a power of two up to 256, and the block has it
pub record IsBuffer (b : SimpleBacktrace) : Type 0 where
  pub exponent : (k : ℕ) × (k ≤ 8) × (b.sz_pcs ≡ 2 ^ k)
  pub fits : b.n_pcs ≤ b.sz_pcs
  pub sized : b.pcs.size ≡ 8 * b.sz_pcs

power_bound : (k : ℕ) → k ≤ 8 → 2 ^ k ≤ 256
power_bound k h = pow-le-pow_right {n = 2} (omega arith) h

mul_two : (n : ℕ) → n * 2 ≡ 2 * n
mul_two n = omega arith

doubled : (k : ℕ) → k ≤ 8 → 2 ^ k ≢ 256 → (suc k ≤ 8) × (2 ^ k * 2 ≡ 2 ^ suc k)
doubled k h d = elim (lt-or-le k 8) [
  | inl lt ↦ (lt, mul_two (2 ^ k) ∙ sym (pow-succ' 2 k))
  | inr ge ↦ let top : k ≡ 8 = omega arith in absurd (d (ap (λ n. 2 ^ n) top))
]

-- a counter more in a block of `sz` elements
abbrev with_pc : (pc sz : ℕ) → (b : SimpleBacktrace) → SimpleBacktrace
with_pc pc sz b = record b {
  sz_pcs = sz;
  pcs = record { size = 8 * sz; cell = update b.pcs.cell b.n_pcs pc };
  n_pcs = b.n_pcs + 1;
}

with_pc-IsBuffer :
    (pc sz : ℕ) (b : SimpleBacktrace)
    → (k : ℕ) × (k ≤ 8) × (sz ≡ 2 ^ k)
    → b.n_pcs < sz
    → IsBuffer (with_pc pc sz b)
with_pc-IsBuffer pc sz b power room = record { exponent = power; fits = omega arith; sized = refl }

stored_pcs-with_pc :
    (pc sz : ℕ) (b : SimpleBacktrace) → stored_pcs (with_pc pc sz b) ≡ stored_pcs b ++ pc ∷ []
stored_pcs-with_pc pc sz b =
    ap (λ n. cells n (update b.pcs.cell b.n_pcs pc)) (add-one b.n_pcs)
    ∙ cells-update_end b.n_pcs b.pcs.cell pc

-- a counter more, or the reason why there is none
abbrev pub StoredPc : SimpleBacktrace → (pc : ℕ) → ℕ × SimpleBacktrace → Type 0
StoredPc b pc (code, r) =
    ((code ≡ 0) × IsBuffer r × (stored_pcs r ≡ stored_pcs b ++ pc ∷ []) × (r.code ≡ b.code))
    ⊎ ((code ≡ 1)
        × IsBuffer r
        × (stored_pcs r ≡ stored_pcs b)
        × (((r.code ≡ exceeds_max_pc_count) × (r.n_pcs ≡ 256)) ⊎ (r.code ≡ out_of_memory)))

store_pc-StoredPc :
    (grown : Bool) (pc : ℕ) (b : SimpleBacktrace)
    → IsBuffer b
    → Returns (store_pc grown pc b) (StoredPc b pc)
unfolding store_pc
store_pc-StoredPc grown pc b v = elim (Bool-cases (b.n_pcs == b.sz_pcs)) [
  | inr e ↦
      let below : b.n_pcs < b.sz_pcs = omega (arith, v.fits, ==_false _ _ e) in
      let room : leb (8 * (b.n_pcs + 1)) (8 * b.sz_pcs) ≡ true = le→leb _ _ (omega arith) in
      (
        (0, with_pc pc b.sz_pcs b),
        rw (e, v.sized, room),
        inl (
          refl,
          with_pc-IsBuffer pc b.sz_pcs b v.exponent below,
          stored_pcs-with_pc pc b.sz_pcs b,
          refl,
        ),
      )
  | inl e ↦
      let full = (==_iff b.n_pcs b.sz_pcs).0 e in
      elim (Bool-cases (b.sz_pcs == max_pc_count)) [
        | inl m ↦ (
          (1, record b { code = exceeds_max_pc_count }),
          rw (e, m),
          inr (
            refl,
            record { exponent = v.exponent; fits = v.fits; sized = v.sized },
            refl,
            inl (refl, full ∙ (==_iff b.sz_pcs 256).0 m),
          ),
        )
        | inr m ↦ elim (Bool-cases grown) [
          | inr g ↦ (
            (1, record b { code = out_of_memory }),
            rw (e, m, g),
            inr (
              refl,
              record { exponent = v.exponent; fits = v.fits; sized = v.sized },
              refl,
              inr refl,
            ),
          )
          | inl g ↦
              let (k, low, power) = v.exponent in
              let (low', power') = doubled k low (λ q. ==_false _ _ m (power ∙ q)) in
              let some_room : 1 ≤ 2 ^ k = pow-le-pow_right (omega arith) {i = 0} (omega arith) in
              let below : b.n_pcs < b.sz_pcs * 2 = omega (arith, some_room, power, full) in
              let room : leb (8 * (b.n_pcs + 1)) (8 * (b.sz_pcs * 2)) ≡ true =
                le→leb _ _ (omega arith) in
              (
                (0, with_pc pc (b.sz_pcs * 2) b),
                rw (e, m, g, room),
                inl (
                  refl,
                  with_pc-IsBuffer pc (b.sz_pcs * 2) b (suc k, low', ap (λ n. n * 2) power ∙ power')
                      below,
                  stored_pcs-with_pc pc (b.sz_pcs * 2) b,
                  refl,
                ),
              )
        ]
      ]
]

-- an error of libbacktrace leaves the buffer
kept-IsBuffer :
    (saved : Bool) (msg : Text) (errnum : ℤ) (b : SimpleBacktrace)
    → IsBuffer b
    → (stored_pcs (store_backtrace_error saved msg errnum b) ≡ stored_pcs b)
      × IsBuffer (store_backtrace_error saved msg errnum b)
unfolding store_backtrace_error
kept-IsBuffer saved msg errnum b v = elim (Bool-cases (is_no_error b.code)) [
  | inl e ↦ rw e (refl, record { exponent = v.exponent; fits = v.fits; sized = v.sized })
  | inr e ↦ rw e (refl, v)
]

-- the first counters of the events, all of them unless there are more than 256, or no memory for more
pub record Stored (b : SimpleBacktrace) (events : List Event) (r : SimpleBacktrace) : Type 0 where
  pub buffer : IsBuffer r
  pub kept : List ℕ
  pub rest : List ℕ
  pub appended : stored_pcs r ≡ stored_pcs b ++ kept
  pub first : frames events ≡ kept ++ rest
  pub all :
      (rest ≡ []) ⊎ ((r.code ≡ exceeds_max_pc_count) × (r.n_pcs ≡ 256)) ⊎ (r.code ≡ out_of_memory)

backtrace_simple-Stored :
    (events : List Event) (b : SimpleBacktrace)
    → IsBuffer b
    → Returns (backtrace_simple events b) (Stored b events)
unfolding backtrace_simple
backtrace_simple-Stored [] b v = (
  b,
  refl,
  record {
    buffer = v;
    kept = [];
    rest = [];
    appended = sym (append-nil (stored_pcs b));
    first = refl;
    all = inl refl;
  },
)
backtrace_simple-Stored (frame grown pc ∷ events) b v =
    let (out, run, g) = store_pc-StoredPc grown pc b v in
    elim g [
      | inl (ok, v', more, same) ↦
          let (r, run', s) = backtrace_simple-Stored events (out.1) v' in
          (
            r,
            rw (run, ok) run',
            record {
              buffer = s.buffer;
              kept = pc ∷ s.kept;
              rest = s.rest;
              appended =
                  s.appended
                  ∙ ap (λ xs. xs ++ s.kept) more
                  ∙ append_assoc (stored_pcs b) (pc ∷ []) s.kept;
              first = ap (◌∷◌ pc) s.first;
              all = s.all;
            },
          )
      | inr (stop, v', same, why) ↦ (
        out.1,
        rw (run, stop),
        record {
          buffer = v';
          kept = [];
          rest = pc ∷ frames events;
          appended = same ∙ sym (append-nil (stored_pcs b));
          first = refl;
          all = inr why;
        },
      )
    ]
backtrace_simple-Stored (failed saved msg errnum ∷ events) b v =
    let (same, v') = kept-IsBuffer saved msg errnum b v in
    let (r, run, s) =
      backtrace_simple-Stored events (store_backtrace_error saved msg errnum b) v' in
    (
      r,
      run,
      record {
        buffer = s.buffer;
        kept = s.kept;
        rest = s.rest;
        appended = s.appended ∙ ap (λ xs. xs ++ s.kept) same;
        first = s.first;
        all = s.all;
      },
    )

-- a buffer with the first counters of the events
pub record Collected (events : List Event) (r : SimpleBacktrace) : Type 0 where
  pub buffer : IsBuffer r
  pub rest : List ℕ
  pub first : frames events ≡ stored_pcs r ++ rest
  pub all :
      (rest ≡ []) ⊎ ((r.code ≡ exceeds_max_pc_count) × (r.n_pcs ≡ 256)) ⊎ (r.code ≡ out_of_memory)

-- For every sequence of frames and errors that libbacktrace reports, with or without memory for a
-- larger buffer, `getSimpleBacktrace` returns, when it has its first buffer, without an access
-- outside of it; the capacity is a power of two of at most 256; the counters stored are the first
-- of those reported, and all of them unless there are more than 256 or there is no memory, which
-- the code then says
pub get_simple_backtrace-Collected :
    (junk : ℕ → ℕ) (events : List Event)
    → Returns (get_simple_backtrace true junk none events) (Collected events)
unfolding get_simple_backtrace
get_simple_backtrace-Collected junk events =
    let (r, run, s) =
      backtrace_simple-Stored events _
        (record { exponent = (0, omega arith, refl); fits = omega arith; sized = refl }) in
    (
      r,
      run,
      record {
        buffer = s.buffer;
        rest = s.rest;
        first = s.first ∙ ap (λ xs. xs ++ s.rest) (sym s.appended);
        all = s.all;
      },
    )
