-- ===== src/Mapping/Slots.antt =====
-- Slots of a table, as a function from positions to field indices: walking back round the table, the
-- number of occupied slots, and a field that can be found from its home.
use nballerina.Prelude.{
  ℕ, zero, suc, ◌+◌, ◌-◌, ◌≤◌, ◌<◌, ◌≡◌, ◌≢◌, inl, inr, refl, arith, leb, ◌==◌, if◌then◌else◌,
  Option, none, some, update, Option-cases, Bool-cases, ==_refl, ==_iff, lt-or-le,
}
use nballerina.Mapping.Table.{step_back}

-- `d` steps back from `i` in a table of `n` slots
unfoldable pub back : (n i d : ℕ) → ℕ
back n i d = if leb d i then i - d else i + n - d

module _ (n : ℕ) where
  pub back-lt : (i d : ℕ) → i < n → d < n → back n i d < n
  unfolding back
  back-lt i d h k = ground arith

  pub back-zero : (i : ℕ) → back n i 0 ≡ i
  unfolding back
  back-zero i = ground arith

  pub back-step : (i d : ℕ) → i < n → suc d < n → back n (step_back (n - 1) i) d ≡ back n i (suc d)
  unfolding back
  back-step i d h k = ground arith

  -- every slot is met on the way round
  pub steps_to : (i s : ℕ) → ℕ
  steps_to i s = if leb s i then i - s else i + n - s

  pub back-steps_to : (i s : ℕ) → i < n → s < n → (steps_to i s < n) × (back n i (steps_to i s) ≡ s)
  unfolding back steps_to
  back-steps_to i s h k = ground arith

  pub back_injective : (i d e : ℕ) → i < n → d < n → e < n → back n i d ≡ back n i e → d ≡ e
  unfolding back
  back_injective i d e h p q eq = ground arith

-- how many of the first `n` slots are occupied
unfoldable pub occupied : (ℕ → Option ℕ) → ℕ → ℕ
occupied t zero = 0
occupied t (suc n) = elim (t n) [ none ↦ 0 | some _ ↦ 1 ] + occupied t n

-- with fewer occupied slots than slots, one is empty
pub empty_slot : (t : ℕ → Option ℕ) (n : ℕ) → occupied t n < n → (s : ℕ) × (s < n) × (t s ≡ none)
unfolding occupied
empty_slot t zero h = absurd (omega arith)
empty_slot t (suc n) h = elim (Option-cases (t n)) [
  | inl e ↦ (n, omega arith, e)
  | inr (k, e) ↦ let (s, lt, p) = empty_slot t n (ground arith) in (s, omega arith, p)
]

occupied-update_out :
    (t : ℕ → Option ℕ) (n s v : ℕ) → n ≤ s → occupied (update t s (some v)) n ≡ occupied t n
unfolding occupied
occupied-update_out t zero s v h = refl
occupied-update_out t (suc n) s v h = ground (arith, occupied-update_out t n s v)

pub occupied-update :
    (t : ℕ → Option ℕ) (n s v : ℕ) → occupied (update t s (some v)) n ≤ occupied t n + 1
unfolding occupied
occupied-update t zero s v = omega arith
occupied-update t (suc n) s v = elim (Bool-cases (s == n)) [
  | inl e ↦ rw e (ground (arith, occupied-update_out t n s v))
  | inr e ↦ rw e (ground (arith, occupied-update t n s v))
]

pub occupied-empty : (n : ℕ) → occupied (λ _. none) n ≡ 0
unfolding occupied
occupied-empty zero = refl
occupied-empty (suc n) = omega (arith, occupied-empty n)

module _ (t : ℕ → Option ℕ) (n i : ℕ) where
  -- field `j` stands `d` steps from `i`, and no slot before it is empty
  abbrev pub Placed : ℕ → Type 0
  Placed j =
      (d : ℕ) × (d < n) × (t (back n i d) ≡ some j) × ((e : ℕ) → e < d → t (back n i e) ≢ none)

  -- `s` is the first empty slot from `i` on
  abbrev pub FreeAt : ℕ → Type 0
  FreeAt s =
      (d : ℕ) × (d < n)
      × (s ≡ back n i d)
      × (t s ≡ none)
      × ((e : ℕ) → e < d → t (back n i e) ≢ none)

-- A table of `n` slots that holds the fields below `len`, field `j` at home in `home j`.
pub record Holds (n : ℕ) (home : ℕ → ℕ) (len : ℕ) (t : ℕ → Option ℕ) : Type 0 where
  pub placed : (j : ℕ) → j < len → Placed t n (home j) j
  pub few : occupied t n ≤ len
  pub range : (s k : ℕ) → s < n → t s ≡ some k → k < len

pub Holds-empty : (n : ℕ) (home : ℕ → ℕ) → Holds n home 0 (λ _. none)
Holds-empty n home = record {
  placed = λ j h. absurd (omega arith);
  few = omega (arith, occupied-empty n);
  range = λ s k h e. cc;
}

module _ (n : ℕ) (home : ℕ → ℕ) (len : ℕ) (t : ℕ → Option ℕ) (holds : Holds n home len t) where
  kept_occupied : (s v q : ℕ) → t q ≢ none → update t s (some v) q ≢ none
  kept_occupied s v q h e = elim (Bool-cases (s == q)) [
    | inl k ↦ cc (rw k at e)
    | inr k ↦ h (rw k at e)
  ]

  self : (s : ℕ) → update t s (some len) s ≡ some len
  self s = rw ==_refl

  other : {j : ℕ} (s q : ℕ) → t s ≡ none → t q ≡ some j → update t s (some len) q ≡ some j
  other s q free at = elim (Bool-cases (s == q)) [
    | inl k ↦ let e : s ≡ q = (==_iff s q).0 k in cc
    | inr k ↦ rw k at
  ]

  pub insert-Holds :
      (s : ℕ)
      → home len < n
      → FreeAt t n (home len) s
      → Holds n home (suc len) (update t s (some len))
  insert-Holds s inside (d, lt, at, free, before) = record {
    placed = λ j h. elim (lt-or-le j len) [
      | inl old ↦
          let (d', lt', at', before') = holds.placed j old in
          (d', lt', other s _ free at', λ e p. kept_occupied s len _ (before' e p))
      | inr new ↦
          let same : j ≡ len = omega arith in
          rw same (d, lt, rw (← at) (self s), λ e p. kept_occupied s len _ (before e p))
    ];
    few = omega (arith, occupied-update t n s len, holds.few);
    range = λ q k h e. ground (arith, holds.range q k h);
  }

-- only the homes of the fields that are held matter
pub Holds-ext :
    (n : ℕ) (home home' : ℕ → ℕ) (len : ℕ) (t : ℕ → Option ℕ)
    → ((j : ℕ) → j < len → home j ≡ home' j)
    → Holds n home len t
    → Holds n home' len t
Holds-ext n home home' len t same holds = record {
  placed = λ j h. rw (same j h) at (holds.placed j h);
  few = holds.few;
  range = holds.range;
}
