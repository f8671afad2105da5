-- ===== src/Mapping/Lookup.antt =====
-- The loops of `lookup` and `lookupDistinct`: with an empty slot ahead they end, at a field with the
-- key or at the first empty slot.
use native.Mathlib.Nat.{mod-lt, pow-succ'}
use nballerina.Prelude.{
  ℕ, zero, suc, ◌+◌, ◌-◌, ◌*◌, ◌%◌, ◌^◌, ◌≤◌, ◌<◌, ◌≡◌, ◌⊎◌, inl, inr, refl, sym, ap, ◌∙◌, arith,
  Bool, true, false, ◌==◌, if◌then◌else◌, Option, none, some, Option-cases, Bool-cases, lt-or-le,
  le→leb,
}
use nballerina.Prelude.Int.{ℤ, pos, negsuc}
use nballerina.Array.{IsValid, map_field_shift, map_field_size_shift}
use nballerina.Array.Access.{load_within}
use nballerina.Array.Growth.{mul_mono}
use nballerina.Mapping.Slots.{
  back, back-zero, back-step, steps_to, back-steps_to, FreeAt, Placed, empty_slot, occupied,
}
use nballerina.Mapping.Table.{
  Key, Mapping, empty_marker, one_shl, fetch, step_back, lookup_loop, lookup, lookup_distinct_loop,
  lookup_distinct,
}
use nballerina.Run.{done, Returns}
use nballerina.Tagged.{TaggedPtr}

abbrev pub slot_count : Mapping → ℕ
slot_count m = 2 ^ m.table_length_shift

abbrev pub slots : Mapping → ℕ → Option ℕ
slots m i =
    if m.table.cell i == empty_marker (m.table_element_shift % 4)
    then none
    else some (m.table.cell i)

-- The table's block has all its elements, and an element has room for the index of every field.
pub record IsTable (m : Mapping) : Type 0 where
  pub narrow : m.table_length_shift ≤ 30
  pub some_slots : 2 ≤ m.table_length_shift
  pub element : m.table_element_shift ≤ 3
  pub roomy : m.table_length_shift ≤ 8 * 2 ^ m.table_element_shift + 1
  pub sized : m.table.size ≡ 2 ^ m.table_length_shift * 2 ^ m.table_element_shift

pub element-mod : (s : ℕ) → s ≤ 3 → s % 4 ≡ s
element-mod s h = omega arith

pub fetch-slots :
    (m : Mapping) (i : ℕ)
    → IsTable m
    → i < slot_count m
    → fetch m.table i m.table_element_shift ≡ done (slots m i)
unfolding fetch
fetch-slots m i v h = rw (
    le→leb ((i + 1) * 2 ^ (m.table_element_shift % 4)) m.table.size (
      rw (element-mod m.table_element_shift v.element) (
        omega (
          arith,
          v.sized,
          mul_mono (i + 1) (slot_count m) (2 ^ m.table_element_shift) (omega arith),
        ))))

module _ (n : ℕ) (t : ℕ → Option ℕ) (matches : ℕ → Bool) where
  -- `s` is the first empty slot, at most `d` steps from `i`, and no field before it matches
  abbrev pub Misses : (d i s : ℕ) → Type 0
  Misses d i s =
      (k : ℕ) × (k ≤ d)
      × (s ≡ back n i k)
      × (t s ≡ none)
      × ((e : ℕ) → e < k → (j : ℕ) × (t (back n i e) ≡ some j) × (matches j ≡ false))

  Misses-here : (d i : ℕ) → t i ≡ none → Misses d i i
  Misses-here d i free = (0, omega arith, sym (back-zero n i), free, λ e h. absurd (omega arith))

  Misses-step :
      (d i s j : ℕ)
      → i < n
      → suc d < n
      → t i ≡ some j
      → matches j ≡ false
      → Misses d (step_back (n - 1) i) s
      → Misses (suc d) i s
  Misses-step d i s j inside lt at miss (k, le, here, free, before) =
      (suc k, omega arith, here ∙ back-step n i k inside (omega arith), free, passed)
    where
      passed : (e : ℕ) → e < suc k → (j : ℕ) × (t (back n i e) ≡ some j) × (matches j ≡ false)
      passed zero h = (j, rw back-zero at, miss)
      passed (suc e) h =
          let (j', at', miss') = before e (omega arith) in
          (j', ap t (sym (back-step n i e inside (omega arith))) ∙ at', miss')

  -- how a lookup ends
  abbrev pub Outcome : (d i : ℕ) → ℤ → Type 0
  Outcome d i r =
      ((s : ℕ) × (r ≡ negsuc s) × Misses d i s)
      ⊎ ((j : ℕ) × (r ≡ pos j) × (matches j ≡ true) × (q : ℕ) × (q < n) × (t q ≡ some j))

  pub Outcome-step :
      (d i j : ℕ) (r : ℤ)
      → i < n
      → suc d < n
      → t i ≡ some j
      → matches j ≡ false
      → Outcome d (step_back (n - 1) i) r
      → Outcome (suc d) i r
  Outcome-step d i j r inside lt at miss (inl (s, e, misses)) =
      inl (s, e, Misses-step d i s j inside lt at miss misses)
  Outcome-step d i j r inside lt at miss (inr found) = inr found

-- the first empty slot after a miss
pub Misses-FreeAt :
    (n : ℕ) (t : ℕ → Option ℕ) (matches : ℕ → Bool) (d i s : ℕ)
    → d < n
    → Misses n t matches d i s
    → FreeAt t n i s
Misses-FreeAt n t matches d i s lt (k, le, here, free, before) =
    (k, omega arith, here, free, λ e h none_there. let (j, at, _) = before e h in cc)

-- a matching field is met before an empty slot
pub Misses-Placed :
    (n : ℕ) (t : ℕ → Option ℕ) (matches : ℕ → Bool) (d i s j : ℕ)
    → Misses n t matches d i s
    → Placed t n i j
    → matches j ≡ false
Misses-Placed n t matches d i s j (c, le, here, free, before) (c', lt', at', before') =
    elim (lt-or-le c' c) [
      | inl first ↦
          let (j', at, miss) = before c' first in
          let same : j' ≡ j = cc (at, at') in rw same at miss
      | inr later ↦ elim (lt-or-le c c') [
        | inl second ↦ absurd (before' c second (ap t (sym here) ∙ free))
        | inr none_later ↦
            let same : c ≡ c' = omega arith in
            let clash : none ≡ some j = sym free ∙ ap t (here ∙ ap (back n i) same) ∙ at' in cc
      ]
    ]

missed :
    (n : ℕ) (t : ℕ → Option ℕ) (d i : ℕ) (r : ℤ)
    → Outcome n t (λ _. false) d i r
    → (s : ℕ) × (r ≡ negsuc s) × Misses n t (λ _. false) d i s
missed n t d i r (inl out) = out
missed n t d i r (inr (j, e, hit, q, lt, at)) = cc

pow-pos : (w : ℕ) → 0 < 2 ^ w
pow-pos zero = omega arith
pow-pos (suc w) = rw pow-succ' (omega (arith, pow-pos w))

step_back-lt : (n i : ℕ) → i < n → step_back (n - 1) i < n
step_back-lt n i h = ground arith

pub slot_count-pos : (m : Mapping) → 0 < slot_count m
slot_count-pos m = pow-pos m.table_length_shift

pub one_shl-narrow : (n : ℕ) → n ≤ 30 → one_shl n ≡ done (2 ^ n)
unfolding one_shl
one_shl-narrow n h = rw (le→leb n 30 h)

-- whether field `j` has the key
abbrev pub has_key : Key → Mapping → TaggedPtr → ℕ → Bool
has_key key m k j = key.equal (m.fields.members.cell j).key k

module _ (m : Mapping) (table : IsTable m) where
  module _ (key : Key) (k : TaggedPtr) (fields : IsValid map_field_shift m.fields)
      (range : (s j : ℕ) → s < slot_count m → slots m s ≡ some j → j < m.fields.length) where
    lookup_loop-Outcome :
        (fuel i d : ℕ)
        → d < fuel
        → d < slot_count m
        → i < slot_count m
        → slots m (back (slot_count m) i d) ≡ none
        → Returns
            (lookup_loop key fuel m k (slot_count m - 1) i)
            (Outcome (slot_count m) (slots m) (has_key key m k) d i)
    unfolding lookup_loop
    lookup_loop-Outcome zero i d f lt inside free = absurd (omega arith)
    lookup_loop-Outcome (suc fuel) i zero f lt inside free =
        let e : slots m i ≡ none = rw back-zero at free in
        (
          negsuc i,
          rw (fetch-slots m i table inside, e),
          inl (i, refl, Misses-here _ (slots m) _ 0 i e),
        )
    lookup_loop-Outcome (suc fuel) i (suc d) f lt inside free = elim (Option-cases (slots m i)) [
      | inl e ↦ (
        negsuc i,
        rw (fetch-slots m i table inside, e),
        inl (i, refl, Misses-here _ (slots m) _ (suc d) i e),
      )
      | inr (j, e) ↦
          let loaded =
            load_within map_field_size_shift map_field_shift (omega arith) m.fields fields j
              (omega (arith, range i j inside e, fields.fits)) in
          elim (Bool-cases (has_key key m k j)) [
            | inl hit ↦ (
              pos j,
              rw (fetch-slots m i table inside, e, loaded, hit),
              inr (j, refl, hit, i, inside, e),
            )
            | inr miss ↦
                let n = slot_count m in
                let (r, run, out) =
                  lookup_loop-Outcome fuel (step_back (n - 1) i) d (omega arith) (omega arith)
                    (step_back-lt n i inside) (ap (slots m) (back-step n i d inside lt) ∙ free) in
                (
                  r,
                  rw (fetch-slots m i table inside, e, loaded, miss) run,
                  Outcome-step n (slots m) (has_key key m k) d i j r inside lt e miss out,
                )
          ]
    ]

    -- the lookup ends, whatever the hash, if a slot is empty
    pub lookup-Outcome :
        (hash : ℕ)
        → occupied (slots m) (slot_count m) < slot_count m
        → Returns (lookup key m k hash) (λ r.
          (d : ℕ) × (d < slot_count m)
          × Outcome (slot_count m) (slots m) (has_key key m k) d (hash % slot_count m) r)
    unfolding lookup
    lookup-Outcome hash few =
        let (s, inside, free) = empty_slot (slots m) (slot_count m) few in
        let home = mod-lt hash (slot_count-pos m) in
        let (lt, at) = back-steps_to (slot_count m) (hash % slot_count m) s home inside in
        let (r, run, out) =
          lookup_loop-Outcome (slot_count m) (hash % slot_count m)
            (steps_to (slot_count m) (hash % slot_count m) s) lt lt home (ap (slots m) at ∙ free) in
        (r, rw (one_shl-narrow m.table_length_shift table.narrow) run, (_, lt, out))

  lookup_distinct_loop-Outcome :
      (fuel i d : ℕ)
      → d < fuel
      → d < slot_count m
      → i < slot_count m
      → slots m (back (slot_count m) i d) ≡ none
      → Returns
          (lookup_distinct_loop fuel m (slot_count m - 1) i)
          (Outcome (slot_count m) (slots m) (λ _. false) d i)
  unfolding lookup_distinct_loop
  lookup_distinct_loop-Outcome zero i d f lt inside free = absurd (omega arith)
  lookup_distinct_loop-Outcome (suc fuel) i zero f lt inside free =
      let e : slots m i ≡ none = rw back-zero at free in
      (
        negsuc i,
        rw (fetch-slots m i table inside, e),
        inl (i, refl, Misses-here _ (slots m) _ 0 i e),
      )
  lookup_distinct_loop-Outcome (suc fuel) i (suc d) f lt inside free =
      elim (Option-cases (slots m i)) [
        | inl e ↦ (
          negsuc i,
          rw (fetch-slots m i table inside, e),
          inl (i, refl, Misses-here _ (slots m) _ (suc d) i e),
        )
        | inr (j, e) ↦
            let n = slot_count m in
            let (r, run, out) =
              lookup_distinct_loop-Outcome fuel (step_back (n - 1) i) d (omega arith) (omega arith)
                (step_back-lt n i inside) (ap (slots m) (back-step n i d inside lt) ∙ free) in
            (
              r,
              rw (fetch-slots m i table inside, e) run,
              Outcome-step n (slots m) (λ _. false) d i j r inside lt e refl out,
            )
      ]

  -- `lookupDistinct` on a table with fewer occupied slots than slots ends, at the first empty slot
  -- from the home of the hash
  pub lookup_distinct-FreeAt :
      (hash : ℕ)
      → occupied (slots m) (slot_count m) < slot_count m
      → (s : ℕ) × (lookup_distinct m hash ≡ done (negsuc s))
        × FreeAt (slots m) (slot_count m) (hash % slot_count m) s
  unfolding lookup_distinct
  lookup_distinct-FreeAt hash few =
      let n = slot_count m in
      let (s, inside, free) = empty_slot (slots m) n few in
      let home = mod-lt hash (slot_count-pos m) in
      let (lt, at) = back-steps_to n (hash % n) s home inside in
      let (r, run, out) =
        lookup_distinct_loop-Outcome n (hash % n) (steps_to n (hash % n) s) lt lt home
          (ap (slots m) at ∙ free) in
      let (s', e, miss) = missed n (slots m) _ (hash % n) r out in
      (
        s',
        rw (one_shl-narrow m.table_length_shift table.narrow) (run ∙ ap done e),
        Misses-FreeAt n (slots m) _ _ (hash % n) s' lt miss,
      )
