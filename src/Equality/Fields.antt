-- ===== src/Equality/Fields.antt =====
-- The loops over members and fields: when they say true, and that they end.
use nballerina.Prelude.{
  ℕ, zero, suc, ◌+◌, ◌≤◌, ◌<◌, ◌≡◌, inl, inr, refl, sym, ◌∙◌, arith, Bool, true, false, Option,
  none, some, lt-or-le,
}
use nballerina.Array.Access.{view}
use nballerina.Equality.{Memory, and_also, members_equal, fields_equal}
use nballerina.Mapping.Table.{Mapping}
use nballerina.Mapping.Valid.{get_spec, IsValid, lookup-get_spec, field_within}
use nballerina.Run.{Run, done, panicked, fault, diverged}
use nballerina.Tagged.{TaggedPtr}

-- whatever the call returns is true
abbrev pub OnlyTrue : Run Bool → Type 0
OnlyTrue run = (r : Bool) → run ≡ done r → r ≡ true

abbrev pub Ends : Run Bool → Type 0
Ends run = (r : Bool) × (run ≡ done r)

pub done_true : OnlyTrue (done true)
done_true r e = cc

and_also-true :
    (equal rest : Run Bool)
    → and_also equal rest ≡ done true
    → (equal ≡ done true) × (rest ≡ done true)
unfolding and_also
and_also-true (done true) rest e = (refl, e)
and_also-true (done false) rest e = cc
and_also-true (panicked c) rest e = cc
and_also-true fault rest e = cc
and_also-true diverged rest e = cc

and_also-OnlyTrue :
    (equal rest : Run Bool) → OnlyTrue equal → OnlyTrue rest → OnlyTrue (and_also equal rest)
unfolding and_also
and_also-OnlyTrue (done true) rest h k r e = k r e
and_also-OnlyTrue (done false) rest h k r e = cc (h false refl)
and_also-OnlyTrue (panicked c) rest h k r e = cc
and_also-OnlyTrue fault rest h k r e = cc
and_also-OnlyTrue diverged rest h k r e = cc

and_also-Ends : (equal rest : Run Bool) → Ends equal → Ends rest → Ends (and_also equal rest)
unfolding and_also
and_also-Ends equal rest (true, e) (r, k) = (r, rw (e, k))
and_also-Ends equal rest (false, e) (r, k) = (false, rw e)

module _ (memory : Memory) (equal : TaggedPtr → TaggedPtr → Run Bool) where
  module _ (a b : TaggedPtr) where
    pub members_equal-true :
        (rounds lo : ℕ)
        → members_equal memory equal a b rounds lo ≡ done true
        → (i : ℕ) → lo ≤ i
        → i < lo + rounds
        → equal (memory.get a i) (memory.get b i) ≡ done true
    unfolding members_equal
    members_equal-true zero lo run i h k = absurd (omega arith)
    members_equal-true (suc rounds) lo run i h k =
        let (here, rest) =
          and_also-true (equal (memory.get a lo) (memory.get b lo))
            (members_equal memory equal a b rounds (suc lo)) run in
        elim (lt-or-le lo i) [
          | inl later ↦ members_equal-true rounds (suc lo) rest i later (omega arith)
          | inr now ↦ let e : i ≡ lo = omega arith in rw e here
        ]

    pub members_equal-OnlyTrue :
        (rounds lo : ℕ)
        → ((i : ℕ) → lo ≤ i → i < lo + rounds → OnlyTrue (equal (memory.get a i) (memory.get b i)))
        → OnlyTrue (members_equal memory equal a b rounds lo)
    unfolding members_equal
    members_equal-OnlyTrue zero lo each = done_true
    members_equal-OnlyTrue (suc rounds) lo each =
        and_also-OnlyTrue _ _ (each lo (omega arith) (omega arith))
          (members_equal-OnlyTrue rounds (suc lo) (λ i h k. each i (omega arith) (omega arith)))

    pub members_equal-Ends :
        (rounds lo : ℕ)
        → ((i : ℕ) → lo ≤ i → i < lo + rounds → Ends (equal (memory.get a i) (memory.get b i)))
        → Ends (members_equal memory equal a b rounds lo)
    unfolding members_equal
    members_equal-Ends zero lo each = (true, refl)
    members_equal-Ends (suc rounds) lo each =
        and_also-Ends _ _ (each lo (omega arith) (omega arith))
          (members_equal-Ends rounds (suc lo) (λ i h k. each i (omega arith) (omega arith)))

  module _ (m₁ m₂ : Mapping) (valid₁ : IsValid memory.key m₁) (valid₂ : IsValid memory.key m₂) where
    -- the value in the second mapping of the key of a field of the first
    abbrev pub partner : ℕ → Option TaggedPtr
    partner i = get_spec memory.key (m₁.fields.members.cell i).key (view m₂.fields)

    -- the comparison with the partner, if there is one
    abbrev partner_equal : ℕ → Option TaggedPtr → Run Bool → Run Bool
    partner_equal i none rest = done false
    partner_equal i (some v) rest = and_also (equal (m₁.fields.members.cell i).value v) rest

    fields_equal-partner :
        (rounds i : ℕ)
        → i < m₁.fields.length
        → fields_equal memory equal m₁ m₂ (suc rounds) i
          ≡ partner_equal i (partner i) (fields_equal memory equal m₁ m₂ rounds (suc i))
    unfolding fields_equal
    fields_equal-partner rounds i inside =
        elim (lookup-get_spec memory.key m₂ (m₁.fields.members.cell i).key valid₂) [
          | inl (j, run, within, at) ↦ rw (
            field_within memory.key m₁ valid₁ i inside,
            run,
            field_within memory.key m₂ valid₂ j within,
            at,
          )
          | inr (s, run, at) ↦ rw (field_within memory.key m₁ valid₁ i inside, run, at)
        ]

    partner_equal-true :
        (i : ℕ) (o : Option TaggedPtr) (rest : Run Bool)
        → partner_equal i o rest ≡ done true
        → ((v : TaggedPtr) × (o ≡ some v) × (equal (m₁.fields.members.cell i).value v ≡ done true))
          × (rest ≡ done true)
    partner_equal-true i none rest e = cc
    partner_equal-true i (some v) rest e =
        let (here, later) = and_also-true _ _ e in ((v, refl, here), later)

    pub fields_equal-true :
        (rounds lo : ℕ)
        → lo + rounds ≤ m₁.fields.length
        → fields_equal memory equal m₁ m₂ rounds lo ≡ done true
        → (i : ℕ) → lo ≤ i
        → i < lo + rounds
        → (v : TaggedPtr) × (partner i ≡ some v)
          × (equal (m₁.fields.members.cell i).value v ≡ done true)
    fields_equal-true zero lo bound run i h k = absurd (omega arith)
    fields_equal-true (suc rounds) lo bound run i h k =
        let (here, rest) =
          partner_equal-true lo (partner lo) _
            (sym (fields_equal-partner rounds lo (omega arith)) ∙ run) in
        elim (lt-or-le lo i) [
          | inl later ↦ fields_equal-true rounds (suc lo) (omega arith) rest i later (omega arith)
          | inr now ↦ let e : i ≡ lo = omega arith in rw e here
        ]

    pub fields_equal-OnlyTrue :
        (rounds lo : ℕ)
        → lo + rounds ≤ m₁.fields.length
        → ((i : ℕ)
            → lo ≤ i
            → i < lo + rounds
            → (v : TaggedPtr) × (partner i ≡ some v)
              × OnlyTrue (equal (m₁.fields.members.cell i).value v))
        → OnlyTrue (fields_equal memory equal m₁ m₂ rounds lo)
    unfolding fields_equal
    fields_equal-OnlyTrue zero lo bound each = done_true
    fields_equal-OnlyTrue (suc rounds) lo bound each =
        let (v, at, here) = each lo (omega arith) (omega arith) in
        rw (fields_equal-partner rounds lo (omega arith), at)
          (and_also-OnlyTrue _ _ here (
            fields_equal-OnlyTrue rounds (suc lo) (omega arith)
              (λ i h k. each i (omega arith) (omega arith))))

    pub fields_equal-Ends :
        (rounds lo : ℕ)
        → lo + rounds ≤ m₁.fields.length
        → ((i j : ℕ)
            → i < m₁.fields.length
            → j < m₂.fields.length
            → Ends (equal (m₁.fields.members.cell i).value (m₂.fields.members.cell j).value))
        → Ends (fields_equal memory equal m₁ m₂ rounds lo)
    unfolding fields_equal
    fields_equal-Ends zero lo bound each = (true, refl)
    fields_equal-Ends (suc rounds) lo bound each =
        elim (lookup-get_spec memory.key m₂ (m₁.fields.members.cell lo).key valid₂) [
          | inl (j, run, within, at) ↦
              rw
                (
                  field_within memory.key m₁ valid₁ lo (omega arith),
                  run,
                  field_within memory.key m₂ valid₂ j within,
                )
                (and_also-Ends _ _ (each lo j (omega arith) within)
                  (fields_equal-Ends rounds (suc lo) (omega arith) each))
          | inr (s, run, at) ↦ (false, rw (field_within memory.key m₁ valid₁ lo (omega arith), run))
        ]
