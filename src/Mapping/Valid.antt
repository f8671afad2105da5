-- ===== src/Mapping/Valid.antt =====
-- Valid mappings: what a lookup finds, and `_bal_mapping_get` against the list of fields.
use native.Mathlib.Nat.{pow-succ'}
use nballerina.Prelude.{
  ℕ, zero, suc, ◌+◌, ◌-◌, ◌*◌, ◌%◌, ◌^◌, ◌≤◌, ◌<◌, ◌≡◌, ◌⊎◌, inl, inr, refl, ap, ◌∙◌, arith, true,
  false, if◌then◌else◌, Option, none, some, Bool-cases, lt-or-le, List, [], ◌∷◌, cells_from,
}
use nballerina.Array as Arrays
use nballerina.Prelude.Int.{ℤ, pos, negsuc}
use nballerina.Array.{load, map_field_shift, map_field_size_shift}
use nballerina.Array.Access.{view, load_within}
use nballerina.Mapping.Lookup.{
  slot_count, slots, IsTable, has_key, Misses, Misses-Placed, Misses-FreeAt, Outcome,
  lookup-Outcome,
}
use nballerina.Mapping.Methods.{mapping_get}
use nballerina.Mapping.Slots.{FreeAt, Holds, occupied}
use nballerina.Mapping.Table.{Key, MapField, Mapping, lookup}
use nballerina.Run.{done, Returns}
use nballerina.Tagged.{TaggedPtr}

-- where field `j` starts to be looked for
abbrev pub home : Key → Mapping → ℕ → ℕ
home key m j = key.hash (m.fields.members.cell j).key % slot_count m

-- The table finds every field, is less than half full, and no two fields have equal keys.
pub record IsValid (key : Key) (m : Mapping) : Type 0 where
  pub fields : Arrays.IsValid map_field_shift m.fields
  pub table : IsTable m
  pub half : m.fields.length < 2 ^ (m.table_length_shift - 1)
  pub holds : Holds (slot_count m) (home key m) m.fields.length (slots m)
  pub distinct :
      (i j : ℕ)
      → i < j
      → j < m.fields.length
      → key.equal (m.fields.members.cell i).key (m.fields.members.cell j).key ≡ false

pub half-slot_count : (m : Mapping) → IsTable m → slot_count m ≡ 2 * 2 ^ (m.table_length_shift - 1)
half-slot_count m t =
    let e : m.table_length_shift ≡ suc (m.table_length_shift - 1) = omega (arith, t.some_slots) in
    ap (λ k. 2 ^ k) e ∙ pow-succ' 2 (m.table_length_shift - 1)

module _ (key : Key) (m : Mapping) (valid : IsValid key m) (k : TaggedPtr) where
  pub few_occupied : occupied (slots m) (slot_count m) < slot_count m
  few_occupied = omega (arith, half-slot_count m valid.table, valid.holds.few, valid.half)

  -- A lookup finds the field with the key, or says where it belongs when there is none.
  unfoldable pub Finds : ℤ → Type 0
  Finds r =
      ((j : ℕ) × (r ≡ pos j) × (j < m.fields.length) × (has_key key m k j ≡ true))
      ⊎ ((s : ℕ) × (r ≡ negsuc s)
          × FreeAt (slots m) (slot_count m) (key.hash k % slot_count m) s
          × ((j : ℕ) → j < m.fields.length → has_key key m k j ≡ false))

  same_home : (j : ℕ) → has_key key m k j ≡ true → home key m j ≡ key.hash k % slot_count m
  same_home j hit = ap (λ h. h % slot_count m) (key.hash-equal _ k hit)

  not_missed :
      (d s j : ℕ)
      → Misses (slot_count m) (slots m) (has_key key m k) d (key.hash k % slot_count m) s
      → j < m.fields.length
      → has_key key m k j ≡ false
  not_missed d s j miss inside = elim (Bool-cases (has_key key m k j)) [
    | inr no_hit ↦ no_hit
    | inl hit ↦
        Misses-Placed (slot_count m) (slots m) (has_key key m k) d (key.hash k % slot_count m) s j
          miss (rw (same_home j hit) at (valid.holds.placed j inside))
  ]

  -- On a valid mapping `lookup` ends within as many rounds as the table has slots, either with the
  -- index of a field that has the key, or with the first empty slot from the home of the key, and
  -- then no field has the key
  pub lookup-Finds : Returns (lookup key m k (key.hash k)) Finds
  unfolding Finds
  lookup-Finds =
      let (r, run, (d, lt, out)) =
        lookup-Outcome m valid.table key k valid.fields valid.holds.range (key.hash k)
          few_occupied in
      (r, run, found d r lt out)
    where
      found :
          (d : ℕ) (r : ℤ)
          → d < slot_count m
          → Outcome (slot_count m) (slots m) (has_key key m k) d (key.hash k % slot_count m) r
          → Finds r
      found d r lt (inl (s, e, miss)) = inr (
        s,
        e,
        Misses-FreeAt (slot_count m) (slots m) _ d _ s lt miss,
        λ j h. not_missed d s j miss h,
      )
      found d r lt (inr (j, e, hit, q, at_slot, at)) =
          inl (j, e, valid.holds.range q j at_slot at, hit)

-- the value of the first field with an equal key, by a walk over the fields
pub get_spec : Key → TaggedPtr → List MapField → Option TaggedPtr
get_spec key k [] = none
get_spec key k (f ∷ fs) = if key.equal f.key k then some f.value else get_spec key k fs

get_spec-missing :
    (key : Key) (k : TaggedPtr) (n lo : ℕ) (f : ℕ → MapField)
    → ((j : ℕ) → lo ≤ j → j < lo + n → key.equal (f j).key k ≡ false)
    → get_spec key k (cells_from n lo f) ≡ none
unfolding get_spec
get_spec-missing key k zero lo f h = refl
get_spec-missing key k (suc n) lo f h =
    rw (h lo (omega arith) (omega arith))
      (get_spec-missing key k n (suc lo) f (λ j p q. h j (omega arith) (omega arith)))

get_spec-first :
    (key : Key) (k : TaggedPtr) (n lo j : ℕ) (f : ℕ → MapField)
    → lo ≤ j
    → j < lo + n
    → key.equal (f j).key k ≡ true
    → ((i : ℕ) → i < j → key.equal (f i).key k ≡ false)
    → get_spec key k (cells_from n lo f) ≡ some ((f j).value)
unfolding get_spec
get_spec-first key k zero lo j f p q hit before = absurd (omega arith)
get_spec-first key k (suc n) lo j f p q hit before = elim (lt-or-le lo j) [
  | inl more ↦
      rw (before lo more)
        (get_spec-first key k n (suc lo) j f (omega arith) (omega arith) hit before)
  | inr here ↦ let same : lo ≡ j = omega arith in rw (same, hit)
]

-- fields before one with the key do not have it
pub distinct-before :
    (key : Key) (m : Mapping) (k : TaggedPtr) (j : ℕ)
    → IsValid key m
    → j < m.fields.length
    → has_key key m k j ≡ true
    → (i : ℕ) → i < j
    → has_key key m k i ≡ false
distinct-before key m k j valid inside hit i lt = elim (Bool-cases (has_key key m k i)) [
  | inr miss ↦ miss
  | inl other ↦
      let equal = key.equal_trans _ k _ other (key.equal_symm _ k hit) in
      cc (valid.distinct i j lt inside)
]

-- what `lookup` finds is the first field with the key
pub lookup-get_spec :
    (key : Key) (m : Mapping) (k : TaggedPtr)
    → IsValid key m
    → ((j : ℕ) × (lookup key m k (key.hash k) ≡ done (pos j))
        × (j < m.fields.length)
        × (get_spec key k (view m.fields) ≡ some ((m.fields.members.cell j).value)))
      ⊎ ((s : ℕ) × (lookup key m k (key.hash k) ≡ done (negsuc s))
          × (get_spec key k (view m.fields) ≡ none))
unfolding Finds
lookup-get_spec key m k valid =
    let (r, run, found) = lookup-Finds key m valid k in
    elim found [
      | inl (j, e, inside, hit) ↦ inl (
        j,
        run ∙ ap done e,
        inside,
        get_spec-first key k m.fields.length 0 j m.fields.members.cell (omega arith) (omega arith)
            hit (distinct-before key m k j valid inside hit),
      )
      | inr (s, e, free, missing) ↦ inr (
        s,
        run ∙ ap done e,
        get_spec-missing key k m.fields.length 0 m.fields.members.cell
            (λ j p q. missing j (omega arith)),
      )
    ]

-- the first field with the key of a field is that field
pub get_spec-own :
    (key : Key) (m : Mapping) (i : ℕ)
    → IsValid key m
    → i < m.fields.length
    → get_spec key (m.fields.members.cell i).key (view m.fields)
      ≡ some ((m.fields.members.cell i).value)
get_spec-own key m i valid inside =
    get_spec-first key (m.fields.members.cell i).key m.fields.length 0 i m.fields.members.cell
      (omega arith) (omega arith) (key.equal_refl _)
      (distinct-before key m (m.fields.members.cell i).key i valid inside (key.equal_refl _))

pub field_within :
    (key : Key) (m : Mapping)
    → IsValid key m
    → (j : ℕ) → j < m.fields.length
    → load m.fields map_field_size_shift j ≡ done (m.fields.members.cell j)
field_within key m valid j inside =
    load_within map_field_size_shift map_field_shift (omega arith) m.fields valid.fields j
      (omega (arith, valid.fields.fits))

-- On a valid mapping `_bal_mapping_get` returns the value of the first field with an equal key, as
-- a walk over the list of fields finds it, and null if there is none
pub mapping_get-get_spec :
    (key : Key) (junk : ℕ → MapField) (m : Mapping) (k : TaggedPtr)
    → IsValid key m
    → mapping_get key junk m k ≡ done (get_spec key k (view m.fields))
unfolding mapping_get
mapping_get-get_spec key junk m k valid = elim (lookup-get_spec key m k valid) [
  | inl (j, run, inside, first) ↦ rw (run, field_within key m valid j inside, first)
  | inr (s, run, missing) ↦ rw (run, missing)
]
