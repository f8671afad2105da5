-- ===== src/Mapping/Spec.antt =====
-- A store into the list of fields, and what it does where a field with the key is first, or is missing.
use nballerina.Prelude.{
  ℕ, zero, suc, ◌+◌, ◌≤◌, ◌<◌, ◌≡◌, refl, ap, arith, false, true, ltb, if◌then◌else◌, ◌==◌, ==_refl,
  Option, none, some, lt-or-le, inl, inr, List, [], ◌∷◌, ◌++◌, update, cells_from, cells_from_ext,
}
use nballerina.Mapping.Methods.{MappingDesc}
use nballerina.Mapping.Table.{Key, MapField}
use nballerina.MemberType.{MemberType, member_type_contains_tagged}
use nballerina.Run.{PanicCode, panic_mapping_store}
use nballerina.Tagged.{TaggedPtr, store_panic_code}

module _ (key : Key) (k : TaggedPtr) where
  -- the place of the first field with an equal key, the first field of the list at place `i`
  unfoldable pub place_spec : ℕ → List MapField → Option ℕ
  place_spec i [] = none
  place_spec i (f ∷ fs) = if key.equal f.key k then some i else place_spec (suc i) fs

  -- a new value for the first field with an equal key, or a new field at the end
  unfoldable pub put_spec : TaggedPtr → List MapField → List MapField
  put_spec value [] = record { key = k; value = value } ∷ []
  put_spec value (f ∷ fs) =
      if key.equal f.key k
      then record { key = f.key; value = value } ∷ fs
      else f ∷ put_spec value fs

  module _ {H : Type 0} where
    -- the type of the values at a place, or at a new one
    unfoldable pub type_at : MappingDesc H → Option ℕ → MemberType H
    type_at desc none = desc.rest_type
    type_at desc (some i) = if ltb i desc.n_fields then desc.field_types i else desc.rest_type

    -- the code and the fields after a store
    unfoldable pub set_spec :
        (p : TaggedPtr) → MappingDesc H → H → TaggedPtr → List MapField → PanicCode × List MapField
    set_spec p desc h value fs =
        if member_type_contains_tagged (type_at desc (place_spec 0 fs)) h value
        then (0, put_spec value fs)
        else (store_panic_code p panic_mapping_store, fs)

    module _ (p : TaggedPtr) (desc : MappingDesc H) (h : H) (value : TaggedPtr) (fs : List MapField)
        (place : Option ℕ) (at : place_spec 0 fs ≡ place) where
      pub set_spec-allowed :
          member_type_contains_tagged (type_at desc place) h value ≡ true
          → set_spec p desc h value fs ≡ (0, put_spec value fs)
      unfolding set_spec
      set_spec-allowed ok = rw (at, ok)

      pub set_spec-refused :
          member_type_contains_tagged (type_at desc place) h value ≡ false
          → set_spec p desc h value fs ≡ (store_panic_code p panic_mapping_store, fs)
      unfolding set_spec
      set_spec-refused bad = rw (at, bad)

  pub place_spec-missing :
      (n lo : ℕ) (f : ℕ → MapField)
      → ((j : ℕ) → lo ≤ j → j < lo + n → key.equal (f j).key k ≡ false)
      → place_spec lo (cells_from n lo f) ≡ none
  unfolding place_spec
  place_spec-missing zero lo f h = refl
  place_spec-missing (suc n) lo f h =
      rw (h lo (omega arith) (omega arith))
        (place_spec-missing n (suc lo) f (λ j p q. h j (omega arith) (omega arith)))

  pub put_spec-missing :
      (value : TaggedPtr) (n lo : ℕ) (f : ℕ → MapField)
      → ((j : ℕ) → lo ≤ j → j < lo + n → key.equal (f j).key k ≡ false)
      → put_spec value (cells_from n lo f)
        ≡ cells_from n lo f ++ record { key = k; value = value } ∷ []
  unfolding put_spec
  put_spec-missing value zero lo f h = refl
  put_spec-missing value (suc n) lo f h = rw (h lo (omega arith) (omega arith)) (
      ap (◌∷◌ (f lo))
        (put_spec-missing value n (suc lo) f (λ j p q. h j (omega arith) (omega arith))))

  -- field `j` is the first one of those from `lo` on that has the key
  abbrev pub First : (f : ℕ → MapField) (n lo j : ℕ) → Type 0
  First f n lo j =
      (lo ≤ j)
      × (j < lo + n)
      × (key.equal (f j).key k ≡ true)
      × ((i : ℕ) → i < j → key.equal (f i).key k ≡ false)

  pub place_spec-First :
      (n lo j : ℕ) (f : ℕ → MapField) → First f n lo j → place_spec lo (cells_from n lo f) ≡ some j
  unfolding place_spec
  place_spec-First zero lo j f (p, q, hit, before) = absurd (omega arith)
  place_spec-First (suc n) lo j f (p, q, hit, before) = elim (lt-or-le lo j) [
    | inl more ↦
        rw (before lo more)
          (place_spec-First n (suc lo) j f (omega arith, omega arith, hit, before))
    | inr here ↦ let same : lo ≡ j = omega arith in rw (same, hit)
  ]

  pub put_spec-First :
      (value : TaggedPtr) (n lo j : ℕ) (f : ℕ → MapField)
      → First f n lo j
      → put_spec value (cells_from n lo f)
        ≡ cells_from n lo (update f j (record { key = (f j).key; value = value }))
  unfolding put_spec
  put_spec-First value zero lo j f (p, q, hit, before) = absurd (omega arith)
  put_spec-First value (suc n) lo j f (p, q, hit, before) = elim (lt-or-le lo j) [
    | inl more ↦
        let other : (j == lo) ≡ false = ground arith in
        rw (before lo more, other)
          (ap (◌∷◌ (f lo))
            (put_spec-First value n (suc lo) j f (omega arith, omega arith, hit, before)))
    | inr here ↦
        let same : lo ≡ j = omega arith in
        rw (same, hit, ==_refl)
          (ap (◌∷◌ (record { key = (f j).key; value = value })) (
            cells_from_ext n (suc j) f (update f j (record { key = (f j).key; value = value }))
              (λ i p q. ground arith)))
  ]
