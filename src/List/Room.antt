-- ===== src/List/Room.antt =====
-- Room for a member at an index: `make_room` returns a valid array that reaches past the index, or
-- the code of an index that no array can have.
use nballerina.Prelude.{
  ℕ, ◌+◌, ◌≤◌, ◌<◌, ◌≡◌, ◌≢◌, refl, ap, ◌∙◌, arith, Bool-cases, inl, inr, leb, ◌==◌, if◌then◌else◌,
  le→leb, lt→leb, leb→le, leb-false, cells, cells_ext, ne→==,
}
use nballerina.Array.{GenericArray, IsValid, array_length_max}
use nballerina.Array.Access.{view}
use nballerina.Array.Growth.{array_grow-Grown}
use nballerina.List.Stores.{make_room}
use nballerina.Run.{done, Returns, PanicCode, panic_index_out_of_bounds, panic_list_too_long}
use nballerina.Word.{is_negative}

pub cells_resize {ℓ} : {A : Type ℓ} {n m : ℕ} (f : ℕ → A) → n ≡ m → cells n f ≡ cells m f
cells_resize f e = ap (λ k. cells k f) e

-- the code of an index that no array can have
abbrev pub no_room : ℕ → PanicCode
no_room index = if is_negative index then panic_index_out_of_bounds else panic_list_too_long

pub no_room-ne-zero : (index : ℕ) → no_room index ≢ 0
no_room-ne-zero index e = elim (Bool-cases (is_negative index)) [
  | inl n ↦ ground (arith, n)
  | inr n ↦ ground (arith, n)
]

pub too_long {ℓ} :
    {B : Type ℓ} (code : PanicCode) → code ≢ 0 → (a b : B) → (if code == 0 then a else b) ≡ b
too_long code n a b = rw (ne→== code 0 n)

-- the room for one more member, when the index is in range
pub record Roomy {A : Type 0} (shift index : ℕ) (arr : GenericArray A)
    (r : PanicCode × GenericArray A) : Type 0 where
  pub code : r.0 ≡ 0
  pub valid : IsValid shift r.1
  pub room : index < r.1.capacity
  pub length : r.1.length ≡ arr.length
  pub kept : view r.1 ≡ view arr

module _ {A : Type 0} (junk : ℕ → A) (shift : ℕ) (narrow : shift ≤ 4) (index : ℕ)
    (arr : GenericArray A) (v : IsValid shift arr) where
  pub make_room_too_long :
      array_length_max ≤ index
      → make_room junk shift index arr
        ≡ done (if is_negative index then panic_index_out_of_bounds else panic_list_too_long, arr)
  unfolding make_room
  make_room_too_long h = rw (le→leb _ _ h, le→leb arr.capacity index (omega arith))

  pub make_room-Roomy :
      index < array_length_max → Returns (make_room junk shift index arr) (Roomy shift index arr)
  unfolding make_room
  make_room-Roomy h = elim (Bool-cases (leb arr.capacity index)) [
    | inl e ↦
        let (r, run, g) =
          array_grow-Grown junk shift narrow (index + 1) arr v (omega arith)
            (omega (arith, leb→le _ _ e)) in
        (
          (0, r),
          rw (e, lt→leb _ _ h, run),
          record {
            code = refl;
            valid = g.valid;
            room = omega (arith, g.enough);
            length = g.length;
            kept = cells_resize _ g.length ∙ cells_ext arr.length _ _ g.kept;
          },
        )
    | inr e ↦ (
      (0, arr),
      rw e,
      record { code = refl; valid = v; room = leb-false _ _ e; length = refl; kept = refl },
    )
  ]
