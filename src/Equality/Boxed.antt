-- ===== src/Equality/Boxed.antt =====
-- The members of one list read through two pointers: the boxes differ, what they hold does not.
use nballerina.Prelude.{
  ℕ, zero, suc, ◌%◌, ◌^◌, ◌<◌, ◌≡◌, inl, inr, refl, sym, ap, ◌∙◌, arith, Bool, true, false, ◌==◌,
  ◌&&◌, ◌||◌, Bool-cases, ==_iff, ==_refl, subst,
}
use nballerina.Array.{load, tagged_ptr_shift, byte_shift}
use nballerina.Decimal.{Number}
use nballerina.Equality.{scalar_eq}
use nballerina.Equality.Alike.{Alike, Alike-refl, scalars, same, is_structure}
use nballerina.Equality.Heap.{
  is_nan, ordered_equal, float_eq, float_exact_eq, Heap, ListMembers, generic_members, int_members,
  byte_members, float_members, get_tagged, int_boxes, float_boxes, memory_of, pointer_made,
}
use nballerina.List.Reads.{
  list_int_array_get_int, list_byte_array_get_int, list_float_array_get_float,
}
use nballerina.Run.{Run, done, panicked, fault, diverged, ◌>>=◌}
use nballerina.Tagged.{TaggedPtr, get_tag, tag_int, tag_float, ptr_add_shifted_tag, tagged_to_ptr}
use nballerina.Tagged.Ints.{IsAligned, int_to_tagged, box_int, immediate_int_min, immediate_int_max}
use nballerina.Tagged.Floats.{float_to_tagged}
use nballerina.Word.{le_signed}

-- every double is equal to itself, a NaN too
pub float_eq_refl : (x : ℕ) → float_eq x x ≡ true
unfolding float_eq ordered_equal
float_eq_refl x = elim (Bool-cases (is_nan x)) [
  | inl e ↦ rw e refl
  | inr e ↦ rw (e, ==_refl x) refl
]

or_true : (x : Bool) → (x || true) ≡ true
or_true true = refl
or_true false = refl

pub float_exact_eq-float_eq : (x y : ℕ) → float_exact_eq x y ≡ true → float_eq x y ≡ true
unfolding float_exact_eq float_eq
float_exact_eq-float_eq x y h = elim (Bool-cases (x == y)) [
  | inl e ↦ let at : x ≡ y = (==_iff x y).0 e in ap (float_eq x) (sym at) ∙ float_eq_refl x
  | inr d ↦ elim (Bool-cases (is_nan x && is_nan y)) [
    | inl nans ↦ rw nans (or_true (ordered_equal x y))
    | inr numbers ↦ cc (rw (numbers, d) at h)
  ]
]

-- the integer, or the double, that a read of a list finds
abbrev pub int_member : ListMembers → (index : ℕ) → Run ℕ
int_member (generic_members ap) index = fault
int_member (int_members ap) index = list_int_array_get_int ap index
int_member (byte_members ap) index = list_byte_array_get_int ap index
int_member (float_members ap) index = fault

abbrev pub float_member : ListMembers → (index : ℕ) → Run ℕ
float_member (generic_members ap) index = fault
float_member (int_members ap) index = fault
float_member (byte_members ap) index = fault
float_member (float_members ap) index = list_float_array_get_float ap index

-- the addresses of boxes are aligned and below 2 ^ 56, and a box holds what was read
pub record IsBoxed {D : Type 0} (heap : Heap D) : Type 0 where
  pub aligned :
      (p : TaggedPtr) (index : ℕ) → IsAligned (record { next = heap.box p index; at = heap.ints })
  pub ints :
      (p : TaggedPtr) (index n : ℕ)
      → int_member (heap.list_at (tagged_to_ptr p)) index ≡ done n
      → heap.ints (heap.box p index) ≡ n
  pub doubles :
      (p : TaggedPtr) (index n : ℕ)
      → float_member (heap.list_at (tagged_to_ptr p)) index ≡ done n
      → heap.doubles (heap.box p index) ≡ n

-- a pointer to a box has the tag and the address
boxed_pointer :
    (x : ℕ)
    → x % 8 ≡ 0
    → x < 2 ^ 56
    → (get_tag (ptr_add_shifted_tag x tag_int) ≡ tag_int)
      × (get_tag (ptr_add_shifted_tag x tag_float) ≡ tag_float)
      × (tagged_to_ptr (ptr_add_shifted_tag x tag_int) ≡ x)
      × (tagged_to_ptr (ptr_add_shifted_tag x tag_float) ≡ x)
boxed_pointer x h k = (omega arith, omega arith, omega arith, omega arith)

module _ {D : Type 0} (number : Number D) (heap : Heap D) (boxed : IsBoxed heap) where
  -- two boxes of an integer
  ints-Alike :
      (m n x y : ℕ)
      → IsAligned (record { next = x; at = heap.ints })
      → IsAligned (record { next = y; at = heap.ints })
      → heap.ints x ≡ n
      → heap.ints y ≡ n
      → Alike
          (memory_of number heap)
          m
          (int_to_tagged n (record { next = x; at = heap.ints })).0
          (int_to_tagged n (record { next = y; at = heap.ints })).0
  unfolding Alike int_to_tagged box_int scalar_eq
  ints-Alike zero n x y h k e f = refl
  ints-Alike (suc m) n x y h k e f =
      elim (Bool-cases (le_signed immediate_int_min n && le_signed n immediate_int_max)) [
        | inl immediate ↦ rw immediate (same refl)
        | inr large ↦
            let (tag₁, _, at₁, _) = boxed_pointer x h.0 h.1 in
            let (tag₂, _, at₂, _) = boxed_pointer y k.0 k.1 in
            rw large (
              scalars (tag₁ ∙ sym tag₂) (ap is_structure tag₁)
                (rw (tag₁, at₁, at₂, e, f) (==_refl n)))
      ]

  floats-Alike :
      (m n x y : ℕ)
      → IsAligned (record { next = x; at = heap.ints })
      → IsAligned (record { next = y; at = heap.ints })
      → heap.doubles x ≡ n
      → heap.doubles y ≡ n
      → Alike
          (memory_of number heap)
          m
          (float_to_tagged n (record { next = x; at = heap.doubles })).0
          (float_to_tagged n (record { next = y; at = heap.doubles })).0
  unfolding Alike float_to_tagged scalar_eq
  floats-Alike zero n x y h k e f = refl
  floats-Alike (suc m) n x y h k e f =
      let (_, tag₁, _, at₁) = boxed_pointer x h.0 h.1 in
      let (_, tag₂, _, at₂) = boxed_pointer y k.0 k.1 in
      scalars (tag₁ ∙ sym tag₂) (ap is_structure tag₁) (rw (tag₁, at₁, at₂, e, f) (float_eq_refl n))

  -- a read of an integer through two pointers
  int_reads :
      (m x y : ℕ) (read : Run ℕ)
      → IsAligned (record { next = x; at = heap.ints })
      → IsAligned (record { next = y; at = heap.ints })
      → ((n : ℕ) → read ≡ done n → (heap.ints x ≡ n) × (heap.ints y ≡ n))
      → Alike
          (memory_of number heap)
          m
          (pointer_made
            (read >>= λ n. done (int_to_tagged n (record { next = x; at = heap.ints }))))
          (pointer_made
            (read >>= λ n. done (int_to_tagged n (record { next = y; at = heap.ints }))))
  int_reads m x y (done n) h k holds = let (e, f) = holds n refl in ints-Alike m n x y h k e f
  int_reads m x y (panicked code) h k holds = Alike-refl (memory_of number heap) m 0
  int_reads m x y fault h k holds = Alike-refl (memory_of number heap) m 0
  int_reads m x y diverged h k holds = Alike-refl (memory_of number heap) m 0

  float_reads :
      (m x y : ℕ) (read : Run ℕ)
      → IsAligned (record { next = x; at = heap.ints })
      → IsAligned (record { next = y; at = heap.ints })
      → ((n : ℕ) → read ≡ done n → (heap.doubles x ≡ n) × (heap.doubles y ≡ n))
      → Alike
          (memory_of number heap)
          m
          (pointer_made
            (read >>= λ n. done (float_to_tagged n (record { next = x; at = heap.doubles }))))
          (pointer_made
            (read >>= λ n. done (float_to_tagged n (record { next = y; at = heap.doubles }))))
  float_reads m x y (done n) h k holds = let (e, f) = holds n refl in floats-Alike m n x y h k e f
  float_reads m x y (panicked code) h k holds = Alike-refl (memory_of number heap) m 0
  float_reads m x y fault h k holds = Alike-refl (memory_of number heap) m 0
  float_reads m x y diverged h k holds = Alike-refl (memory_of number heap) m 0

  list_reads :
      (m x y i : ℕ) (members : ListMembers)
      → IsAligned (record { next = x; at = heap.ints })
      → IsAligned (record { next = y; at = heap.ints })
      → ((n : ℕ) → int_member members i ≡ done n → (heap.ints x ≡ n) × (heap.ints y ≡ n))
      → ((n : ℕ) → float_member members i ≡ done n → (heap.doubles x ≡ n) × (heap.doubles y ≡ n))
      → Alike
          (memory_of number heap)
          m
          (get_tagged members i
            (record { next = x; at = heap.ints })
            (record { next = x; at = heap.doubles }))
          (get_tagged members i
            (record { next = y; at = heap.ints })
            (record { next = y; at = heap.doubles }))
  unfolding get_tagged
  list_reads m x y i (generic_members ap) h k ints doubles = Alike-refl (memory_of number heap) m _
  list_reads m x y i (int_members ap) h k ints doubles =
      int_reads m x y (load ap tagged_ptr_shift i) h k ints
  list_reads m x y i (byte_members ap) h k ints doubles =
      int_reads m x y (load ap byte_shift i) h k ints
  list_reads m x y i (float_members ap) h k ints doubles =
      float_reads m x y (load ap tagged_ptr_shift i) h k doubles

  -- the members at an index of one list are alike through two pointers
  pub get_tagged-Alike :
      (m : ℕ) (a b : TaggedPtr) (i : ℕ)
      → tagged_to_ptr a ≡ tagged_to_ptr b
      → Alike
          (memory_of number heap)
          m
          ((memory_of number heap).get a i)
          ((memory_of number heap).get b i)
  get_tagged-Alike m a b i at =
      let one_list : heap.list_at (tagged_to_ptr a) ≡ heap.list_at (tagged_to_ptr b) =
        ap heap.list_at at in
      subst
        (λ members.
          Alike (memory_of number heap) m ((memory_of number heap).get a i)
            (get_tagged members i (int_boxes number heap b i) (float_boxes number heap b i)))
        one_list
        (list_reads m (heap.box a i) (heap.box b i) i (heap.list_at (tagged_to_ptr a))
          (boxed.aligned a i) (boxed.aligned b i)
          (λ n e.
            (boxed.ints a i n e, boxed.ints b i n (ap (λ l. int_member l i) (sym one_list) ∙ e)))
          (λ n e. (
            boxed.doubles a i n e,
            boxed.doubles b i n (ap (λ l. float_member l i) (sym one_list) ∙ e),
          )))
