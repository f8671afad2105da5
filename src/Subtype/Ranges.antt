-- ===== src/Subtype/Ranges.antt =====
-- The ranges of an integer subtype (runtime/int.c).
use nballerina.Prelude.{ℕ, ◌≡◌, refl, arith, Bool, true, false, ◌&&◌, ◌||◌, List, [], ◌∷◌}
use nballerina.Subtype.{IntRange, int_range_list_contains}
use nballerina.Word.{le_signed, lt_signed}

-- one of the ranges has the integer
pub some_range : List IntRange → ℕ → Bool
some_range [] n = false
some_range (r ∷ rs) n = (le_signed r.min n && le_signed n r.max) || some_range rs n

-- every range starts above `m`
unfoldable pub all_above : ℕ → List IntRange → Bool
all_above m [] = true
all_above m (r ∷ rs) = lt_signed m r.min && all_above m rs

-- each range ends below the start of all that follow
unfoldable pub sorted : List IntRange → Bool
unfolding all_above
sorted [] = true
sorted (r ∷ rs) = all_above r.max rs && sorted rs

some_range-above :
    (rs : List IntRange) (m n : ℕ)
    → all_above m rs ≡ true
    → le_signed n m ≡ true
    → some_range rs n ≡ false
unfolding some_range all_above
some_range-above [] m n h k = refl
some_range-above (r ∷ rs) m n h k = ground (arith, some_range-above rs m n (ground arith) k)

-- On ranges of which each ends below the start of all that follow, the search of
-- `intRangeListContains`, which stops early, answers whether any range has the integer
pub int_range_list_contains-some_range :
    (rs : List IntRange) (n : ℕ) → sorted rs ≡ true → int_range_list_contains rs n ≡ some_range rs n
unfolding int_range_list_contains sorted some_range
int_range_list_contains-some_range [] n h = refl
int_range_list_contains-some_range (r ∷ rs) n h = ground (
  arith,
  some_range-above rs r.max n (ground arith),
  int_range_list_contains-some_range rs n (ground arith),
)
