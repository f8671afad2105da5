-- ===== src/List/Spec.antt =====
-- What the stores do to the list of members, with no capacity and no memory block.
use nballerina.Prelude.{
  ℕ, zero, suc, ◌+◌, ◌-◌, ltb, leb, if◌then◌else◌, Option, List, [], ◌∷◌, ◌++◌, length, set,
}
use nballerina.Array.{array_length_max}
use nballerina.List.Stores.{
  Fillability, fill_none, FillerDesc, ListDesc, struct_create_filler, list_desc_allows_tagged_at,
  next_filler,
}
use nballerina.Run.{
  PanicCode, panic_list_store, panic_no_filler, panic_index_out_of_bounds, panic_list_too_long,
}
use nballerina.Tagged.{TaggedPtr, store_panic_code}
use nballerina.Word.{is_negative, lt_signed}

module _ {H : Type 0} where
  -- the fillers for `rounds` places, and the memory after their creation
  unfoldable pub fillers :
      (rounds : ℕ) → Option (FillerDesc H) → Fillability → TaggedPtr → H → List TaggedPtr × H
  fillers zero desc fill filler h = ([], h)
  fillers (suc rounds) desc fill filler h =
      let (f, h₁) = next_filler desc fill filler h in
      let (fs, h₂) = fillers rounds desc fill f h₁ in (f ∷ fs, h₂)

  -- the list up to the index and the new member, if it may be that long
  unfoldable pub extend_filled :
      Option (FillerDesc H)
      → Fillability
      → TaggedPtr
      → H
      → (index : ℕ) → TaggedPtr
      → List TaggedPtr
      → PanicCode × List TaggedPtr × H
  unfolding fillers
  extend_filled desc fill filler h index val xs =
      let (fs, h') = fillers (index - (length xs + 1)) desc fill filler h in
      if leb array_length_max index
      then (if is_negative index then panic_index_out_of_bounds else panic_list_too_long, xs, h)
      else (0, xs ++ filler ∷ fs ++ val ∷ [], h')

  unfoldable pub extend :
      Option (FillerDesc H)
      → Fillability × TaggedPtr × H
      → (index : ℕ) → TaggedPtr
      → List TaggedPtr
      → PanicCode × List TaggedPtr × H
  unfolding extend_filled
  extend desc (fill_none, filler, h) index val xs = (panic_no_filler, xs, h)
  extend desc (fill, filler, h) index val xs = extend_filled desc fill filler h index val xs

  unfoldable pub set_spec :
      (p : TaggedPtr)
      → ListDesc H
      → (index : ℕ) → TaggedPtr
      → List TaggedPtr
      → H
      → PanicCode × List TaggedPtr × H
  unfolding extend
  set_spec p ldp index val xs h =
      if list_desc_allows_tagged_at ldp h index val
      then if ltb index (length xs)
        then (0, set xs index val, h)
        else if lt_signed (length xs) index
        then extend ldp.filler_desc (struct_create_filler ldp.filler_desc h) index val xs
        else if leb array_length_max index
        then (if is_negative index then panic_index_out_of_bounds else panic_list_too_long, xs, h)
        else (0, xs ++ val ∷ [], h)
      else (store_panic_code p panic_list_store, xs, h)
