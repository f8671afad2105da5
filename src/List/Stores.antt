-- ===== src/List/Stores.antt =====
-- The list descriptor, fillers, and `_bal_list_generic_set_tagged`, its callers, and
-- `_bal_list_filling_get` (runtime/list.c).
use nballerina.Prelude.{
  ℕ, zero, suc, ◌+◌, ◌-◌, ◌%◌, ◌^◌, Bool, false, ltb, leb, ◌==◌, if◌then◌else◌, Option, none, some,
  ◌⊎◌, inl, inr,
}
use nballerina.Array.{
  GenericArray, array_length_max, tagged_ptr_shift, array_grow, init_generic_array, store, load,
}
use nballerina.MemberType.{MemberType, member_type_contains_tagged}
use nballerina.Run.{
  Run, done, ◌>>=◌, PanicCode, panic_list_store, panic_no_filler, panic_index_out_of_bounds,
  panic_list_too_long,
}
use nballerina.Tagged.{TaggedPtr, nil, store_panic_code}
use nballerina.Word.{is_negative, lt_signed}

pub data Fillability : Type 0 where
  fill_none fill_each fill_copy : Fillability

module _ (H : Type 0) where
  -- `create`, with the descriptor that it is called on: the value, `hasIdentityPtr`, the memory
  abbrev pub FillerDesc : Type 0
  FillerDesc = H → TaggedPtr × Bool × H

  pub record ListDesc : Type 0 where
    pub tid : ℕ
    pub n_member_types : ℕ
    pub min_length : ℕ
    pub rest_type : MemberType H
    pub filler_desc : Option (FillerDesc)
    pub member_types : ℕ → MemberType H

module _ {H : Type 0} where
  -- a null descriptor gives a null value
  unfoldable pub struct_create_filler : Option (FillerDesc H) → H → Fillability × TaggedPtr × H
  struct_create_filler none h = (fill_none, nil, h)
  struct_create_filler (some create) h =
      let (value, has_identity, h') = create h in
      (if has_identity then fill_each else fill_copy, value, h')

  -- the descriptor's type of the member at an index; a negative index has the rest type
  unfoldable pub member_type_at : ListDesc H → (index : ℕ) → MemberType H
  member_type_at ldp index =
      if ltb index ldp.min_length
      then ldp.member_types (
          if ltb index ldp.n_member_types
          then index
          else (ldp.n_member_types + 2 ^ 32 - 1) % 2 ^ 32)
      else ldp.rest_type

  unfoldable pub list_desc_allows_tagged_at : ListDesc H → H → (index : ℕ) → TaggedPtr → Bool
  unfolding member_type_at
  list_desc_allows_tagged_at ldp h index val =
      member_type_contains_tagged (member_type_at ldp index) h val

  -- the filler for a further place: another one if every place needs its own
  unfoldable pub next_filler : Option (FillerDesc H) → Fillability → TaggedPtr → H → TaggedPtr × H
  unfolding struct_create_filler
  next_filler desc fill_each filler h =
      let (_, filler', h') = struct_create_filler desc h in (filler', h')
  next_filler desc _ filler h = (filler, h)

  -- `for (; i < i + rounds; i++) members[i] = filler`, with a new filler where each needs its own
  unfoldable pub fill_gap :
      (rounds i : ℕ)
      → Option (FillerDesc H)
      → Fillability
      → TaggedPtr
      → GenericArray TaggedPtr
      → H
      → Run (GenericArray TaggedPtr × H)
  unfolding next_filler store
  fill_gap zero i desc fill filler ap h = done (ap, h)
  fill_gap (suc rounds) i desc fill filler ap h = do
    let (filler', h') = next_filler desc fill filler h
    ap' ← store ap tagged_ptr_shift i filler'
    fill_gap rounds (suc i) desc fill filler' ap' h'

  -- the gap from the array's length on, the member at the index, the new length
  unfoldable pub fill_then_store :
      Option (FillerDesc H)
      → Fillability
      → TaggedPtr
      → (index : ℕ) → TaggedPtr
      → GenericArray TaggedPtr
      → H
      → Run (PanicCode × GenericArray TaggedPtr × H)
  unfolding fill_gap store
  fill_then_store desc fill filler index val ap h = do
    ap₁ ← store ap tagged_ptr_shift ap.length filler
    (ap₂, h') ← fill_gap (index - (ap.length + 1)) (ap.length + 1) desc fill filler ap₁ h
    ap₃ ← store ap₂ tagged_ptr_shift index val
    done (0, record ap₃ { length = index + 1 }, h')

  -- the member at the index, and the new length
  unfoldable pub store_next :
      (index : ℕ)
      → TaggedPtr
      → GenericArray TaggedPtr
      → H
      → Run (PanicCode × GenericArray TaggedPtr × H)
  unfolding store
  store_next index val ap h = do
    ap' ← store ap tagged_ptr_shift index val
    done (0, record ap' { length = index + 1 }, h)

  unfoldable pub fill_and_store :
      Option (FillerDesc H)
      → Fillability
      → TaggedPtr
      → (index : ℕ) → TaggedPtr
      → GenericArray TaggedPtr
      → H
      → Run (PanicCode × GenericArray TaggedPtr × H)
  unfolding fill_then_store store_next
  fill_and_store desc fill_none filler index val ap h = store_next index val ap h
  fill_and_store desc fill filler index val ap h = fill_then_store desc fill filler index val ap h

-- room for a member at the index, or the code of the panic; shared by the stores of all lists
module _ {ℓ} {A : Type ℓ} (junk : ℕ → A) where
  unfoldable pub make_room : (shift index : ℕ) → GenericArray A → Run (PanicCode × GenericArray A)
  unfolding array_grow
  make_room shift index ap =
      let grown : Run (PanicCode × GenericArray A) = (do
        ap' ← array_grow junk ap (index + 1) shift
        done (0, ap')) in
      if leb ap.capacity index
      then if leb array_length_max index
        then done (if is_negative index then panic_index_out_of_bounds else panic_list_too_long, ap)
        else grown
      else done (0, ap)

module _ {H : Type 0} (junk : ℕ → TaggedPtr) where
  -- the store at an index past the end, once the filler is known
  unfoldable pub store_past_end :
      Option (FillerDesc H)
      → Fillability × TaggedPtr × H
      → (index : ℕ) → TaggedPtr
      → GenericArray TaggedPtr
      → Run (PanicCode × GenericArray TaggedPtr × H)
  unfolding fill_and_store make_room
  store_past_end desc (fill, filler, h) index val ap = do
    (code, ap') ← make_room junk tagged_ptr_shift index ap
    if code == 0 then fill_and_store desc fill filler index val ap' h else done (code, ap', h)

  -- with a gap to fill: without a filler the panic comes before the array grows
  unfoldable pub store_after_gap :
      Option (FillerDesc H)
      → Fillability × TaggedPtr × H
      → (index : ℕ) → TaggedPtr
      → GenericArray TaggedPtr
      → Run (PanicCode × GenericArray TaggedPtr × H)
  unfolding store_past_end
  store_after_gap desc (fill_none, filler, h) index val ap = done (panic_no_filler, ap, h)
  store_after_gap desc filled index val ap = store_past_end desc filled index val ap

  -- `p` is the pointer to the list, whose descriptor is `ldp` and whose members are `ap`
  unfoldable pub list_generic_set_tagged :
      (p : TaggedPtr)
      → ListDesc H
      → (index : ℕ) → TaggedPtr
      → GenericArray TaggedPtr
      → H
      → Run (PanicCode × GenericArray TaggedPtr × H)
  unfolding list_desc_allows_tagged_at store store_past_end store_after_gap struct_create_filler
  list_generic_set_tagged p ldp index val ap h =
      let inside : Run (PanicCode × GenericArray TaggedPtr × H) = (do
        ap' ← store ap tagged_ptr_shift index val
        done (0, ap', h)) in
      if list_desc_allows_tagged_at ldp h index val
      then if ltb index ap.length
        then inside
        else if lt_signed ap.length index
        then store_after_gap ldp.filler_desc (struct_create_filler ldp.filler_desc h) index val ap
        else store_past_end ldp.filler_desc (fill_none, nil, h) index val ap
      else done (store_panic_code p panic_list_store, ap, h)

  unfoldable pub list_generic_inexact_set_tagged :
      (p : TaggedPtr)
      → ListDesc H
      → (index : ℕ) → TaggedPtr
      → GenericArray TaggedPtr
      → H
      → Run (PanicCode × GenericArray TaggedPtr × H)
  unfolding list_generic_set_tagged
  list_generic_inexact_set_tagged p ldp index val ap h = do
    (code, ap', h') ← list_generic_set_tagged p ldp index val ap h
    done (if code == 0 then 0 else panic_list_store, ap', h')

  -- `_bal_list_filling_get` writes the member at the index before it fills the gap.
  unfoldable pub filling_get_past_end :
      Option (FillerDesc H)
      → Fillability × TaggedPtr × H
      → (index : ℕ) → GenericArray TaggedPtr
      → Run ((PanicCode ⊎ TaggedPtr) × GenericArray TaggedPtr × H)
  unfolding fill_gap make_room
  filling_get_past_end desc (fill_none, filler, h) index ap = done (inl panic_no_filler, ap, h)
  filling_get_past_end desc (fill, filler, h) index ap = do
    (code, ap₁) ← make_room junk tagged_ptr_shift index ap
    let filled : Run ((PanicCode ⊎ TaggedPtr) × GenericArray TaggedPtr × H) = (do
      ap₂ ← store ap₁ tagged_ptr_shift index filler
      (ap₃, h') ← fill_gap (index - ap.length) ap.length desc fill filler ap₂ h
      done (inr filler, record ap₃ { length = index + 1 }, h'))
    if code == 0 then filled else done (inl code, ap₁, h)

  unfoldable pub list_filling_get :
      ListDesc H
      → (index : ℕ) → GenericArray TaggedPtr
      → H
      → Run ((PanicCode ⊎ TaggedPtr) × GenericArray TaggedPtr × H)
  unfolding load filling_get_past_end struct_create_filler
  list_filling_get ldp index ap h =
      let inside : Run ((PanicCode ⊎ TaggedPtr) × GenericArray TaggedPtr × H) = (do
        ptr ← load ap tagged_ptr_shift index
        done (inr ptr, ap, h)) in
      if ltb index ap.length
      then inside
      else if is_negative index
      then done (inl panic_index_out_of_bounds, ap, h)
      else filling_get_past_end ldp.filler_desc (struct_create_filler ldp.filler_desc h) index ap

-- a filler whose value needs no identity, such as nil, a boolean or the empty string
abbrev pub generic_filler_create : {H : Type 0} → (generic_value : TaggedPtr) → FillerDesc H
generic_filler_create generic_value h = (generic_value, false, h)

-- `_bal_list_construct_8`
unfoldable pub list_construct_8 : (junk : ℕ → TaggedPtr) (capacity : ℕ) → GenericArray TaggedPtr
unfolding init_generic_array
list_construct_8 junk capacity = init_generic_array junk capacity tagged_ptr_shift
