-- ===== src/Subtype.antt =====
-- The `contains` functions of uniform subtypes: ranges of integers (runtime/int.c), sets of floats
-- (runtime/float.c), booleans (runtime/boolean.c), type identifiers (runtime/structure.c), and
-- structures by their descriptors (runtime/list.c, runtime/mapping.c, runtime/function.c). A list
-- of values between two pointers is a function from indices, and the two indices.
pub mod Ranges
pub mod Search
pub mod Structures
use nballerina.Prelude.{
  ℕ, zero, suc, ◌+◌, ◌-◌, ◌/◌, Bool, true, false, not, ltb, leb, ◌==◌, ◌||◌, ◌≡◌, if◌then◌else◌,
  List, [], ◌∷◌, arith,
}
use nballerina.List.Stores.{ListDesc}
use nballerina.Mapping.Methods.{MappingDesc}
use nballerina.Mapping.Table.{MapField}
use nballerina.MemberType.{
  MemberType, member_type_is_subtype_simple, member_type_is_supertype_simple,
}
use nballerina.Run.{Run, done, diverged, ◌>>=◌}
use nballerina.Tagged.{TaggedPtr, uniform_type, tag_mapping, tag_function, tagged_to_boolean}
use nballerina.Tagged.Ints.{Boxes, tagged_to_int}
use nballerina.Word.{le_signed}

pub record IntRange : Type 0 where
  pub min : ℕ
  pub max : ℕ

-- the ranges from `r` to `end`; at the first call there is one at least
unfoldable pub int_range_list_contains : List IntRange → (n : ℕ) → Bool
int_range_list_contains [] n = false
int_range_list_contains (r ∷ rs) n =
    let rest = int_range_list_contains rs n in if le_signed n r.max then le_signed r.min n else rest

unfoldable pub int_subtype_contains : List IntRange → TaggedPtr → Boxes → Bool
unfolding int_range_list_contains
int_subtype_contains ranges tp boxes = int_range_list_contains ranges (tagged_to_int tp boxes)

abbrev pub true_subtype_contains : TaggedPtr → Bool
true_subtype_contains tp = tagged_to_boolean tp == 1

abbrev pub false_subtype_contains : TaggedPtr → Bool
false_subtype_contains tp = tagged_to_boolean tp == 0

-- `==` and `<` on the elements of a sorted list. On doubles a NaN is not ordered.
pub record Order {ℓ} (A : Type ℓ) : Type ℓ where
  pub equal : A → A → Bool
  pub less : A → A → Bool
  pub ordered : A → Bool
  pub less_trans : (a b c : A) → less a b ≡ true → less b c ≡ true → less a c ≡ true
  pub less-equal : (a b : A) → less a b ≡ true → equal a b ≡ false
  pub equal_symm : (a b : A) → equal a b ≡ equal b a
  pub less_total :
      (a b : A)
      → ordered a ≡ true
      → ordered b ≡ true
      → equal a b ≡ false
      → less a b ≡ false
      → less b a ≡ true
  pub unordered-equal : (a b : A) → ordered a ≡ false → equal a b ≡ false

pub ltb_trans : (a b c : ℕ) → ltb a b ≡ true → ltb b c ≡ true → ltb a c ≡ true
ltb_trans a b c h k = ground arith

pub ltb-== : (a b : ℕ) → ltb a b ≡ true → (a == b) ≡ false
ltb-== a b h = ground arith

pub ==_symm : (a b : ℕ) → (a == b) ≡ (b == a)
==_symm a b = ground arith

pub none_unordered : (b : Bool) → true ≡ false → b ≡ false
none_unordered b h = cc

pub ltb_total : (a b : ℕ) → (a == b) ≡ false → ltb a b ≡ false → ltb b a ≡ true
ltb_total a b h k = ground arith

-- the loop of the binary searches, with fuel
unfoldable pub list_contains {ℓ} :
    {A : Type ℓ} → Order A → (fuel : ℕ) → (ℕ → A) → (start stop : ℕ) → A → Run Bool
list_contains order zero members start stop x = diverged
list_contains order (suc fuel) members start stop x =
    let mid = start + (stop - start) / 2 in
    let before = list_contains order fuel members start mid x in
    let after = list_contains order fuel members (mid + 1) stop x in
    if ltb start stop
    then if order.equal x (members mid)
      then done true
      else if order.less x (members mid)
      then before
      else after
    else done false

-- on `Tid`
abbrev pub tid_order : Order ℕ
tid_order = record {
  equal = ◌==◌;
  less = ltb;
  ordered = λ _. true;
  less_trans = ltb_trans;
  less-equal = ltb-==;
  equal_symm = ==_symm;
  less_total = λ a b _ _. ltb_total a b;
  unordered-equal = λ a b. none_unordered (a == b);
}

abbrev pub tid_list_contains : (fuel : ℕ) → (tids : ℕ → ℕ) → (start stop tid : ℕ) → Run Bool
tid_list_contains fuel tids start stop tid = list_contains tid_order fuel tids start stop tid

-- `tid` is that of the structure's descriptor
unfoldable pub precomputed_subtype_contains : (n_tids : ℕ) → (tids : ℕ → ℕ) → (tid : ℕ) → Run Bool
unfolding list_contains
precomputed_subtype_contains n_tids tids tid = tid_list_contains (n_tids + 1) tids 0 n_tids tid

abbrev pub float_list_contains {ℓ} :
    {A : Type ℓ} → Order A → (fuel : ℕ) → (floats : ℕ → A) → (start stop : ℕ) → A → Run Bool
float_list_contains order fuel floats start stop d = list_contains order fuel floats start stop d

-- `included` says whether the members are in the type, or all others; a NaN can only be the first.
unfoldable pub float_subtype_contains_float {ℓ} :
    {A : Type ℓ} → Order A → (n_floats : ℕ) → (floats : ℕ → A) → (included : Bool) → A → Run Bool
unfolding list_contains
float_subtype_contains_float order n_floats floats included d =
    let search : ℕ → Run Bool = λ start.
      float_list_contains order (n_floats + 1) floats start n_floats d >>= λ found.
      done (if found then included else not included) in
    if order.ordered (floats 0)
    then if order.ordered d then search 0 else done (not included)
    else if order.ordered d
    then search 1
    else done included

pub record RecordSubtypeField : Type 0 where
  pub field_name : TaggedPtr
  pub field_bit_set : ℕ

pub record EasyFunctionSubtype : Type 0 where
  pub return_bit_set : ℕ
  pub n_required_params : ℕ
  pub param_bit_sets : ℕ → ℕ

-- `H` is the memory that the subtypes of member types read
pub record FunctionDesc (H : Type 0) : Type 0 where
  pub return_type : MemberType H
  pub rest_type : MemberType H
  pub n_required_params : ℕ
  pub param_types : ℕ → MemberType H

module _ {H : Type 0} where
  -- the loop of the tests on member types, with `rounds` of them left from the index `i` on
  unfoldable pub all_subtypes_simple :
      (rounds i : ℕ) → (types : ℕ → MemberType H) → (bit_set : ℕ) → Bool
  all_subtypes_simple zero i types bit_set = true
  all_subtypes_simple (suc rounds) i types bit_set =
      let rest = all_subtypes_simple rounds (suc i) types bit_set in
      if member_type_is_subtype_simple (types i) bit_set then rest else false

  unfoldable pub array_subtype_contains : (bit_set : ℕ) → ListDesc H → Bool
  unfolding all_subtypes_simple
  array_subtype_contains bit_set ldp =
      if all_subtypes_simple ldp.n_member_types 0 ldp.member_types bit_set
      then member_type_is_subtype_simple ldp.rest_type bit_set
      else false

  unfoldable pub map_subtype_contains : (bit_set : ℕ) → (p : TaggedPtr) → MappingDesc H → Bool
  unfolding all_subtypes_simple
  map_subtype_contains bit_set p mdp =
      if uniform_type p == tag_mapping
      then if all_subtypes_simple mdp.n_fields 0 mdp.field_types bit_set
        then member_type_is_subtype_simple mdp.rest_type bit_set
        else false
      else false

  unfoldable pub record_fields_contain :
      (equal : TaggedPtr → TaggedPtr → Bool) (rounds i : ℕ)
      → (types : ℕ → RecordSubtypeField) → MappingDesc H
      → (fields : ℕ → MapField) → Bool
  record_fields_contain equal zero i types mdp fields = true
  record_fields_contain equal (suc rounds) i types mdp fields =
      let rest = record_fields_contain equal rounds (suc i) types mdp fields in
      if equal (types i).field_name (fields i).key
      then if member_type_is_subtype_simple (mdp.field_types i) (types i).field_bit_set
        then rest
        else false
      else false

  unfoldable pub record_subtype_contains :
      (equal : TaggedPtr → TaggedPtr → Bool) (n_fields : ℕ)
      → (types : ℕ → RecordSubtypeField) → (p : TaggedPtr) → MappingDesc H
      → (fields : ℕ → MapField) → Bool
  unfolding record_fields_contain
  record_subtype_contains equal n_fields types p mdp fields =
      if uniform_type p == tag_mapping
      then if n_fields == mdp.n_fields
        then record_fields_contain equal mdp.n_fields 0 types mdp fields
        else false
      else false

  -- the loop over parameters, with `rounds` of them left from the index `i` on
  unfoldable pub params_contain : (rounds i : ℕ) → EasyFunctionSubtype → FunctionDesc H → Bool
  params_contain zero i subtype desc = true
  params_contain (suc rounds) i subtype desc =
      let rest = params_contain rounds (suc i) subtype desc in
      let param_type =
        if ltb i desc.n_required_params then desc.param_types i else desc.rest_type in
      if member_type_is_supertype_simple param_type (subtype.param_bit_sets i) then rest else false

  unfoldable pub function_subtype_contains :
      EasyFunctionSubtype → (p : TaggedPtr) → FunctionDesc H → Bool
  unfolding params_contain
  function_subtype_contains subtype p desc =
      let n = subtype.n_required_params in
      let max_required = if ltb desc.n_required_params n then n else desc.n_required_params in
      if uniform_type p == tag_function
      then if member_type_is_subtype_simple desc.return_type subtype.return_bit_set
        then if ltb n max_required then false else params_contain max_required 0 subtype desc
        else false
      else false
