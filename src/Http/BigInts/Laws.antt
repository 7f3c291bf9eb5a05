-- ===== src/Http/BigInts/Laws.antt =====
-- What the conversion leaves: no BigInt and no date, and a value without them as it is.
use kori.Common.{◌≡◌, refl, ap, ℕ, Bool-cases, inl, inr}
use kori.Common.Text.{Text, ◌==◌}
use kori.Http.Value.{
  property, Unknown, undefined, null, boolean, integer, big_int, characters, date, array, object,
  Elements, no_elements, element, Fields, no_fields, field,
}
use kori.Http.BigInts.{serialize_big_int, serialize_elements, serialize_fields}

-- No BigInt and no date occurs in the value.
unfoldable mutual
  pub IsPlain : Unknown → Type 0
  IsPlain undefined = Unit
  IsPlain null = Unit
  IsPlain (boolean b) = Unit
  IsPlain (integer n) = Unit
  IsPlain (big_int n) = ⊥
  IsPlain (characters t) = Unit
  IsPlain (date t) = ⊥
  IsPlain (array vs) = ArePlain vs
  IsPlain (object fs) = HasPlain fs

  pub ArePlain : Elements → Type 0
  ArePlain no_elements = Unit
  ArePlain (element v vs) = IsPlain v × ArePlain vs

  pub HasPlain : Fields → Type 0
  HasPlain no_fields = Unit
  HasPlain (field key v fs) = IsPlain v × HasPlain fs

mutual
  unfolding serialize_big_int IsPlain

  converted : (iso : ℕ → Text) (v : Unknown) → IsPlain (serialize_big_int iso v)
  converted iso undefined = tt
  converted iso null = tt
  converted iso (boolean b) = tt
  converted iso (integer n) = tt
  converted iso (big_int n) = tt
  converted iso (characters t) = tt
  converted iso (date t) = tt
  converted iso (array vs) = converted_elements iso vs
  converted iso (object fs) = converted_fields iso fs

  converted_elements : (iso : ℕ → Text) (vs : Elements) → ArePlain (serialize_elements iso vs)
  converted_elements iso no_elements = tt
  converted_elements iso (element v vs) = (converted iso v, converted_elements iso vs)

  converted_fields : (iso : ℕ → Text) (fs : Fields) → HasPlain (serialize_fields iso fs)
  converted_fields iso no_fields = tt
  converted_fields iso (field key v fs) = (converted iso v, converted_fields iso fs)

mutual
  unfolding serialize_big_int IsPlain

  unchanged : (iso : ℕ → Text) (v : Unknown) → IsPlain v → serialize_big_int iso v ≡ v
  unchanged iso undefined h = refl
  unchanged iso null h = refl
  unchanged iso (boolean b) h = refl
  unchanged iso (integer n) h = refl
  unchanged iso (big_int n) h = absurd h
  unchanged iso (characters t) h = refl
  unchanged iso (date t) h = absurd h
  unchanged iso (array vs) h = ap array (unchanged_elements iso vs h)
  unchanged iso (object fs) h = ap object (unchanged_fields iso fs h)

  unchanged_elements :
      (iso : ℕ → Text) (vs : Elements) → ArePlain vs → serialize_elements iso vs ≡ vs
  unchanged_elements iso no_elements h = refl
  unchanged_elements iso (element v vs) (hv, h) =
      rw (unchanged iso v hv, unchanged_elements iso vs h)

  unchanged_fields : (iso : ℕ → Text) (fs : Fields) → HasPlain fs → serialize_fields iso fs ≡ fs
  unchanged_fields iso no_fields h = refl
  unchanged_fields iso (field key v fs) (hv, h) = rw (unchanged iso v hv, unchanged_fields iso fs h)

converted_property :
    (iso : ℕ → Text) (name : Text) (fs : Fields)
    → property name (serialize_fields iso fs) ≡ serialize_big_int iso (property name fs)
unfolding serialize_big_int property
converted_property iso name no_fields = refl
converted_property iso name (field key v fs) = elim (Bool-cases (key == name)) [
  | inl this ↦ rw this
  | inr other ↦ rw other (converted_property iso name fs)
]

-- The response of a handler has no BigInt and no date once it is converted, at any depth, a further
-- conversion leaves it as it is, and each property of an object is the conversion of that property.
pub serialize_big_int_lem :
    (iso later : ℕ → Text) (v : Unknown) (name : Text) (fs : Fields)
    → IsPlain (serialize_big_int iso v)
      × (serialize_big_int later (serialize_big_int iso v) ≡ serialize_big_int iso v)
      × (property name (serialize_fields iso fs) ≡ serialize_big_int iso (property name fs))
serialize_big_int_lem iso later v name fs = (
  converted iso v,
  unchanged later (serialize_big_int iso v) (converted iso v),
  converted_property iso name fs,
)
