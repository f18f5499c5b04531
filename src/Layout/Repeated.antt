-- ===== src/Layout/Repeated.antt =====
-- What C repeats for a field of a struct, told by the type alone.
use js_ffi_cross.Base.{ℕ, zero, suc, ◌<◌, ◌≡◌, refl, Bool, true, false, Option, none, some, arith}
use js_ffi_cross.CType.{
  CType, Fields, end, field, atom, struct, union, array, ref_of, deref_of, fixed_array,
}

-- A fixed-length array is so many elements; anything else, a pointer included, is one value.
unfoldable pub own_array : CType → Option (CType × ℕ)
own_array (array element (suc n)) = some (element, suc n)
own_array type = none

-- Whether the type is a fixed-length array or a pointer, over any number of stars, to one.
unfoldable pub holds_array : CType → Bool
holds_array (array element (suc n)) = true
holds_array (ref_of type) = holds_array type
holds_array (deref_of type) = holds_array type
holds_array type = false

-- A pointer to a fixed-length array, which the source takes for the array.
unfoldable pub points_to_array : CType → Bool
unfolding holds_array
points_to_array (ref_of type) = holds_array type
points_to_array (deref_of type) = holds_array type
points_to_array type = false

-- No field is a pointer to a fixed-length array.
abbrev pub NoArrayPointer : Fields → Type 0
NoArrayPointer end = Unit
NoArrayPointer (field n type x rest) = (points_to_array type ≡ false) × NoArrayPointer rest

holds_no_array : (type : CType) → holds_array type ≡ false → fixed_array type ≡ none
unfolding holds_array fixed_array
holds_no_array (atom a) h = refl
holds_no_array (struct n align fields) h = refl
holds_no_array (union n align fields) h = refl
holds_no_array (array type zero) h = refl
holds_no_array (array type (suc n)) h = cc
holds_no_array (ref_of type) h = holds_no_array type h
holds_no_array (deref_of type) h = holds_no_array type h

pub fixed_array-own :
    (type : CType) → points_to_array type ≡ false → fixed_array type ≡ own_array type
unfolding points_to_array own_array fixed_array
fixed_array-own (atom a) h = refl
fixed_array-own (struct n align fields) h = refl
fixed_array-own (union n align fields) h = refl
fixed_array-own (array type zero) h = refl
fixed_array-own (array type (suc n)) h = refl
fixed_array-own (ref_of type) h = holds_no_array type h
fixed_array-own (deref_of type) h = holds_no_array type h

-- The repeated unit of a field's type, and how often it is repeated.
abbrev pub unit_of : CType → Option (CType × ℕ) → CType
unit_of type none = type
unit_of type (some (element, n)) = element

abbrev pub count_of : Option (CType × ℕ) → ℕ
count_of none = 1
count_of (some (element, n)) = n

-- A fixed length is positive.
pub count-positive : (type : CType) → 0 < count_of (own_array type)
unfolding own_array
count-positive (atom a) = omega arith
count-positive (struct n align fields) = omega arith
count-positive (union n align fields) = omega arith
count-positive (array type zero) = omega arith
count-positive (array type (suc n)) = omega arith
count-positive (ref_of type) = omega arith
count-positive (deref_of type) = omega arith
