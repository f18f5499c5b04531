-- ===== src/Layout/Quirks.antt =====
-- `recalc` of lib/ref/struct.js on types that inherit or copy an attribute of the type that they
-- point to.
use js_ffi_cross.Base.{ℕ, suc, ◌<◌, ◌≡◌, refl, Bool, false, some, arith}
use js_ffi_cross.Text.{Text}
use js_ffi_cross.CType.{CType, end, field, Platform, array, ref_of, indirection, alignment}
use js_ffi_cross.Layout.Struct.{struct_alignment, own_alignment, place_field}

module _ (p : Platform) where
  -- A field that is a pointer to a fixed-length array is given the place of the array itself, as
  -- if the struct held its elements, whatever the element type and the packing.
  pub pointer_to_array_inline :
      (packed : Bool) (element : CType) (n s : ℕ)
      → (indirection (ref_of (array element (suc n))) ≡ 2)
        × (place_field p packed (ref_of (array element (suc n))) s
            ≡ place_field p packed (array element (suc n)) s)
  unfolding place_field
  pointer_to_array_inline packed element n s = (refl, refl)

  -- A struct whose only field is a fixed-length array of pointers has the alignment of what they
  -- point to, although its elements are placed as pointers. The target is no pointer, and its
  -- alignment is less than a pointer's.
  pub pointer_array_alignment :
      (name : Text) (target : CType) (n a : ℕ)
      → indirection target ≡ 1
      → alignment p target ≡ some (suc a)
      → suc a < p.alignof_pointer
      → (struct_alignment p false 0 (field name (array (ref_of target) (suc n)) 0 end) ≡ suc a)
        × (own_alignment p (ref_of target) ≡ some p.alignof_pointer)
  unfolding struct_alignment own_alignment
  pointer_array_alignment name target n a single aligned less = (ground arith, ground arith)
