-- ===== src/FfiType/ByValue.antt =====
-- An array of arrays inside a struct that is passed by value.
use js_ffi_cross.Base.{ℕ, suc, ◌+◌, ◌*◌, ◌≡◌, refl}
use js_ffi_cross.Base.Result.{ok}
use js_ffi_cross.CType.{
  CType, end, field, array, Platform, ffi_pointer, bytes_per_element, element_type, size,
}
use js_ffi_cross.Text.{Text}
use js_ffi_cross.FfiType.{
  FfiTypes, builtin, write_null, nothing, write_times, write_elements, describe, own_ffi_type,
  described_element, described_fields,
}
use js_ffi_cross.Layout.Struct.{own_size}

module _ (ffi_types : FfiTypes) (p : Platform) where
  -- The elements of a fixed-length array of fixed-length arrays, a struct's only field, are described
  -- as so many pointers, whatever the inner element type, although `addType` gives each the bytes of
  -- a whole inner array.
  pub nested_array_as_pointers :
      (name : Text) (element : CType) (inner outer offset : ℕ)
      → (write_elements ffi_types p
            (field name (array (array element (suc inner)) (suc outer)) offset end)
            0
          ≡ ok (
              write_times ffi_types p
                (suc outer)
                (builtin ffi_pointer)
                0
                (write_null ((0 + suc outer) * p.sizeof_pointer) nothing)))
        × (own_size p (array element (suc inner)) ≡ bytes_per_element p element * suc inner)
  unfolding write_elements describe own_ffi_type element_type described_element described_fields
      own_size size bytes_per_element
  nested_array_as_pointers name element inner outer offset = (refl, refl)
