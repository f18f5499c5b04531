-- ===== src/FfiType.antt =====
-- `Type` of lib/type.js: the `ffi_type *` that describes a type to libffi. What it stores in
-- `type.ffi_type` for the next call is not modelled: every call computes the description anew.
pub mod Flattened
pub mod ByValue
use js_ffi_cross.Base.{
  ℕ, zero, suc, ◌+◌, ◌*◌, ltb, ◌==◌, if◌then◌else◌, Option, none, some, List, [], ◌∷◌, Bool, false,
}
use js_ffi_cross.Base.Result.{Result, ok, err, throw_if, ◌>>=◌, ◌>>◌, invalid_type, no_ffi_type}
use js_ffi_cross.Text.{Text, codes, text_eq}
use js_ffi_cross.CType.{
  CType, Fields, end, field, atom, struct, union, array, ref_of, deref_of, Platform, Builtin,
  ffi_pointer, indirection, fixed_array, element_type, name_of,
}
use js_ffi_cross.CType.Coerce.{prototype}

-- A built-in `ffi_type`, or an `FFI_TYPE` struct: the bytes allocated for its `elements` and the
-- pointers written there, each with its offset, in order.
mutual
  pub data FfiType : Type 0 where
    builtin : Builtin → FfiType
    struct_type : ℕ → Elements → FfiType

  pub data Elements : Type 0 where
    nothing : Elements
    write_pointer : ℕ → FfiType → Elements → Elements
    write_null : ℕ → Elements → Elements

-- `bindings.FFI_TYPES`, by name.
abbrev pub FfiTypes : Type 0
FfiTypes = List (Text × Builtin)

unfoldable pub find_ffi_type : Text → FfiTypes → Option Builtin
find_ffi_type name [] = none
find_ffi_type name ((key, ffi_type) ∷ types) =
    if text_eq key name then some ffi_type else find_ffi_type name types

-- `type.ffi_type`, before `Type` stores one.
unfoldable pub own_ffi_type : CType → Option Builtin
own_ffi_type (atom a) = a.ffi_type
own_ffi_type (ref_of type) = own_ffi_type type
own_ffi_type (deref_of type) = own_ffi_type type
own_ffi_type _ = none

-- The elements of a fixed-length array count each, any other field counts as one.
abbrev pub elements_of_field : Option (CType × ℕ) → ℕ
elements_of_field none = 1
elements_of_field (some (element, n)) = n

-- The first loop over the fields: `numElements`.
unfoldable pub count_elements : Fields → ℕ
unfolding fixed_array
count_elements end = 0
count_elements (field n type offset rest) =
    elements_of_field (fixed_array type) + count_elements rest

module _ (ffi_types : FfiTypes) where
  abbrev pub by_name : Option Text → Option Builtin
  by_name none = none
  by_name (some name) = find_ffi_type name ffi_types

  abbrev pub or_next : Option Builtin → Option Builtin → Option Builtin
  or_next none next = next
  or_next (some ffi_type) next = some ffi_type

  -- The loop over the prototypes. Those of a constructor have no name in the table.
  unfoldable pub inherited : CType → Option Builtin
  unfolding find_ffi_type name_of
  inherited (ref_of type) = or_next (by_name (name_of (ref_of type))) (inherited type)
  inherited (deref_of type) = or_next (by_name (name_of (deref_of type))) (inherited type)
  inherited type = by_name (name_of type)

  abbrev pub is_c_string : Option Text → Bool
  is_c_string none = false
  is_c_string (some name) = text_eq name (codes "CString")

  abbrev pub determined : Option Builtin → Result FfiType
  determined none = err no_ffi_type
  determined (some ffi_type) = ok (builtin ffi_type)

  -- The last resort, for a type that is neither an array nor a struct.
  unfoldable pub named_ffi_type : CType → Result FfiType
  unfolding inherited
  named_ffi_type type =
      if is_c_string (name_of type) then ok (builtin ffi_pointer) else determined (inherited type)

  -- The four sources of a type of indirection 1, in their order: its own `ffi_type`, `type.type`,
  -- `type.fields` with the description that they give, and its name.
  abbrev pub first_source :
      CType → Option Builtin → Option CType → Option (Result FfiType) → Result FfiType
  first_source type (some ffi_type) element described = ok (builtin ffi_type)
  first_source type none (some element) described = ok (builtin ffi_pointer)
  first_source type none none (some description) = description
  first_source type none none none = named_ffi_type type

  -- The body of `Type`, given what the fields of the type come to.
  unfoldable pub describe : CType → Option (Result FfiType) → Result FfiType
  unfolding named_ffi_type own_ffi_type element_type
  describe type described =
      throw_if (indirection type == 0) invalid_type
      >> (if indirection type == 1
          then first_source type (own_ffi_type type) (element_type type) described
          else ok (builtin ffi_pointer))

  module _ (p : Platform) where
    -- The same pointer, written so many times from an index on.
    unfoldable pub write_times : ℕ → FfiType → ℕ → Elements → Elements
    write_times zero ffi_type index rest = rest
    write_times (suc n) ffi_type index rest =
        write_pointer (index * p.sizeof_pointer) ffi_type (write_times n ffi_type (index + 1) rest)

    -- One round of the second loop, with the description of the field's type or, for a fixed-length
    -- array, of its elements' type and their number.
    abbrev pub times_of : Option (Result FfiType × ℕ) → ℕ
    times_of none = 1
    times_of (some (ffi_type, n)) = n

    abbrev pub element_or : Option (Result FfiType × ℕ) → Result FfiType → Result FfiType
    element_or none own = own
    element_or (some (ffi_type, n)) own = ffi_type

    -- The FFI_TYPE struct, with a buffer for so many elements and the NULL.
    abbrev pub with_elements : ℕ → Result Elements → Result FfiType
    with_elements n elements = do
      written ← elements
      ok (struct_type (p.sizeof_pointer * (n + 1)) written)

    unfoldable mutual
      unfolding count_elements describe write_times

      -- What the branch of `type.fields` computes, where a type has them.
      pub described_fields : CType → Option (Result FfiType)
      described_fields (struct n align fields) =
          some (with_elements (count_elements fields) (write_elements fields 0))
      described_fields (union n align fields) =
          some (with_elements (count_elements fields) (write_elements fields 0))
      described_fields (ref_of type) = described_fields type
      described_fields (deref_of type) = described_fields type
      described_fields _ = none

      -- `Type(type.type)` and `type.fixedLength` of a fixed-length array.
      pub described_element : CType → Option (Result FfiType × ℕ)
      described_element (array type (suc n)) = some (describe type (described_fields type), suc n)
      described_element (ref_of type) = described_element type
      described_element (deref_of type) = described_element type
      described_element _ = none

      -- The second loop, and the NULL behind it.
      pub write_elements : Fields → ℕ → Result Elements
      write_elements end index = ok (write_null (index * p.sizeof_pointer) nothing)
      write_elements (field n type offset rest) index = do
        let element = described_element type
        ffi_type ← element_or element (describe type (described_fields type))
        others ← write_elements rest (index + times_of element)
        ok (write_times (times_of element) ffi_type index others)

    -- `Type` of a type object.
    unfoldable pub ffi_type_of : CType → Result FfiType
    unfolding describe described_fields
    ffi_type_of type = describe type (described_fields type)
