-- ===== src/CType.antt =====
-- The "type" objects of lib/ref/ref.js: the built-in ones, those that lib/ref/struct.js,
-- lib/ref/union.js and lib/ref/array.js make, and the clones of `refType` and `derefType`, which
-- inherit every attribute that they do not set from the type they are made of.
pub mod Coerce
pub mod CoerceLaws
use js_ffi_cross.Base.{
  Bool, ℕ, zero, suc, ◌+◌, ◌-◌, ◌*◌, ltb, ◌==◌, if◌then◌else◌, Bool, true, false, Option, none,
  some, List, [], ◌∷◌, ◌++◌,
}
use js_ffi_cross.Text.{Text, codes}

-- `sizeof` and `alignof` of a pointer, from the native module.
pub record Platform : Type 0 where
  pub sizeof_pointer : ℕ
  pub alignof_pointer : ℕ

-- The ffi_type objects of the native module, by name.
pub data Builtin : Type 0 where
  ffi_void ffi_uint8 ffi_int8 ffi_uint16 ffi_int16 ffi_uint32 ffi_int32 ffi_uint64 ffi_int64 :
      Builtin
  ffi_float ffi_double ffi_pointer : Builtin

-- What an atom's `get` and `set` are: those that `createCType` generates from `max_size_is_8`,
-- `unsigned` and the size, those that `overrideGetSetFunctions` puts in their place, those of `void`
-- and of `CString`, and the throwing ones of a buffer without a type.
pub data Accessor : Type 0 where
  no_value : Accessor
  integer : Bool → Bool → ℕ → Accessor
  boolean_byte : Bool → Bool → ℕ → Accessor
  character : Bool → Accessor
  float_value double_value : Accessor
  object_value : Bool → Bool → ℕ → Accessor
  c_string : Accessor
  unknown_type : Accessor

-- An object that stands for itself, with the attributes that it has or inherits: a built-in type or
-- one of the user's. An absent `alignment`, `name` or `ffi_type` is `none`.
pub record Atom : Type 0 where
  pub name : Option Text
  pub size : ℕ
  pub alignment : Option ℕ
  pub indirection : ℕ
  pub ffi_type : Option Builtin
  pub accessor : Accessor

-- `struct` and `union` carry the size, alignment and fields that their last `recalc` left; `array`
-- its element type and its fixed length, 0 if it has none.
mutual
  pub data CType : Type 0 where
    atom : Atom → CType
    struct : ℕ → ℕ → Fields → CType
    union : ℕ → ℕ → Fields → CType
    array : CType → ℕ → CType
    ref_of : CType → CType
    deref_of : CType → CType

  pub data Fields : Type 0 where
    end : Fields
    field : Text → CType → ℕ → Fields → Fields

abbrev pub indirection : CType → ℕ
indirection (atom a) = a.indirection
indirection (struct size align fields) = 1
indirection (union size align fields) = 1
indirection (array type n) = 1
indirection (ref_of type) = indirection type + 1
indirection (deref_of type) = indirection type - 1

module _ (p : Platform) where
  -- `type.size`, and BYTES_PER_ELEMENT of an array of it.
  unfoldable pub size : CType → ℕ
  size (atom a) = a.size
  size (struct n align fields) = n
  size (union n align fields) = n
  size (array type zero) = p.sizeof_pointer
  size (array type (suc n)) =
      (if indirection type == 1 then size type else p.sizeof_pointer) * suc n
  size (ref_of type) = size type
  size (deref_of type) = size type

  unfoldable pub bytes_per_element : CType → ℕ
  unfolding size
  bytes_per_element type = if indirection type == 1 then size type else p.sizeof_pointer

  unfoldable pub alignment : CType → Option ℕ
  alignment (atom a) = a.alignment
  alignment (struct n align fields) = some align
  alignment (union n align fields) = some align
  alignment (array type zero) = some p.alignof_pointer
  alignment (array type (suc n)) = alignment type
  alignment (ref_of type) = alignment type
  alignment (deref_of type) = alignment type

-- `type.fixedLength` with `type.type`, which array types with a fixed length set.
unfoldable pub fixed_array : CType → Option (CType × ℕ)
fixed_array (array type (suc n)) = some (type, suc n)
fixed_array (ref_of type) = fixed_array type
fixed_array (deref_of type) = fixed_array type
fixed_array _ = none

-- `type.type`, which every array type sets.
unfoldable pub element_type : CType → Option CType
element_type (array type n) = some type
element_type (ref_of type) = element_type type
element_type (deref_of type) = element_type type
element_type _ = none

-- `type.fields`, which struct and union types set.
unfoldable pub fields_of : CType → Option Fields
fields_of (struct n align fields) = some fields
fields_of (union n align fields) = some fields
fields_of (ref_of type) = fields_of type
fields_of (deref_of type) = fields_of type
fields_of _ = none

abbrev star : Option Text → Option Text
star none = none
star (some name) = some (name ++ (b'*' ∷ []))

-- `type.name`: a constructor's is its function's name, and `refType` appends a star.
unfoldable pub name_of : CType → Option Text
name_of (atom a) = a.name
name_of (struct n align fields) = some (codes "StructType")
name_of (union n align fields) = some (codes "UnionType")
name_of (array type n) = some (codes "ArrayType")
name_of (ref_of type) = star (name_of type)
name_of (deref_of type) = name_of type
