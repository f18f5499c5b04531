-- ===== src/Layout/Struct.antt =====
-- `Struct`, `defineProperty` and `recalc` of lib/ref/struct.js. A field list stands in the order of
-- `Object.keys`, which is that of definition (no name is an array index). What a `recalc` that
-- throws leaves behind is not modelled: the operation returns the error alone.
use js_ffi_cross.Base.{
  ℕ, zero, suc, ◌+◌, ◌-◌, ◌%◌, min, max, Bool, false, not, ◌||◌, Option, none, some, List, [], ◌∷◌,
  ltb, ◌==◌, if◌then◌else◌,
}
use js_ffi_cross.Base.Result.{
  Result, ok, err, ◌>>=◌, ◌>>◌, throw_if, instance_already_created, size_not_positive,
  field_already_exists, offset_should_align,
}
use js_ffi_cross.Text.{Text, codes, text_eq}
use js_ffi_cross.CType.{
  CType, Fields, end, field, struct, Platform, indirection, size, alignment, fixed_array,
}
use js_ffi_cross.CType.Coerce.{Types, TypeSpec, coerce_type}

-- The constructor that `Struct` returns, as a type under construction.
pub record StructType : Type 0 where
  pub fields : Fields
  pub size : ℕ
  pub alignment : ℕ
  pub is_packed : Bool
  pub instance_created : Bool

abbrev pub as_type : StructType → CType
as_type s = struct s.size s.alignment s.fields

-- The names on `proto` and on Object.prototype, which no field may have.
abbrev pub reserved : List Text
reserved =
    codes "ref.buffer"
    ∷ codes "toObject"
    ∷ codes "toJSON"
    ∷ codes "inspect"
    ∷ codes "refOverride"
    ∷ codes "constructor"
    ∷ codes "toString"
    ∷ codes "toLocaleString"
    ∷ codes "valueOf"
    ∷ codes "hasOwnProperty"
    ∷ codes "isPrototypeOf"
    ∷ codes "propertyIsEnumerable"
    ∷ codes "__proto__"
    ∷ codes "__defineGetter__"
    ∷ codes "__defineSetter__"
    ∷ codes "__lookupGetter__"
    ∷ codes "__lookupSetter__"
    ∷ []

unfoldable pub is_among : Text → List Text → Bool
is_among name [] = false
is_among name (x ∷ xs) = text_eq x name || is_among name xs

unfoldable pub has_field : Text → Fields → Bool
has_field name end = false
has_field name (field n type offset rest) = text_eq n name || has_field name rest

-- `this.fields[name] = field`, for a new name.
unfoldable pub add_field : Text → CType → Fields → Fields
add_field name type end = field name type 0 end
add_field name type (field n t offset rest) = field n t offset (add_field name type rest)

-- `a || b` of an alignment that may be absent.
abbrev pub truthy_or : Option ℕ → ℕ → ℕ
truthy_or none default = default
truthy_or (some zero) default = default
truthy_or (some (suc n)) default = suc n

module _ (p : Platform) where
  -- The alignment that a field asks for in the first loop of `recalc`.
  unfoldable pub field_alignment : CType → ℕ
  unfolding alignment
  field_alignment type =
      if ltb 1 (indirection type)
      then p.alignof_pointer
      else truthy_or (alignment p type) p.alignof_pointer

  -- The first loop.
  unfoldable pub struct_alignment : Bool → ℕ → Fields → ℕ
  unfolding field_alignment
  struct_alignment packed acc end = acc
  struct_alignment packed acc (field n type offset rest) =
      let a = field_alignment type in
      struct_alignment packed (if packed then min (truthy_or (some acc) a) a else max acc a) rest

  -- The alignment, as `addType` reads it: a type without one gives NaN.
  unfoldable pub own_alignment : CType → Option ℕ
  unfolding alignment
  own_alignment type = if indirection type == 1 then alignment p type else some p.alignof_pointer

  unfoldable pub own_size : CType → ℕ
  unfolding size
  own_size type = if indirection type == 1 then size p type else p.sizeof_pointer

  -- `(align - (offset % align)) % align`; NaN, for an absent or zero alignment, fails the assertion.
  abbrev pub padded : Option ℕ → ℕ → Result ℕ
  padded none offset = err offset_should_align
  padded (some zero) offset = err offset_should_align
  padded (some (suc n)) offset =
      let o = offset + (suc n - offset % suc n) % suc n in
      throw_if (not (o % suc n == 0)) offset_should_align >> ok o

  -- `addType`, at the struct's size so far: the offset of the value and the new size.
  unfoldable pub add_type : Bool → CType → ℕ → Result (ℕ × ℕ)
  unfolding own_alignment own_size
  add_type packed type current = do
    offset ← if packed then ok current else padded (own_alignment type) current
    ok (offset, offset + own_size type)

  -- The loop that adds the further elements of an array.
  unfoldable pub add_types : ℕ → Bool → CType → ℕ → Result ℕ
  unfolding add_type
  add_types zero packed type current = ok current
  add_types (suc n) packed type current = do
    placed ← add_type packed type current
    add_types n packed type placed.1

  -- One round of the second loop: the field's offset and the new size.
  abbrev pub place_array : Bool → CType → Option (CType × ℕ) → ℕ → Result (ℕ × ℕ)
  place_array packed type none current = add_type packed type current
  place_array packed type (some (element, n)) current = do
    first ← add_type packed element current
    last ← add_types (n - 1) packed element first.1
    ok (first.0, last)

  unfoldable pub place_field : Bool → CType → ℕ → Result (ℕ × ℕ)
  unfolding add_types fixed_array
  place_field packed type current = place_array packed type (fixed_array type) current

  -- The second loop.
  unfoldable pub place_fields : Bool → Fields → ℕ → Result (Fields × ℕ)
  unfolding place_field
  place_fields packed end current = ok (end, current)
  place_fields packed (field n type offset rest) current = do
    placed ← place_field packed type current
    others ← place_fields packed rest placed.1
    ok (field n type placed.0 others.0, others.1)

  -- The padding at the end; `size % 0` is NaN, which is not positive.
  unfoldable pub final_size : ℕ → ℕ → ℕ
  final_size size align =
      if align == 0
      then size
      else let left = size % align in if ltb 0 left then size + (align - left) else size

  unfoldable pub recalc : StructType → Result StructType
  unfolding struct_alignment place_fields final_size
  recalc s = do
    let align = struct_alignment s.is_packed 0 s.fields
    placed ← place_fields s.is_packed s.fields 0
    ok (record s { fields = placed.0; size = final_size placed.1 align; alignment = align })

  module _ (types : Types) where
    unfoldable pub define_property : Text → TypeSpec → StructType → Result StructType
    unfolding coerce_type is_among has_field add_field recalc size
    define_property name spec s = do
      type ← coerce_type types spec
      throw_if s.instance_created instance_already_created
      throw_if (not (ltb 1 (indirection type) || ltb 0 (size p type))) size_not_positive
      throw_if (is_among name reserved || has_field name s.fields) field_already_exists
      recalc (record s { fields = add_field name type s.fields })

    unfoldable pub define_all : List (Text × TypeSpec) → StructType → Result StructType
    unfolding define_property
    define_all [] s = ok s
    define_all ((name, spec) ∷ rest) s = do s' ← define_property name spec s; define_all rest s'

    -- `Struct(fields, { packed })`
    unfoldable pub new_struct : List (Text × TypeSpec) → Bool → Result StructType
    unfolding define_all
    new_struct fields packed = define_all fields (record {
      fields = end;
      size = 0;
      alignment = 0;
      is_packed = packed;
      instance_created = false;
    })
