-- ===== src/Instances.antt =====
-- Instances of the struct types of lib/ref/struct.js and the union types of lib/ref/union.js: the
-- constructors, the getters and setters of the fields, `get` and `set` of the types, and `toObject`.
-- The `type` that the backing Buffer gets, and properties of an instance that are no fields, are left
-- out, since they touch no memory. Arrays, Buffers and texts are taken to enumerate no name of a field;
-- an array instance enumerates its `buffer` and what `Host` says of it.
pub mod Integers
pub mod Objects
pub mod Loops
pub mod Offsets
pub mod RoundTrip
pub mod Copy
pub mod Unions
pub mod Aliasing
use js_ffi_cross.Base.{
  ℕ, zero, suc, ◌+◌, ◌-◌, ◌*◌, pos, negsuc, ℤ, Bool, true, false, ltb, ◌==◌, if◌then◌else◌, Option,
  none, some, List, [], ◌∷◌, length,
}
use js_ffi_cross.Base.Result.{Result, ok, err, instance_buffer_too_short, err_offset_out_of_range}
use js_ffi_cross.Memory.{Memory, Buffer}
use js_ffi_cross.Text.{Text, codes, text_eq}
use js_ffi_cross.Scalar.{undefined}
use js_ffi_cross.CType.{CType, Fields, end, field, struct, union, array, size}
use js_ffi_cross.CType.Coerce.{Types, typed}
use js_ffi_cross.Value.{
  Value, scalar, double, text, reference, instance_of, object, elements, other_object, Properties,
  no_property, property, TypedBuffer,
}
use js_ffi_cross.World.{
  World, Host, Action, pure, lift, raise, raise_if, then_run, ◌>>=◌, ◌>>◌, within, buffer_alloc,
}
use js_ffi_cross.Access.{Composite, get, set}
use js_ffi_cross.Arrays.{slice_buffer, min}

-- `type.fields` of a struct or union type.
abbrev pub members : CType → Fields
members (struct n align fields) = fields
members (union n align fields) = fields
members type = end

abbrev pub is_array : CType → Bool
is_array (array element n) = true
is_array type = false

-- The type and the offset of a member; all members of a union stand at its start.
abbrev pub member_offset : CType → ℕ → ℕ
member_offset (union n align fields) offset = 0
member_offset type offset = offset

unfoldable pub find_field : Text → Fields → Option (CType × ℕ)
unfolding text_eq
find_field name end = none
find_field name (field n type offset rest) =
    if text_eq n name then some (type, offset) else find_field name rest

-- `if (offset > 0) buffer = buffer.slice(offset)`
abbrev pub from_offset : Buffer → ℤ → Buffer
from_offset buffer (pos offset) =
    if ltb 0 offset then slice_buffer buffer offset buffer.length else buffer
from_offset buffer (negsuc n) = buffer

-- `source.copy(target, start, 0, size)`, which copies as if by a buffer between.
unfoldable pub copy_buffer : Buffer → Buffer → ℤ → ℕ → Action (Unit {0})
copy_buffer source target (negsuc n) size w = (err (err_offset_out_of_range (negsuc n)), w)
copy_buffer source target (pos start) size w =
    let count = min (min size source.length) (target.length - start) in
    let first = target.address + start in
    (
      ok tt,
      record w {
        memory = λ q.
            if within first count q then w.memory (source.address + (q - first)) else w.memory q;
      },
    )

module _ (host : Host) (composite : Composite) (types : Types) where
  -- The getter and the setter of a field; what is assigned to another name changes no memory.
  abbrev pub get_member : CType → Buffer → Option (CType × ℕ) → Action Value
  get_member type store none = pure (scalar undefined)
  get_member type store (some (member, offset)) =
      get host composite types (record { view = store; type = some (typed type) })
        (pos (member_offset type offset)) (some (typed member))

  abbrev pub set_member : CType → Buffer → Option (CType × ℕ) → Value → Action (Unit {0})
  set_member type store none value = pure tt
  set_member type store (some (member, offset)) value =
      set host composite types (record { view = store; type = some (typed type) }) value
        (pos (member_offset type offset)) (some (typed member))

  unfoldable pub get_field : CType → Buffer → Text → Action Value
  unfolding find_field get
  get_field type store name = get_member type store (find_field name (members type))

  unfoldable pub set_field : CType → Buffer → Text → Value → Action (Unit {0})
  unfolding find_field set
  set_field type store name value = set_member type store (find_field name (members type)) value

  -- `instance[key] = object[key]`; the name of the backing store is one that can be assigned.
  abbrev pub assign : CType → Buffer → Text → Value → Action Buffer
  assign type store name (reference buf buf_type) =
      if text_eq name (codes "ref.buffer")
      then pure buf
      else (set_field type store name (reference buf buf_type) >> pure store)
  assign type store name value = set_field type store name value >> pure store

  unfoldable pub assign_all : CType → Buffer → Properties → Action Buffer
  unfolding set_field text_eq
  assign_all type store no_property = pure store
  assign_all type store (property name value rest) = do
    store' ← assign type store name value
    assign_all type store' rest

  -- The fields of an instance are assigned to another one, in order.
  unfoldable pub copy_fields : CType → Buffer → CType → Buffer → Fields → Action (Unit {0})
  unfolding get_field set_field
  copy_fields type store source_type source end = pure tt
  copy_fields type store source_type source (field name member offset rest) = do
    value ← get_field source_type source name
    set_field type store name value
    copy_fields type store source_type source rest

  -- An array instance has no "ref.buffer": its own `buffer` is assigned by name, as all else that it
  -- enumerates.
  unfoldable pub assign_array : CType → Buffer → CType → Buffer → Action Buffer
  unfolding assign_all
  assign_array type store source_type source = do
    store' ← assign_all type store (host.array_own source_type source)
    assign_all type store' (
        property (codes "buffer") (reference source none) (host.array_inherited source_type source))

  -- `for (key in arg)`. The own key of an instance of a struct or union is "ref.buffer", before the
  -- fields that it inherits: its store becomes that of the new instance.
  unfoldable pub assign_from : CType → Buffer → Value → Action Buffer
  unfolding assign_all copy_fields assign_array
  assign_from type store (object properties) = assign_all type store properties
  assign_from type store (instance_of source_type source) =
      if is_array source_type
      then assign_array type store source_type source
      else (do copy_fields type source source_type source (members source_type); pure source)
  assign_from type store value = pure store

  -- `new StructType(arg, data)` with a Buffer, or without one; `none` is `undefined`.
  abbrev pub assigned : CType → Buffer → Option Value → Action Value
  assigned type store none = pure (instance_of type store)
  assigned type store (some value) = do
    store' ← assign_from type store value
    pure (instance_of type store')

  unfoldable pub new_instance : CType → Option Buffer → Option Value → Action Value
  unfolding size buffer_alloc assign_from
  new_instance type (some store) value = do
    raise_if (ltb store.length (size host.platform type)) instance_buffer_too_short
    assigned type store value
  new_instance type none value = do
    store ← buffer_alloc host (size host.platform type)
    assigned type store value

  -- `get` of both kinds of types.
  unfoldable pub get_instance : CType → Buffer → ℤ → Action Value
  unfolding new_instance
  get_instance type buffer offset = new_instance type (some (from_offset buffer offset)) none

  -- `toObject`
  unfoldable pub to_properties : CType → Buffer → Fields → Action Properties
  unfolding get_field
  to_properties type store end = pure no_property
  to_properties type store (field name member offset rest) = do
    value ← get_field type store name
    others ← to_properties type store rest
    pure (property name value others)

  unfoldable pub to_object : CType → Buffer → Action Properties
  unfolding to_properties
  to_object type store = to_properties type store (members type)

  -- Types are the same if they are one object, which `instanceof` decides.
  module _ (same : CType → CType → Bool) where
    unfoldable pub set_struct : CType → Buffer → Value → ℤ → Action (Unit {0})
    unfolding copy_buffer new_instance size
    set_struct type buffer (instance_of source_type source) offset =
        if same source_type type
        then copy_buffer source buffer offset (size host.platform type)
        else (do
          made ←
              new_instance type (some (from_offset buffer offset))
                (some (instance_of source_type source))
          pure tt)
    set_struct type buffer value offset = do
      made ← new_instance type (some (from_offset buffer offset)) (some value)
      pure tt

    -- A union is copied field by field.
    abbrev pub assign_union : CType → Buffer → Value → Action (Unit {0})
    assign_union type store (instance_of source_type source) =
        if same source_type type
        then copy_fields type store source_type source (members type)
        else (do store' ← assign_from type store (instance_of source_type source); pure tt)
    assign_union type store value = do store' ← assign_from type store value; pure tt

    unfoldable pub set_union : CType → Buffer → Value → ℤ → Action (Unit {0})
    unfolding copy_fields new_instance assign_from
    set_union type buffer value offset = do
      let store = from_offset buffer offset
      made ← new_instance type (some store) none
      assign_union type store value
