-- ===== src/Access.antt =====
-- `get`, `set`, `alloc`, `ref` and `deref` of lib/ref/ref.js, with the C strings and the accessors of
-- the built-in types. The `get` and `set` of struct, union and array types, which lib/ref/struct.js,
-- union.js and array.js put on their types, are an argument.
pub mod Alloc
pub mod Bytes
pub mod Direct
pub mod Strings
pub mod Frame
pub mod Deref
use js_ffi_cross.Base.{
  ℕ, zero, suc, ◌+◌, ◌-◌, ℤ, pos, negsuc, Bool, true, false, ltb, ◌==◌, if◌then◌else◌, Option, none,
  some, List, [], ◌∷◌, length,
}
use js_ffi_cross.Base.Result.{
  Result, ok, err, not_a_function, no_indirection, unknown_buffer_type, index_out_of_range,
  err_invalid_arg_type, not_a_string,
}
use js_ffi_cross.Scalar.{Scalar, undefined, null}
use js_ffi_cross.Memory.{Memory, Buffer, poke}
use js_ffi_cross.Text.{Text, codes}
use js_ffi_cross.CType.{
  CType, Atom, Accessor, no_value, integer, boolean_byte, character, float_value, double_value,
  object_value, c_string, unknown_type, atom, struct, union, array, ref_of, deref_of, indirection,
  size,
}
use js_ffi_cross.CType.Coerce.{
  Types, TypeSpec, named, typed, other, coerce_type, deref_type, ref_type,
}
use js_ffi_cross.Value.{
  Value, scalar, double, text, reference, instance_of, other_object, TypedBuffer,
}
use js_ffi_cross.World.{
  World, Host, Action, pure, lift, raise, raise_if, reading, writing, stored, ◌>>=◌, ◌>>◌, then_run,
  displaced, pointer_size, buffer_alloc, buffer_alloc_unsafe,
}
use js_ffi_cross.Codec.Float.{read_float, write_float}
use js_ffi_cross.Accessors.Getters.{GetFunctions, get_functions_generate, get_bool, get_char}
use js_ffi_cross.Accessors.Setters.{SetFunctions, set_functions_generate, set_bool, set_char}
use js_ffi_cross.Pointers.{read_pointer, write_pointer, until_zeros, is_null, address_for_args}

-- The `get` and `set` of struct, union and array types.
pub record Composite : Type 0 where
  pub get : CType → Buffer → ℤ → Action Value
  pub set : CType → Buffer → Value → ℤ → Action (Unit {0})

-- The accessor that a type has or inherits; `none` for a struct, union or array type.
unfoldable pub accessor : CType → Option Accessor
accessor (atom a) = some a.accessor
accessor (ref_of type) = accessor type
accessor (deref_of type) = accessor type
accessor _ = none

abbrev pub null_buffer : Buffer
null_buffer = record { address = 0; length = 0; room = 0 }

-- The type that `getType` puts on a buffer without one.
abbrev pub default_type : ℕ → CType
default_type length = atom (record {
  name = none;
  size = length;
  alignment = none;
  indirection = 1;
  ffi_type = none;
  accessor = unknown_type;
})

-- The bytes of a view, and a text's bytes put in memory.
unfoldable pub bytes_at : ℕ → Memory → ℕ → List ℕ
bytes_at zero m a = []
bytes_at (suc n) m a = m a ∷ bytes_at n m (a + 1)

unfoldable pub put_bytes : Memory → ℕ → List ℕ → Memory
put_bytes m a [] = m
put_bytes m a (b ∷ bytes) = poke (put_bytes m (a + 1) bytes) a b

module _ (host : Host) where
  -- `readCString`
  unfoldable pub read_c_string : Buffer → ℤ → Action Value
  unfolding until_zeros bytes_at
  read_c_string buf offset = do
    m ← (λ w. (ok w.memory, w))
    view ← lift (until_zeros host 1 m buf offset)
    pure (text (host.decode (bytes_at view.length m view.address)))

  -- `writeCString` of a string, at an offset that is given. `buffer.write` refuses a negative length.
  unfoldable pub write_c_string : Buffer → Text → ℕ → Action (Unit {0})
  unfolding put_bytes
  write_c_string buf string offset w =
      if ltb buf.length (offset + 1)
      then (err index_out_of_range, w)
      else let bytes = host.encode_within (buf.length - offset - 1) string in
        let written = put_bytes w.memory (buf.address + offset) bytes in
        if ltb (offset + length bytes) buf.length
        then (ok tt, record w { memory = poke written (buf.address + (offset + length bytes)) 0 })
        else (err index_out_of_range, record w { memory = written })

  -- `allocCString`: NULL for null, undefined and a NULL buffer. Another buffer has a length but is no
  -- string to `writeCString`, and anything else has none to `Buffer.byteLength`. The type that the
  -- buffer gets is left out: its callers look at the address alone.
  unfoldable pub alloc_c_string : Value → Action Buffer
  unfolding buffer_alloc_unsafe write_c_string is_null
  alloc_c_string (scalar undefined) = pure null_buffer
  alloc_c_string (scalar null) = pure null_buffer
  alloc_c_string (text string) = do
    buf ← buffer_alloc_unsafe host (length (host.encode string) + 1)
    write_c_string buf string 0
    pure buf
  alloc_c_string (reference buf type) =
      if is_null host buf
      then pure null_buffer
      else (do fresh ← buffer_alloc_unsafe host (buf.length + 1); raise not_a_string)
  alloc_c_string _ = raise err_invalid_arg_type

  -- `get` and `set` of `CString`.
  unfoldable pub get_c_string : Buffer → ℤ → Action Value
  unfolding read_pointer is_null read_c_string
  get_c_string buf offset = do
    pointed ← read_pointer host buf offset 0
    if is_null host pointed then pure (scalar null) else read_c_string pointed (pos 0)

  unfoldable pub set_c_string : Buffer → Value → ℤ → Action (Unit {0})
  unfolding alloc_c_string write_pointer
  set_c_string buf (reference pointed type) offset =
      write_pointer host buf (reference pointed type) offset
  set_c_string buf value offset = do
    pointed ← alloc_c_string value
    write_pointer host buf (reference pointed none) offset

  -- A value where the language wants a primitive.
  abbrev pub primitive : Value → Scalar
  primitive (scalar s) = s
  primitive value = host.to_scalar value

  abbrev pub as_scalar : Result Scalar → Result Value
  as_scalar (ok s) = ok (scalar s)
  as_scalar (err e) = err e

  abbrev pub as_text : Result Text → Result Value
  as_text (ok t) = ok (text t)
  as_text (err e) = err e

  unfoldable pub accessor_get : Accessor → Buffer → ℤ → Action Value
  unfolding get_functions_generate get_bool get_char read_float get_c_string
  accessor_get no_value buf offset = pure (scalar undefined)
  accessor_get (integer max_size_is_8 unsigned size) buf offset = reading (λ m.
      as_scalar ((get_functions_generate host.endian max_size_is_8 unsigned size).get m buf offset))
  accessor_get (boolean_byte max_size_is_8 unsigned size) buf offset = reading (λ m.
      as_scalar
        (get_bool (get_functions_generate host.endian max_size_is_8 unsigned size) m buf offset))
  accessor_get (character unsigned) buf offset = reading (λ m. as_text (get_char m buf offset))
  accessor_get float_value buf offset =
      reading (λ m. read_float host host.endian false m buf offset false)
  accessor_get double_value buf offset =
      reading (λ m. read_float host host.endian true m buf offset false)
  accessor_get (object_value max_size_is_8 unsigned size) buf offset =
      reading (λ m. host.read_object m (address_for_args host buf offset))
  accessor_get c_string buf offset = get_c_string buf offset
  accessor_get unknown_type buf offset = raise unknown_buffer_type

  -- `val.charCodeAt(0)` is a call of `undefined` where the value is no string.
  abbrev pub set_character : Bool → Buffer → Value → ℤ → Memory → Result (Memory × ℕ)
  set_character unsigned buf (text string) offset m = set_char unsigned m buf string offset
  set_character unsigned buf value offset m = err not_a_function

  unfoldable pub accessor_set : Accessor → Buffer → Value → ℤ → Action (Unit {0})
  unfolding set_functions_generate set_bool set_char write_float set_c_string
  accessor_set no_value buf value offset = pure tt
  accessor_set (integer max_size_is_8 unsigned size) buf value offset = writing (λ m.
      (set_functions_generate host.endian max_size_is_8 unsigned size).set m buf (primitive value)
        offset)
  accessor_set (boolean_byte max_size_is_8 unsigned size) buf value offset = writing (λ m.
      set_bool (set_functions_generate host.endian max_size_is_8 unsigned size) m buf
        (primitive value) offset)
  accessor_set (character unsigned) buf value offset =
      writing (set_character unsigned buf value offset)
  accessor_set float_value buf value offset =
      writing (λ m. write_float host host.endian false m buf value offset false)
  accessor_set double_value buf value offset =
      writing (λ m. write_float host host.endian true m buf value offset false)
  accessor_set (object_value max_size_is_8 unsigned size) buf value offset = writing (λ m.
      (set_functions_generate host.endian max_size_is_8 unsigned size).set m buf (primitive value)
        offset)
  accessor_set c_string buf value offset = set_c_string buf value offset
  accessor_set unknown_type buf value offset = raise unknown_buffer_type

  module _ (composite : Composite) (types : Types) where
    -- `type.get(buffer, offset)` and `type.set(buffer, value, offset)`.
    abbrev pub by_accessor_get : Option Accessor → CType → Buffer → ℤ → Action Value
    by_accessor_get none type buf offset = composite.get type buf offset
    by_accessor_get (some a) type buf offset = accessor_get a buf offset

    abbrev pub by_accessor_set : Option Accessor → CType → Buffer → Value → ℤ → Action (Unit {0})
    by_accessor_set none type buf value offset = composite.set type buf value offset
    by_accessor_set (some a) type buf value offset = accessor_set a buf value offset

    -- `getType`. A buffer without a type gets the same default at every call.
    unfoldable pub get_type : TypedBuffer → Result CType
    unfolding coerce_type
    get_type buf = elim buf.type [
      | none ↦ ok (default_type buf.view.length)
      | some spec ↦ coerce_type types spec
    ]

    abbrev pub type_or : TypedBuffer → Option TypeSpec → Result CType
    type_or buf none = get_type buf
    type_or buf (some spec) = coerce_type types spec

    -- The size of what a pointer type points to.
    unfoldable pub pointed_size : CType → ℕ
    unfolding size
    pointed_size type = if indirection type == 2 then size host.platform type else pointer_size host

    unfoldable pub get : TypedBuffer → ℤ → Option TypeSpec → Action Value
    unfolding get_type coerce_type accessor accessor_get read_pointer pointed_size
    get buf offset spec = do
      type ← lift (type_or buf spec)
      raise_if (indirection type == 0) no_indirection
      if indirection type == 1 then by_accessor_get (accessor type) type buf.view offset else (do
        pointed ← read_pointer host buf.view offset (pointed_size type)
        target ← lift (deref_type type)
        pure (reference pointed (some (typed target))))

    unfoldable pub set : TypedBuffer → Value → ℤ → Option TypeSpec → Action (Unit {0})
    unfolding get_type coerce_type accessor accessor_set write_pointer
    set buf value offset spec = do
      type ← lift (type_or buf spec)
      raise_if (indirection type == 0) no_indirection
      if indirection type == 1
          then by_accessor_set (accessor type) type buf.view value offset
          else write_pointer host buf.view value offset

    -- The size of a value of a type, as an argument or behind a pointer.
    unfoldable pub value_size : CType → ℕ
    unfolding size
    value_size type = if indirection type == 1 then size host.platform type else pointer_size host

    abbrev pub set_initial : TypedBuffer → CType → Option Value → Action (Unit {0})
    set_initial buf type none = pure tt
    set_initial buf type (some value) = set buf value (pos 0) (some (typed type))

    -- `alloc(type)` and `alloc(type, value)`.
    unfoldable pub alloc : TypeSpec → Option Value → Action TypedBuffer
    unfolding coerce_type buffer_alloc set value_size
    alloc spec value = do
      type ← lift (coerce_type types spec)
      view ← buffer_alloc host (value_size type)
      let buf : TypedBuffer = record { view = view; type = some (typed type) }
      set_initial buf type value
      pure buf

    -- `ref` of a Buffer.
    unfoldable pub ref : TypedBuffer → Action TypedBuffer
    unfolding get_type ref_type alloc
    ref buf = do
      type ← lift (get_type buf)
      target ← lift (ref_type types (typed type))
      alloc (typed target) (some (reference buf.view (some (typed type))))

    unfoldable pub deref : TypedBuffer → Action Value
    unfolding get
    deref buf = get buf (pos 0) none
