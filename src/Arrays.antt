-- ===== src/Arrays.antt =====
-- Instances of the array types of lib/ref/array.js: the constructor, `slice`, the elements by index,
-- and `getRef` and `setRef` of a type without a fixed length. What `get` and `set` of struct, union
-- and array types do to the elements is an argument, as it is of `Access`.
pub mod Elements
use js_ffi_cross.Base.{
  ℕ, zero, suc, ◌+◌, ◌-◌, ◌*◌, ◌/◌, pos, ℤ, Bool, true, false, ltb, ◌==◌, if◌then◌else◌, Option,
  none, some, List, [], ◌∷◌, length,
}
use js_ffi_cross.Base.Result.{Result, ok, err, no_array_argument, array_too_short}
use js_ffi_cross.Word.{signed32, to_uint32}
use js_ffi_cross.Memory.{Buffer}
use js_ffi_cross.CType.{CType, bytes_per_element}
use js_ffi_cross.CType.Coerce.{Types, typed}
use js_ffi_cross.Value.{Value, TypedBuffer, reference}
use js_ffi_cross.World.{
  World, Host, Action, pure, lift, raise, raise_if, then_run, ◌>>=◌, ◌>>◌, buffer_alloc,
}
use js_ffi_cross.Pointers.{read_pointer, write_pointer, reinterpret, reinterpret_until_zeros}
use js_ffi_cross.Access.{Composite, get, set}

-- An array type by its element type and fixed length, 0 if it has none, and an instance.
pub record ArrayType : Type 0 where
  pub element : CType
  pub fixed_length : ℕ

pub record ArrayObject : Type 0 where
  pub type : ArrayType
  pub length : ℕ
  pub buffer : Buffer

-- The first argument of the constructor, as far as it looks at it.
pub data Source : Type 0 where
  nothing : Source
  number_of : ℕ → Source
  values : List Value → Source
  on_buffer : Buffer → Source

abbrev pub min : ℕ → ℕ → ℕ
min a b = if ltb b a then b else a

-- `buffer.slice(start, end)`.
abbrev pub slice_buffer : Buffer → ℕ → ℕ → Buffer
slice_buffer buf start end =
    let from = min start buf.length in
    record {
      address = buf.address + from;
      length = min end buf.length - from;
      room = buf.room - from;
    }

-- The length that is given, the fixed one, or that of the data.
abbrev pub length_or : Option ℕ → ℕ → ℕ → ℕ
length_or (some n) fixed own = n
length_or none zero own = own
length_or none (suc n) own = suc n

module _ (host : Host) (composite : Composite) (types : Types) where
  -- BYTES_PER_ELEMENT
  abbrev pub item_size : ArrayType → ℕ
  item_size type = bytes_per_element host.platform type.element

  -- The buffer from which the element at an index is read.
  unfoldable pub reaching : Buffer → ℕ → Result Buffer
  unfolding reinterpret
  reaching buf end = if ltb buf.length end then reinterpret host buf end (pos 0) else ok buf

  -- `array[index]`
  unfoldable pub getter : ArrayObject → ℕ → Action Value
  unfolding reaching get bytes_per_element
  getter array index = do
    let size = item_size array.type
    let offset = size * index
    buffer ← lift (reaching array.buffer (offset + size))
    get host composite types (record { view = buffer; type = none }) (pos offset)
        (some (typed array.type.element))

  -- `array[index] = value`
  unfoldable pub setter : ArrayObject → ℕ → Value → Action (Unit {0})
  unfolding reaching set bytes_per_element
  setter array index value = do
    let size = item_size array.type
    let offset = size * index
    buffer ← lift (reaching array.buffer (offset + size))
    set host composite types (record { view = buffer; type = none }) value (pos offset)
        (some (typed array.type.element))

  -- The loop that copies an Array into the new instance, up to its length.
  unfoldable pub fill : ArrayObject → ℕ → ℕ → List Value → Action (Unit {0})
  unfolding setter
  fill array index zero vals = pure tt
  fill array index (suc left) [] = pure tt
  fill array index (suc left) (val ∷ vals) = do
    setter array index val
    fill array (index + 1) left vals

  abbrev pub allocated : ArrayType → ℕ → Action ArrayObject
  allocated type n = do
    buffer ← buffer_alloc host (n * item_size type)
    pure (record { type = type; length = n; buffer = buffer })

  -- `new ArrayType(data, length)`; the quotient is below 2^31, where `| 0` leaves it alone.
  unfoldable pub new_array : ArrayType → Source → Option ℕ → Action ArrayObject
  unfolding buffer_alloc fill bytes_per_element
  new_array type nothing n =
      if type.fixed_length == 0 then raise no_array_argument else allocated type type.fixed_length
  new_array type (number_of count) n = allocated type count
  new_array type (values vals) n = do
    let len = length_or n type.fixed_length (length vals)
    raise_if (ltb (length vals) len) array_too_short
    array ← allocated type len
    fill array 0 len vals
    pure array
  new_array type (on_buffer buf) n = do
    let len = length_or n type.fixed_length (buf.length / item_size type)
    let expected = item_size type * len
    raise_if (ltb buf.length expected) array_too_short
    pure (record {
      type = type;
      length = len;
      buffer = if buf.length == expected then buf else slice_buffer buf 0 expected;
    })

  abbrev pub slice_end : Buffer → ℕ → Option ℕ → ℕ
  slice_end buf size none = buf.length
  slice_end buf size (some n) = if n == 0 then buf.length else n * size

  -- `array.slice(start, end)`; an `end` of 0 counts as none.
  unfoldable pub slice : ArrayObject → ℕ → Option ℕ → Action ArrayObject
  unfolding new_array bytes_per_element
  slice array start end =
      let size = item_size array.type in
      let last = slice_end array.buffer size end in
      new_array array.type (on_buffer (slice_buffer array.buffer (start * size) last)) none

  -- `get` and `set` of a type with a fixed length; `set` takes an Array or an instance, of any length.
  unfoldable pub get_fixed : ArrayType → Buffer → ℕ → Action ArrayObject
  unfolding new_array
  get_fixed type buffer offset =
      new_array type
        (on_buffer (if ltb 0 offset then slice_buffer buffer offset buffer.length else buffer)) none

  unfoldable pub set_fixed : ArrayType → Buffer → List Value → ℕ → Action (Unit {0})
  unfolding get_fixed fill
  set_fixed type buffer vals offset = do
    array ← get_fixed type buffer offset
    fill array 0 (length vals) vals

  unfoldable pub copy_elements : ArrayObject → ArrayObject → ℕ → ℕ → Action (Unit {0})
  unfolding getter setter
  copy_elements array value index zero = pure tt
  copy_elements array value index (suc left) = do
    val ← getter value index
    setter array index val
    copy_elements array value (index + 1) left

  unfoldable pub set_fixed_from : ArrayType → Buffer → ArrayObject → ℕ → Action (Unit {0})
  unfolding get_fixed copy_elements
  set_fixed_from type buffer value offset = do
    array ← get_fixed type buffer offset
    copy_elements array value 0 value.length

  -- `getRef` and `setRef`, of an instance.
  unfoldable pub get_ref : ArrayType → Buffer → ℤ → Action ArrayObject
  unfolding read_pointer new_array
  get_ref type buffer offset = do
    pointed ← read_pointer host buffer offset 0
    new_array type (on_buffer pointed) none

  unfoldable pub set_ref : Buffer → ArrayObject → ℤ → Action (Unit {0})
  unfolding write_pointer
  set_ref buffer array offset = write_pointer host buffer (reference array.buffer none) offset

  -- `untilZeros`, with the size of the element type as the source has it.
  unfoldable pub until_zeros_array : ArrayType → ℕ → Buffer → Action ArrayObject
  unfolding reinterpret_until_zeros new_array
  until_zeros_array type type_size buffer = do
    view ← reinterpret_until_zeros host buffer type_size (pos 0)
    new_array type (on_buffer view) none
