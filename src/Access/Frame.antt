-- ===== src/Access/Frame.antt =====
-- The setters of lib/ref/ref.js and of the built-in types, by what they leave alone.
use js_ffi_cross.Base.{
  ℕ, ◌+◌, ◌≤◌, ◌≡◌, ◌≢◌, refl, ℤ, Bool, true, false, Option, none, some, arith, ltb, ◌==◌,
  if◌then◌else◌,
}
use js_ffi_cross.Base.Result.{
  Error, Result, ok, err, throw_if, ◌>>=◌, index_out_of_range, data_view_bounds,
}
use js_ffi_cross.Word.{to_uint32}
use js_ffi_cross.Scalar.{Scalar, bigint, bigint_of}
use js_ffi_cross.Memory.{Memory, Buffer}
use js_ffi_cross.CType.{
  Accessor, no_value, integer, boolean_byte, character, float_value, double_value, object_value,
  c_string, unknown_type,
}
use js_ffi_cross.Value.{
  Value, scalar, double, text, reference, instance_of, object, elements, other_object,
}
use js_ffi_cross.World.{World, Host, within, stored}
use js_ffi_cross.Codec.Positional.{store}
use js_ffi_cross.Codec.Float.{write_float, float_bytes}
use js_ffi_cross.Codec.Frame
use js_ffi_cross.Codec.Write
use js_ffi_cross.Codec.Frame.{Keeps, Keeps->>=, Keeps->>, Keeps-if, store-Keeps}
use js_ffi_cross.Accessors.Endian.{
  Endian, Setter, le, be, write_uint16, write_uint32, write_big_uint64, write_int16, write_int32,
  write_big_int64,
}
use js_ffi_cross.Accessors.Setters.{
  set_functions_generate, write_function_number, write_function_bigint, call, as_n, set_bool,
  set_char,
}
use js_ffi_cross.Access.{accessor_set, set_character, primitive}

-- A setter that never writes outside of its buffer.
abbrev KeepsAll : Setter → Type 0
KeepsAll f =
    (m : Memory) (buf : Buffer) (val : Scalar) (offset : ℤ) → Keeps buf m (f m buf val offset)

abbrev KeepsAll? : Option Setter → Type 0
KeepsAll? none = Unit
KeepsAll? (some f) = KeepsAll f

KeepsAll?-if :
    (test : Bool) (f g : Option Setter)
    → KeepsAll? f
    → KeepsAll? g
    → KeepsAll? (if test then f else g)
KeepsAll?-if true f g h k = h
KeepsAll?-if false f g h k = k

KeepsAll-if :
    (test : Bool) (f g : Setter) → KeepsAll f → KeepsAll g → KeepsAll (if test then f else g)
KeepsAll-if true f g h k = h
KeepsAll-if false f g h k = k

call-KeepsAll : (f : Option Setter) → KeepsAll? f → KeepsAll (call f)
call-KeepsAll none h m buf val offset = tt
call-KeepsAll (some f) h m buf val offset = h m buf val offset

write_uint16-KeepsAll : (e : Endian) → KeepsAll (write_uint16 e)
unfolding write_uint16
write_uint16-KeepsAll le m buf val offset = Frame.write_uint16_le-Keeps m buf val offset
write_uint16-KeepsAll be m buf val offset = Frame.write_uint16_be-Keeps m buf val offset

write_uint32-KeepsAll : (e : Endian) → KeepsAll (write_uint32 e)
unfolding write_uint32
write_uint32-KeepsAll le m buf val offset = Frame.write_uint32_le-Keeps m buf val offset
write_uint32-KeepsAll be m buf val offset = Frame.write_uint32_be-Keeps m buf val offset

write_big_uint64-KeepsAll : (e : Endian) → KeepsAll (write_big_uint64 e)
unfolding write_big_uint64
write_big_uint64-KeepsAll le m buf val offset = Frame.write_big_uint64_le-Keeps m buf val offset
write_big_uint64-KeepsAll be m buf val offset = Frame.write_big_uint64_be-Keeps m buf val offset

write_int16-KeepsAll : (e : Endian) → KeepsAll (write_int16 e)
unfolding write_int16
write_int16-KeepsAll le m buf val offset = Frame.write_int16_le-Keeps m buf val offset
write_int16-KeepsAll be m buf val offset = Frame.write_int16_be-Keeps m buf val offset

write_int32-KeepsAll : (e : Endian) → KeepsAll (write_int32 e)
unfolding write_int32
write_int32-KeepsAll le m buf val offset = Frame.write_int32_le-Keeps m buf val offset
write_int32-KeepsAll be m buf val offset = Frame.write_int32_be-Keeps m buf val offset

write_big_int64-KeepsAll : (e : Endian) → KeepsAll (write_big_int64 e)
unfolding write_big_int64
write_big_int64-KeepsAll le m buf val offset = Frame.write_big_int64_le-Keeps m buf val offset
write_big_int64-KeepsAll be m buf val offset = Frame.write_big_int64_be-Keeps m buf val offset

module _ (e : Endian) (unsigned : Bool) (size : ℕ) where
  write_function_number-Keeps : KeepsAll? (write_function_number e unsigned size)
  unfolding write_function_number
  write_function_number-Keeps =
      KeepsAll?-if (size == 1)
        (some (
          if unsigned then (λ m b v o. Write.write_uint8 m b v o false) else λ m b v o.
          Write.write_int8 m b v o false))
        (if size == 2
          then some (if unsigned then write_uint16 e else write_int16 e)
          else if size == 4
          then some (if unsigned then write_uint32 e else write_int32 e)
          else none)
        (KeepsAll-if unsigned (λ m b v o. Write.write_uint8 m b v o false)
          (λ m b v o. Write.write_int8 m b v o false) Frame.write_uint8-Keeps
          Frame.write_int8-Keeps)
        (KeepsAll?-if (size == 2) (some (if unsigned then write_uint16 e else write_int16 e))
          (if size == 4 then some (if unsigned then write_uint32 e else write_int32 e) else none)
          (KeepsAll-if unsigned (write_uint16 e) (write_int16 e) (write_uint16-KeepsAll e)
            (write_int16-KeepsAll e))
          (KeepsAll?-if (size == 4) (some (if unsigned then write_uint32 e else write_int32 e)) none
            (KeepsAll-if unsigned (write_uint32 e) (write_int32 e) (write_uint32-KeepsAll e)
              (write_int32-KeepsAll e))
            tt))

  write_function_bigint-Keeps : KeepsAll? (write_function_bigint e unsigned size)
  unfolding write_function_bigint
  write_function_bigint-Keeps =
      KeepsAll?-if (size == 8) (some (if unsigned then write_big_uint64 e else write_big_int64 e))
        none
        (KeepsAll-if unsigned (write_big_uint64 e) (write_big_int64 e) (write_big_uint64-KeepsAll e)
          (write_big_int64-KeepsAll e))
        tt

-- The two setters, each of which falls back on the other's writer.
set_number_of : Option Setter → Option Setter → Setter
set_number_of write_number write_bigint = elim write_number [
  | some f ↦ f
  | none ↦ λ m buf val offset. (bigint_of val >>= λ n. call write_bigint m buf (bigint n) offset)
]

set_bigint_of : Option Setter → Option Setter → Setter
set_bigint_of write_number write_bigint = elim write_bigint [
  | some f ↦ f
  | none ↦ λ m buf val offset. (as_n val >>= λ n. call write_number m buf (bigint n) offset)
]

set_number_of-KeepsAll :
    (f g : Option Setter) → KeepsAll? f → KeepsAll? g → KeepsAll (set_number_of f g)
unfolding set_number_of
set_number_of-KeepsAll (some f) g h k = h
set_number_of-KeepsAll none g h k = λ m buf val offset.
    Keeps->>= buf m (bigint_of val) (λ n. call g m buf (bigint n) offset)
      (λ n. call-KeepsAll g k m buf (bigint n) offset)

set_bigint_of-KeepsAll :
    (f g : Option Setter) → KeepsAll? f → KeepsAll? g → KeepsAll (set_bigint_of f g)
unfolding set_bigint_of
set_bigint_of-KeepsAll f (some g) h k = k
set_bigint_of-KeepsAll f none h k = λ m buf val offset.
    Keeps->>= buf m (as_n val) (λ n. call f m buf (bigint n) offset)
      (λ n. call-KeepsAll f h m buf (bigint n) offset)

pub set-KeepsAll :
    (e : Endian) (max_size_is_8 unsigned : Bool) (size : ℕ)
    → KeepsAll ((set_functions_generate e max_size_is_8 unsigned size).set)
unfolding set_functions_generate set_number_of set_bigint_of
set-KeepsAll e max_size_is_8 unsigned size =
    let write_number = write_function_number e unsigned size in
    let write_bigint = write_function_bigint e unsigned size in
    KeepsAll-if max_size_is_8 (set_bigint_of write_number write_bigint)
      (set_number_of write_number write_bigint)
      (set_bigint_of-KeepsAll write_number write_bigint
        (write_function_number-Keeps e unsigned size) (write_function_bigint-Keeps e unsigned size))
      (set_number_of-KeepsAll write_number write_bigint
        (write_function_number-Keeps e unsigned size) (write_function_bigint-Keeps e unsigned size))

set_bool-Keeps :
    (e : Endian) (max_size_is_8 unsigned : Bool) (size : ℕ)
    → KeepsAll (set_bool (set_functions_generate e max_size_is_8 unsigned size))
unfolding set_bool
set_bool-Keeps e max_size_is_8 unsigned size m buf val offset = search (Keeps->>=, set-KeepsAll)

set_character-Keeps :
    (unsigned : Bool) (buf : Buffer) (value : Value) (offset : ℤ) (m : Memory) (host : Host)
    → Keeps buf m (set_character host unsigned buf value offset m)
unfolding set_char
set_character-Keeps true buf (text t) offset m host = Frame.write_uint8-Keeps m buf _ offset
set_character-Keeps false buf (text t) offset m host = Frame.write_int8-Keeps m buf _ offset
set_character-Keeps unsigned buf (scalar s) offset m host = tt
set_character-Keeps unsigned buf (double bits) offset m host = tt
set_character-Keeps unsigned buf (reference b type) offset m host = tt
set_character-Keeps unsigned buf (instance_of type b) offset m host = tt
set_character-Keeps unsigned buf (object properties) offset m host = tt
set_character-Keeps unsigned buf (elements values) offset m host = tt
set_character-Keeps unsigned buf (other_object n) offset m host = tt

-- A float's bytes are stored where the check let them through.
stored_bits-Keeps :
    (e : Endian) (n : ℕ) (buf : Buffer) (m : Memory) (o next : ℕ) (outside : Bool) (bits : Result ℕ)
    → o + n ≤ buf.length
    → Keeps buf m (
        (bits >>= λ w.
        if outside then err data_view_bounds else ok (store e n m (buf.address + o) w))
        >>= λ written. ok (written, next))
stored_bits-Keeps e n buf m o next outside (err x) inside = tt
stored_bits-Keeps e n buf m o next true (ok w) inside = tt
stored_bits-Keeps e n buf m o next false (ok w) inside = store-Keeps e n buf m o w next inside

throw_if-inside :
    (length o n : ℕ) (e : Error) → throw_if (ltb length (o + n)) e ≡ ok tt → o + n ≤ length
throw_if-inside length o n e h = ground arith

write_float-Keeps :
    (host : Host) (e : Endian) (is_double : Bool) (m : Memory) (buf : Buffer) (value : Value)
    (offset : ℤ)
    → Keeps buf m (write_float host e is_double m buf value offset false)
unfolding write_float
write_float-Keeps host e is_double m buf value offset =
    let n = float_bytes is_double in
    let o = to_uint32 offset in
    let store_bits : Result (Memory × ℕ) =
      ((host.bits_of_float is_double value >>= λ w.
      if ltb buf.room (o + n) then err data_view_bounds else ok (store e n m (buf.address + o) w))
        >>= λ written. ok (written, o + n)) in
    Keeps->> buf m (throw_if (ltb buf.length (o + n)) index_out_of_range) store_bits (λ checked.
      stored_bits-Keeps e n buf m o (o + n) (ltb buf.room (o + n))
        (host.bits_of_float is_double value)
        (throw_if-inside buf.length o n index_out_of_range checked))

-- What a setter's result leaves of the memory.
stored-Keeps :
    (buf : Buffer) (w : World) (result : Result (Memory × ℕ)) (q : ℕ)
    → Keeps buf w.memory result
    → within buf.address buf.length q ≡ false
    → (stored result w).1.memory q ≡ w.memory q
stored-Keeps buf w (err x) q h outside = refl
stored-Keeps buf w (ok (m, next)) q h outside = h q outside

module _ (host : Host) (buf : Buffer) (value : Value) (offset : ℤ) (w : World) (q : ℕ) where
  -- Whatever the value, the offset and the buffer, and whether the call returns or throws, the
  -- setter of a built-in type other than CString changes no byte outside of the buffer.
  pub accessor_set-frame :
      (a : Accessor)
      → a ≢ c_string
      → within buf.address buf.length q ≡ false
      → (accessor_set host a buf value offset w).1.memory q ≡ w.memory q
  unfolding accessor_set
  accessor_set-frame no_value other outside = refl
  accessor_set-frame (integer max_size_is_8 unsigned size) other outside =
      stored-Keeps buf w _ q
        (set-KeepsAll host.endian max_size_is_8 unsigned size w.memory buf (primitive host value)
          offset)
        outside
  accessor_set-frame (boolean_byte max_size_is_8 unsigned size) other outside =
      stored-Keeps buf w _ q
        (set_bool-Keeps host.endian max_size_is_8 unsigned size w.memory buf (primitive host value)
          offset)
        outside
  accessor_set-frame (character unsigned) other outside =
      stored-Keeps buf w _ q (set_character-Keeps unsigned buf value offset w.memory host) outside
  accessor_set-frame float_value other outside =
      stored-Keeps buf w _ q (write_float-Keeps host host.endian false w.memory buf value offset)
        outside
  accessor_set-frame double_value other outside =
      stored-Keeps buf w _ q (write_float-Keeps host host.endian true w.memory buf value offset)
        outside
  accessor_set-frame (object_value max_size_is_8 unsigned size) other outside =
      stored-Keeps buf w _ q
        (set-KeepsAll host.endian max_size_is_8 unsigned size w.memory buf (primitive host value)
          offset)
        outside
  accessor_set-frame c_string other outside = absurd (other refl)
  accessor_set-frame unknown_type other outside = refl
