-- ===== src/Codec/Check.antt =====
-- The checks of lib/ref/buffer.js that run before a read or a write.
use js_ffi_cross.Base.{
  ℕ, ◌+◌, ℤ, pos, negsuc, sub_ℕ, ltb_ℤ, Bool, true, false, ◌||◌, Option, none, some, ltb,
  if◌then◌else◌,
}
use js_ffi_cross.Base.Result.{
  Error, Result, err, throw_if, ◌>>◌, offset_is_not_uint, beyond_buffer_length, value_out_of_bounds,
  index_out_of_range, err_invalid_arg_type, err_buffer_out_of_bounds, err_value_out_of_range,
  err_offset_out_of_range,
}
use js_ffi_cross.Scalar.{Scalar, bigint}
use js_ffi_cross.Memory.{Memory, Buffer, element}

-- An integral offset has `offset % 1 === 0`, so only its sign is left of the first test.
unfoldable pub check_offset : ℤ → ℕ → ℕ → Result (Unit {0})
check_offset (negsuc n) ext length = err offset_is_not_uint
check_offset (pos offset) ext length = throw_if (ltb length (offset + ext)) beyond_buffer_length

-- A comparison with NaN is false.
abbrev pub outside : Option ℤ → ℤ → ℤ → Bool
outside none max min = false
outside (some value) max min = ltb_ℤ max value || ltb_ℤ value min

-- Every buffer of the model is a Uint8Array.
unfoldable pub check_int : Buffer → Option ℤ → ℕ → ℕ → ℤ → ℤ → Result (Unit {0})
check_int buf value offset ext max min =
    throw_if (outside value max min) value_out_of_bounds
    >> throw_if (ltb buf.length (offset + ext)) index_out_of_range

-- What `boundsError` throws at an integral value; `type` is always absent.
unfoldable pub bounds_error : ℤ → ℤ → Error
bounds_error value length =
    if ltb_ℤ length (pos 0) then err_buffer_out_of_bounds else err_offset_out_of_range value

abbrev pub is_undefined : Option ℕ → Bool
is_undefined none = true
is_undefined (some x) = false

-- The first and the last byte of an access are there. `byte_length` is one less than its size.
unfoldable pub check_bounds : Memory → Buffer → ℕ → ℕ → Result (Unit {0})
unfolding bounds_error
check_bounds m buf offset byte_length =
    throw_if
      (is_undefined (element m buf offset) || is_undefined (element m buf (offset + byte_length)))
      (bounds_error (pos offset) (sub_ℕ buf.length (byte_length + 1)))

unfoldable pub check_int_bi : Scalar → ℤ → ℤ → Memory → Buffer → ℕ → ℕ → Result (Unit {0})
unfolding check_bounds
check_int_bi (bigint value) min max m buf offset byte_length =
    throw_if (outside (some value) max min) err_value_out_of_range
    >> check_bounds m buf offset byte_length
check_int_bi value min max m buf offset byte_length = err err_invalid_arg_type
