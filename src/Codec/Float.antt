-- ===== src/Codec/Float.antt =====
-- The float and double readers and writers of lib/ref/buffer.js. What DataView makes of the bits is
-- the host's.
use js_ffi_cross.Base.{ℕ, ◌+◌, ℤ, pos, Bool, ltb, if◌then◌else◌}
use js_ffi_cross.Base.Result.{
  Result, ok, err, ◌>>=◌, ◌>>◌, throw_if, unless, index_out_of_range, data_view_bounds,
}
use js_ffi_cross.Word.{to_uint32}
use js_ffi_cross.Memory.{Memory, Buffer}
use js_ffi_cross.Value.{Value}
use js_ffi_cross.World.{Host}
use js_ffi_cross.Codec.Check.{check_offset}
use js_ffi_cross.Codec.Positional.{load, store}
use js_ffi_cross.Accessors.Endian.{Endian}

-- `offset` is not negative after `>>> 0`, so only its upper bound is left; the range is not looked at.
unfoldable pub check_ieee754 : Buffer → ℕ → ℕ → Result (Unit {0})
check_ieee754 buf offset ext = throw_if (ltb buf.length (offset + ext)) index_out_of_range

abbrev pub float_bytes : Bool → ℕ
float_bytes is_double = if is_double then 8 else 4

module _ (host : Host) (order : Endian) (is_double : Bool) where
  abbrev size : ℕ
  size = float_bytes is_double

  -- `view.getFloat32(…)` and `view.getFloat64(…)` on the whole ArrayBuffer.
  abbrev pub get_view : Memory → Buffer → ℕ → Result Value
  get_view m buf o =
      if ltb buf.room (o + size)
      then err data_view_bounds
      else ok (host.float_of_bits is_double (load order size m (buf.address + o)))

  -- `readFloatLE`, `readFloatBE`, `readDoubleLE` and `readDoubleBE`.
  unfoldable pub read_float : Memory → Buffer → ℤ → Bool → Result Value
  unfolding check_offset
  read_float m buf offset no_assert =
      unless no_assert (check_offset (pos (to_uint32 offset)) size buf.length)
      >> get_view m buf (to_uint32 offset)

  -- `view.setFloat32(…)` and `view.setFloat64(…)`: the value is converted first.
  abbrev pub set_view : Memory → Buffer → ℕ → Value → Result Memory
  set_view m buf o value = do
    bits ← host.bits_of_float is_double value
    if ltb buf.room (o + size)
        then err data_view_bounds
        else ok (store order size m (buf.address + o) bits)

  -- `writeFloatLE`, `writeFloatBE`, `writeDoubleLE` and `writeDoubleBE`.
  unfoldable pub write_float : Memory → Buffer → Value → ℤ → Bool → Result (Memory × ℕ)
  unfolding check_ieee754
  write_float m buf value offset no_assert = do
    unless no_assert (check_ieee754 buf (to_uint32 offset) size)
    written ← set_view m buf (to_uint32 offset) value
    ok (written, to_uint32 offset + size)
