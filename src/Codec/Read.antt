-- ===== src/Codec/Read.antt =====
-- The readers of lib/ref/buffer.js for integers of 8, 16, 32 and 64 bits.
use js_ffi_cross.Base.{
  ℕ, ◌+◌, ◌*◌, ◌^◌, ℤ, pos, sub_ℕ, ◌+ℤ◌, negate, Bool, Option, none, some, bit_and, bit_or, ltb,
  if◌then◌else◌,
}
use js_ffi_cross.Base.Result.{Result, ok, err, unless, ◌>>=◌, ◌>>◌, data_view_bounds}
use js_ffi_cross.Word.{to_uint32, shl, signed32, signed64}
use js_ffi_cross.Scalar.{Scalar, undefined, nan, number, bigint}
use js_ffi_cross.Memory.{Memory, Buffer, element, bits}
use js_ffi_cross.Codec.Check.{check_offset, check_bounds}

abbrev returned : Option ℕ → Scalar
returned none = undefined
returned (some x) = number (pos x)

-- A sign bit tested by `&`.
abbrev has_bit : ℕ → ℕ → Bool
has_bit x mask = ltb 0 (bit_and x mask)

-- DataView's access to eight bytes: it is checked against the ArrayBuffer.
abbrev le64 : Memory → ℕ → ℕ
le64 m a =
    m a
    + m (a + 1) * 2 ^ 8
    + m (a + 2) * 2 ^ 16
    + m (a + 3) * 2 ^ 24
    + m (a + 4) * 2 ^ 32
    + m (a + 5) * 2 ^ 40
    + m (a + 6) * 2 ^ 48
    + m (a + 7) * 2 ^ 56

abbrev be64 : Memory → ℕ → ℕ
be64 m a =
    m a * 2 ^ 56
    + m (a + 1) * 2 ^ 48
    + m (a + 2) * 2 ^ 40
    + m (a + 3) * 2 ^ 32
    + m (a + 4) * 2 ^ 24
    + m (a + 5) * 2 ^ 16
    + m (a + 6) * 2 ^ 8
    + m (a + 7)

abbrev get_view64 : (Memory → ℕ → ℕ) → Memory → Buffer → ℕ → Result ℕ
get_view64 order m buf o =
    if ltb buf.room (o + 8) then err data_view_bounds else ok (order m (buf.address + o))

module _ (m : Memory) (buf : Buffer) (offset : ℤ) (no_assert : Bool) where
  -- `buf[offset + i]`, as an operand of a bitwise operator.
  abbrev at : ℕ → ℕ
  at i = bits (element m buf (to_uint32 offset + i))

  abbrev checked : ℕ → Result (Unit {0})
  checked ext = unless no_assert (check_offset (pos (to_uint32 offset)) ext buf.length)

  unfoldable pub read_uint8 : Result Scalar
  unfolding check_offset
  read_uint8 = checked 1 >> ok (returned (element m buf (to_uint32 offset)))

  unfoldable pub read_uint16_le : Result Scalar
  unfolding check_offset
  read_uint16_le = checked 2 >> ok (number (signed32 (bit_or (at 0) (shl (at 1) 8))))

  unfoldable pub read_uint16_be : Result Scalar
  unfolding check_offset
  read_uint16_be = checked 2 >> ok (number (signed32 (bit_or (shl (at 0) 8) (at 1))))

  -- `undefined * 0x1000000` is NaN, and so is the sum.
  abbrev plus_high : ℕ → Option ℕ → Scalar
  plus_high low none = nan
  plus_high low (some x) = number (signed32 low +ℤ pos (x * 0x1000000))

  unfoldable pub read_uint32_le : Result Scalar
  unfolding check_offset
  read_uint32_le =
      checked 4
      >> ok (
          plus_high (bit_or (bit_or (at 0) (shl (at 1) 8)) (shl (at 2) 16))
            (element m buf (to_uint32 offset + 3)))

  unfoldable pub read_uint32_be : Result Scalar
  unfolding check_offset
  read_uint32_be =
      checked 4
      >> ok (
          plus_high (bit_or (bit_or (shl (at 1) 16) (shl (at 2) 8)) (at 3))
            (element m buf (to_uint32 offset)))

  unfoldable pub read_int8 : Result Scalar
  unfolding check_offset
  read_int8 =
      checked 1
      >> ok (
          if has_bit (at 0) 0x80
          then number (negate (sub_ℕ 0xff (at 0) +ℤ pos 1))
          else returned (element m buf (to_uint32 offset)))

  abbrev extended16 : ℕ → Scalar
  extended16 val = number (signed32 (if has_bit val 0x8000 then bit_or val 0xffff0000 else val))

  unfoldable pub read_int16_le : Result Scalar
  unfolding check_offset
  read_int16_le = checked 2 >> ok (extended16 (bit_or (at 0) (shl (at 1) 8)))

  unfoldable pub read_int16_be : Result Scalar
  unfolding check_offset
  read_int16_be = checked 2 >> ok (extended16 (bit_or (at 1) (shl (at 0) 8)))

  unfoldable pub read_int32_le : Result Scalar
  unfolding check_offset
  read_int32_le =
      checked 4
      >> ok (
          number (
            signed32
              (bit_or (bit_or (bit_or (at 0) (shl (at 1) 8)) (shl (at 2) 16)) (shl (at 3) 24))))

  unfoldable pub read_int32_be : Result Scalar
  unfolding check_offset
  read_int32_be =
      checked 4
      >> ok (
          number (
            signed32
              (bit_or (bit_or (bit_or (shl (at 0) 24) (shl (at 1) 16)) (shl (at 2) 8)) (at 3))))

  abbrev checked64 : Result (Unit {0})
  checked64 = unless no_assert (check_bounds m buf (to_uint32 offset) 7)

  unfoldable pub read_big_uint64_le : Result Scalar
  unfolding check_bounds
  read_big_uint64_le = do
    checked64
    value ← get_view64 le64 m buf (to_uint32 offset)
    ok (bigint (pos value))

  unfoldable pub read_big_uint64_be : Result Scalar
  unfolding check_bounds
  read_big_uint64_be = do
    checked64
    value ← get_view64 be64 m buf (to_uint32 offset)
    ok (bigint (pos value))

  unfoldable pub read_big_int64_le : Result Scalar
  unfolding check_bounds
  read_big_int64_le = do
    checked64
    value ← get_view64 le64 m buf (to_uint32 offset)
    ok (bigint (signed64 value))

  unfoldable pub read_big_int64_be : Result Scalar
  unfolding check_bounds
  read_big_int64_be = do
    checked64
    value ← get_view64 be64 m buf (to_uint32 offset)
    ok (bigint (signed64 value))
