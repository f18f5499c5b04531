-- ===== src/Codec/WriteLaws.antt =====
-- The writers of lib/ref/buffer.js, each against `store` of `Codec/Positional`.
use js_ffi_cross.Base.{
  ℕ, ◌+◌, ◌-◌, ◌*◌, ◌%◌, ◌^◌, ◌≡◌, ℤ, pos, negsuc, ltb_ℤ, ◌+ℤ◌, Bool, true, false, some, arith, ltb,
  if◌then◌else◌,
}
use js_ffi_cross.Base.Result.{
  Result, ok, err, value_out_of_bounds, index_out_of_range, err_value_out_of_range,
}
use js_ffi_cross.Word.{to_uint32, to_uint64}
use js_ffi_cross.Scalar.{number, bigint}
use js_ffi_cross.Memory.{Memory, Buffer, IsView}
use js_ffi_cross.Codec.Check.{outside}
use js_ffi_cross.Codec.Write
use js_ffi_cross.Codec.Positional.{store}
use js_ffi_cross.Codec.ReadLaws.{no_room64}
use js_ffi_cross.Codec.StoreLaws.{store1, store2_le, store2_be, store4_up, store4_down, store4_be}
use js_ffi_cross.Codec.StoreWide.{store8_le, store8_be}
use js_ffi_cross.Accessors.Endian.{le, be}

-- The largest and the smallest integer of `size` bytes.
abbrev pub max_int : Bool → ℕ → ℤ
max_int unsigned size = pos (if unsigned then 2 ^ (8 * size) - 1 else 2 ^ (8 * size - 1) - 1)

abbrev pub min_int : Bool → ℕ → ℤ
min_int unsigned size = if unsigned then pos 0 else negsuc (2 ^ (8 * size - 1) - 1)

abbrev pub out_of_range : Bool → ℕ → ℤ → Bool
out_of_range unsigned size v = outside (some v) (max_int unsigned size) (min_int unsigned size)

-- The two's complement of an integer in `size` bytes.
abbrev pub pattern_of : ℕ → ℤ → ℕ
pattern_of size (pos n) = n % 2 ^ (8 * size)
pattern_of size (negsuc n) = 2 ^ (8 * size) - 1 - n % 2 ^ (8 * size)

abbrev pub Writes : Bool → ℕ → (ℕ → ℕ → Memory) → Buffer → ℤ → ℕ → Result (Memory × ℕ) → Type 0
Writes unsigned size stored buf v o result = result ≡ (
    if out_of_range unsigned size v
    then err value_out_of_bounds
    else if ltb buf.length (o + size)
    then err index_out_of_range
    else ok (stored (buf.address + o) (pattern_of size v), o + size))

module _ (m : Memory) (buf : Buffer) (v offset : ℤ) where
  abbrev o : ℕ
  o = to_uint32 offset

  pub write_uint8_lem :
      Writes true 1 (store le 1 m) buf v o (Write.write_uint8 m buf (number v) offset false)
  unfolding Write.write_uint8
  write_uint8_lem = ground (arith, store1 m buf o (to_uint32 v) le)

  pub write_int8_lem :
      Writes false 1 (store le 1 m) buf v o (Write.write_int8 m buf (number v) offset false)
  unfolding Write.write_int8
  write_int8_lem =
      ground (
        arith,
        store1 m buf o (to_uint32 (if ltb_ℤ v (pos 0) then pos 0xff +ℤ v +ℤ pos 1 else v)) le,
      )

  pub write_uint16_le_lem :
      Writes true 2 (store le 2 m) buf v o (Write.write_uint16_le m buf (number v) offset false)
  unfolding Write.write_uint16_le
  write_uint16_le_lem = ground (arith, store2_le m buf o (to_uint32 v))

  pub write_uint16_be_lem :
      Writes true 2 (store be 2 m) buf v o (Write.write_uint16_be m buf (number v) offset false)
  unfolding Write.write_uint16_be
  write_uint16_be_lem = ground (arith, store2_be m buf o (to_uint32 v))

  pub write_int16_le_lem :
      Writes false 2 (store le 2 m) buf v o (Write.write_int16_le m buf (number v) offset false)
  unfolding Write.write_int16_le
  write_int16_le_lem = ground (arith, store2_le m buf o (to_uint32 v))

  pub write_int16_be_lem :
      Writes false 2 (store be 2 m) buf v o (Write.write_int16_be m buf (number v) offset false)
  unfolding Write.write_int16_be
  write_int16_be_lem = ground (arith, store2_be m buf o (to_uint32 v))

  pub write_uint32_le_lem :
      Writes true 4 (store le 4 m) buf v o (Write.write_uint32_le m buf (number v) offset false)
  unfolding Write.write_uint32_le
  write_uint32_le_lem = ground (arith, store4_down m buf o (to_uint32 v))

  pub write_uint32_be_lem :
      Writes true 4 (store be 4 m) buf v o (Write.write_uint32_be m buf (number v) offset false)
  unfolding Write.write_uint32_be
  write_uint32_be_lem = ground (arith, store4_be m buf o (to_uint32 v))

  pub write_int32_le_lem :
      Writes false 4 (store le 4 m) buf v o (Write.write_int32_le m buf (number v) offset false)
  unfolding Write.write_int32_le
  write_int32_le_lem = ground (arith, store4_up m buf o (to_uint32 v))

  pub write_int32_be_lem :
      Writes false 4 (store be 4 m) buf v o (Write.write_int32_be m buf (number v) offset false)
  unfolding Write.write_int32_be
  write_int32_be_lem = ground (
    arith,
    store4_be m buf o (to_uint32 (if ltb_ℤ v (pos 0) then pos 0xffffffff +ℤ v +ℤ pos 1 else v)),
  )

-- A BigInt setter of eight bytes.
abbrev pub Writes64 : Bool → (ℕ → ℕ → Memory) → Buffer → ℤ → ℕ → Result (Memory × ℕ) → Type 0
Writes64 unsigned stored buf v o result = result ≡ (
    if out_of_range unsigned 8 v
    then err err_value_out_of_range
    else if ltb buf.length (o + 8)
    then err (no_room64 buf o)
    else ok (stored (buf.address + o) (pattern_of 8 v), o + 8))

module _ (m : Memory) (buf : Buffer) (v offset : ℤ) (view : IsView buf) where
  pub write_big_uint64_le_lem :
      Writes64 true
        (store le 8 m)
        buf
        v
        (to_uint32 offset)
        (Write.write_big_uint64_le m buf (bigint v) offset false)
  unfolding Write.write_big_uint64_le
  write_big_uint64_le_lem =
      ground (arith, store8_le m (buf.address + to_uint32 offset) (to_uint64 v))

  pub write_big_uint64_be_lem :
      Writes64 true
        (store be 8 m)
        buf
        v
        (to_uint32 offset)
        (Write.write_big_uint64_be m buf (bigint v) offset false)
  unfolding Write.write_big_uint64_be
  write_big_uint64_be_lem =
      ground (arith, store8_be m (buf.address + to_uint32 offset) (to_uint64 v))

  pub write_big_int64_le_lem :
      Writes64 false
        (store le 8 m)
        buf
        v
        (to_uint32 offset)
        (Write.write_big_int64_le m buf (bigint v) offset false)
  unfolding Write.write_big_int64_le
  write_big_int64_le_lem =
      ground (arith, store8_le m (buf.address + to_uint32 offset) (to_uint64 v))

  pub write_big_int64_be_lem :
      Writes64 false
        (store be 8 m)
        buf
        v
        (to_uint32 offset)
        (Write.write_big_int64_be m buf (bigint v) offset false)
  unfolding Write.write_big_int64_be
  write_big_int64_be_lem =
      ground (arith, store8_be m (buf.address + to_uint32 offset) (to_uint64 v))
