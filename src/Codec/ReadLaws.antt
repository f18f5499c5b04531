-- ===== src/Codec/ReadLaws.antt =====
-- The readers of lib/ref/buffer.js, each against `load` of `Codec/Positional`.
use js_ffi_cross.Base.{
  ℕ, ◌+◌, ◌-◌, ◌*◌, ◌^◌, ◌<◌, ◌≡◌, ℤ, pos, negsuc, Bool, true, false, some, arith, ltb,
  if◌then◌else◌, Bool-cases, inl, inr,
}
use js_ffi_cross.Base.Result.{
  Error, Result, ok, err, beyond_buffer_length, err_buffer_out_of_bounds, err_offset_out_of_range,
}
use js_ffi_cross.Word.{to_uint32}
use js_ffi_cross.Word.Bytes.{
  or2_le, or2_be, or3_le, or3_be, or4_le, or4_be, sign8, sign16, extend16,
}
use js_ffi_cross.Scalar.{Scalar, number, bigint}
use js_ffi_cross.Memory.{Memory, Buffer, IsBytes, IsView, element}
use js_ffi_cross.Codec.Read
use js_ffi_cross.Codec.Positional.{load}
use js_ffi_cross.Accessors.Endian.{le, be}

-- The integer that `size` bytes with the value `w` stand for.
abbrev pub as_int : Bool → ℕ → ℕ → ℤ
as_int unsigned size w =
    if unsigned
    then pos w
    else if ltb w (2 ^ (8 * size - 1))
    then pos w
    else negsuc (2 ^ (8 * size) - 1 - w)

-- A number read from `size` bytes at `o`, or the error of `checkOffset`.
abbrev pub Reads : Bool → ℕ → (ℕ → ℕ) → Buffer → ℕ → Result Scalar → Type 0
Reads unsigned size value buf o result = result ≡ (
    if ltb buf.length (o + size)
    then err beyond_buffer_length
    else ok (number (as_int unsigned size (value (buf.address + o)))))

element_at :
    (m : Memory) (buf : Buffer) (o i : ℕ)
    → o + i < buf.length
    → element m buf (o + i) ≡ some (m (buf.address + o + i))
element_at m buf o i h = ground arith

module _ (m : Memory) (buf : Buffer) (offset : ℤ) (bytes : IsBytes m) where
  abbrev start : ℕ
  start = buf.address + to_uint32 offset

  pub read_uint8_lem :
      Reads true 1 (load le 1 m) buf (to_uint32 offset) (Read.read_uint8 m buf offset false)
  unfolding Read.read_uint8 load
  read_uint8_lem = elim (Bool-cases (ltb buf.length (to_uint32 offset + 1))) [
    | inl short ↦ ground arith
    | inr fits ↦ ground (arith, element_at m buf (to_uint32 offset) 0, bytes start)
  ]

  pub read_int8_lem :
      Reads false 1 (load le 1 m) buf (to_uint32 offset) (Read.read_int8 m buf offset false)
  unfolding Read.read_int8 load
  read_int8_lem = elim (Bool-cases (ltb buf.length (to_uint32 offset + 1))) [
    | inl short ↦ ground arith
    | inr fits ↦ ground (arith, element_at m buf (to_uint32 offset) 0, bytes start, sign8 (m start))
  ]

  pub read_uint16_le_lem :
      Reads true 2 (load le 2 m) buf (to_uint32 offset) (Read.read_uint16_le m buf offset false)
  unfolding Read.read_uint16_le load
  read_uint16_le_lem = elim (Bool-cases (ltb buf.length (to_uint32 offset + 2))) [
    | inl short ↦ ground arith
    | inr fits ↦ ground (
      arith,
      element_at m buf (to_uint32 offset) 0,
      element_at m buf (to_uint32 offset) 1,
      bytes start,
      bytes (start + 1),
      or2_le (m start) (m (start + 1)),
    )
  ]

  pub read_uint16_be_lem :
      Reads true 2 (load be 2 m) buf (to_uint32 offset) (Read.read_uint16_be m buf offset false)
  unfolding Read.read_uint16_be load
  read_uint16_be_lem = elim (Bool-cases (ltb buf.length (to_uint32 offset + 2))) [
    | inl short ↦ ground arith
    | inr fits ↦ ground (
      arith,
      element_at m buf (to_uint32 offset) 0,
      element_at m buf (to_uint32 offset) 1,
      bytes start,
      bytes (start + 1),
      or2_be (m start) (m (start + 1)),
    )
  ]

  pub read_int16_le_lem :
      Reads false 2 (load le 2 m) buf (to_uint32 offset) (Read.read_int16_le m buf offset false)
  unfolding Read.read_int16_le load
  read_int16_le_lem = elim (Bool-cases (ltb buf.length (to_uint32 offset + 2))) [
    | inl short ↦ ground arith
    | inr fits ↦ ground (
      arith,
      element_at m buf (to_uint32 offset) 0,
      element_at m buf (to_uint32 offset) 1,
      bytes start,
      bytes (start + 1),
      or2_le (m start) (m (start + 1)),
      sign16 ((m start) + (m (start + 1)) * 256),
      extend16 ((m start) + (m (start + 1)) * 256),
    )
  ]

  pub read_int16_be_lem :
      Reads false 2 (load be 2 m) buf (to_uint32 offset) (Read.read_int16_be m buf offset false)
  unfolding Read.read_int16_be load
  read_int16_be_lem = elim (Bool-cases (ltb buf.length (to_uint32 offset + 2))) [
    | inl short ↦ ground arith
    | inr fits ↦ ground (
      arith,
      element_at m buf (to_uint32 offset) 0,
      element_at m buf (to_uint32 offset) 1,
      bytes start,
      bytes (start + 1),
      or2_le (m (start + 1)) (m start),
      sign16 ((m (start + 1)) + (m start) * 256),
      extend16 ((m (start + 1)) + (m start) * 256),
    )
  ]

  pub read_uint32_le_lem :
      Reads true 4 (load le 4 m) buf (to_uint32 offset) (Read.read_uint32_le m buf offset false)
  unfolding Read.read_uint32_le load
  read_uint32_le_lem = elim (Bool-cases (ltb buf.length (to_uint32 offset + 4))) [
    | inl short ↦ ground arith
    | inr fits ↦ ground (
      arith,
      element_at m buf (to_uint32 offset) 0,
      element_at m buf (to_uint32 offset) 1,
      element_at m buf (to_uint32 offset) 2,
      element_at m buf (to_uint32 offset) 3,
      bytes start,
      bytes (start + 1),
      bytes (start + 2),
      bytes (start + 3),
      or3_le (m start) (m (start + 1)) (m (start + 2)),
    )
  ]

  pub read_uint32_be_lem :
      Reads true 4 (load be 4 m) buf (to_uint32 offset) (Read.read_uint32_be m buf offset false)
  unfolding Read.read_uint32_be load
  read_uint32_be_lem = elim (Bool-cases (ltb buf.length (to_uint32 offset + 4))) [
    | inl short ↦ ground arith
    | inr fits ↦ ground (
      arith,
      element_at m buf (to_uint32 offset) 0,
      element_at m buf (to_uint32 offset) 1,
      element_at m buf (to_uint32 offset) 2,
      element_at m buf (to_uint32 offset) 3,
      bytes start,
      bytes (start + 1),
      bytes (start + 2),
      bytes (start + 3),
      or3_be (m (start + 1)) (m (start + 2)) (m (start + 3)),
    )
  ]

  pub read_int32_le_lem :
      Reads false 4 (load le 4 m) buf (to_uint32 offset) (Read.read_int32_le m buf offset false)
  unfolding Read.read_int32_le load
  read_int32_le_lem = elim (Bool-cases (ltb buf.length (to_uint32 offset + 4))) [
    | inl short ↦ ground arith
    | inr fits ↦ ground (
      arith,
      element_at m buf (to_uint32 offset) 0,
      element_at m buf (to_uint32 offset) 1,
      element_at m buf (to_uint32 offset) 2,
      element_at m buf (to_uint32 offset) 3,
      bytes start,
      bytes (start + 1),
      bytes (start + 2),
      bytes (start + 3),
      or4_le (m start) (m (start + 1)) (m (start + 2)) (m (start + 3)),
    )
  ]

  pub read_int32_be_lem :
      Reads false 4 (load be 4 m) buf (to_uint32 offset) (Read.read_int32_be m buf offset false)
  unfolding Read.read_int32_be load
  read_int32_be_lem = elim (Bool-cases (ltb buf.length (to_uint32 offset + 4))) [
    | inl short ↦ ground arith
    | inr fits ↦ ground (
      arith,
      element_at m buf (to_uint32 offset) 0,
      element_at m buf (to_uint32 offset) 1,
      element_at m buf (to_uint32 offset) 2,
      element_at m buf (to_uint32 offset) 3,
      bytes start,
      bytes (start + 1),
      bytes (start + 2),
      bytes (start + 3),
      or4_be (m start) (m (start + 1)) (m (start + 2)) (m (start + 3)),
    )
  ]

-- What `boundsError` throws for an access of eight bytes at `o`.
abbrev pub no_room64 : Buffer → ℕ → Error
no_room64 buf o =
    if ltb buf.length 8 then err_buffer_out_of_bounds else err_offset_out_of_range (pos o)

abbrev pub Reads64 : Bool → (ℕ → ℕ) → Buffer → ℕ → Result Scalar → Type 0
Reads64 unsigned value buf o result = result ≡ (
    if ltb buf.length (o + 8)
    then err (no_room64 buf o)
    else ok (bigint (as_int unsigned 8 (value (buf.address + o)))))

module _ (m : Memory) (buf : Buffer) (offset : ℤ) (view : IsView buf) where
  pub read_big_uint64_le_lem :
      Reads64 true (load le 8 m) buf (to_uint32 offset) (Read.read_big_uint64_le m buf offset false)
  unfolding Read.read_big_uint64_le load
  read_big_uint64_le_lem = ground arith

  pub read_big_uint64_be_lem :
      Reads64 true (load be 8 m) buf (to_uint32 offset) (Read.read_big_uint64_be m buf offset false)
  unfolding Read.read_big_uint64_be load
  read_big_uint64_be_lem = ground arith

  pub read_big_int64_le_lem :
      Reads64 false (load le 8 m) buf (to_uint32 offset) (Read.read_big_int64_le m buf offset false)
  unfolding Read.read_big_int64_le load
  read_big_int64_le_lem = ground arith

  pub read_big_int64_be_lem :
      Reads64 false (load be 8 m) buf (to_uint32 offset) (Read.read_big_int64_be m buf offset false)
  unfolding Read.read_big_int64_be load
  read_big_int64_be_lem = ground arith
