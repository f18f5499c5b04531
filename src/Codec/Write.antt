-- ===== src/Codec/Write.antt =====
-- The writers of lib/ref/buffer.js for integers of 8, 16, 32 and 64 bits.
use js_ffi_cross.Base.{
  ℕ, ◌+◌, ◌/◌, ◌%◌, ◌^◌, ◌-◌, ℤ, pos, negsuc, ◌+ℤ◌, ltb_ℤ, Bool, Option, none, some, bit_and, ltb,
  if◌then◌else◌,
}
use js_ffi_cross.Base.Result.{Result, ok, err, unless, ◌>>=◌, ◌>>◌, data_view_bounds}
use js_ffi_cross.Word.{to_uint32, to_uint64}
use js_ffi_cross.Scalar.{Scalar, unary_plus, word, to_bigint}
use js_ffi_cross.Memory.{Memory, Buffer, poke, set_element}
use js_ffi_cross.Codec.Check.{check_int, check_int_bi}

-- `if (value < 0) value = wrap + value + 1`
abbrev wrapped : ℕ → Option ℤ → Option ℤ
wrapped wrap none = none
wrapped wrap (some value) = some (if ltb_ℤ value (pos 0) then pos wrap +ℤ value +ℤ pos 1 else value)

-- DataView's store of eight bytes.
abbrev pub put_le64 : Memory → ℕ → ℕ → Memory
put_le64 m a v =
    let m1 = poke (poke m a (v % 256)) (a + 1) (v / 2 ^ 8 % 256) in
    let m2 = poke (poke m1 (a + 2) (v / 2 ^ 16 % 256)) (a + 3) (v / 2 ^ 24 % 256) in
    let m3 = poke (poke m2 (a + 4) (v / 2 ^ 32 % 256)) (a + 5) (v / 2 ^ 40 % 256) in
    poke (poke m3 (a + 6) (v / 2 ^ 48 % 256)) (a + 7) (v / 2 ^ 56 % 256)

abbrev pub put_be64 : Memory → ℕ → ℕ → Memory
put_be64 m a v =
    let m1 = poke (poke m a (v / 2 ^ 56 % 256)) (a + 1) (v / 2 ^ 48 % 256) in
    let m2 = poke (poke m1 (a + 2) (v / 2 ^ 40 % 256)) (a + 3) (v / 2 ^ 32 % 256) in
    let m3 = poke (poke m2 (a + 4) (v / 2 ^ 24 % 256)) (a + 5) (v / 2 ^ 16 % 256) in
    poke (poke m3 (a + 6) (v / 2 ^ 8 % 256)) (a + 7) (v % 256)

module _ (m : Memory) (buf : Buffer) (value : Scalar) (offset : ℤ) (no_assert : Bool) where
  abbrev o : ℕ
  o = to_uint32 offset

  abbrev checked_number : ℕ → ℤ → ℤ → Result (Option ℤ)
  checked_number ext max min = do
    v ← unary_plus value
    unless no_assert (check_int buf v o ext max min)
    ok v

  unfoldable pub write_uint8 : Result (Memory × ℕ)
  unfolding check_int
  write_uint8 = do
    v ← checked_number 1 (pos 0xff) (pos 0)
    ok (set_element m buf o (bit_and (word v) 0xff), o + 1)

  -- The two orders of bytes, `value & 0xff` being the low one.
  abbrev low_first16 : ℕ → Memory
  low_first16 w = set_element (set_element m buf o (bit_and w 0xff)) buf (o + 1) (w / 2 ^ 8)

  abbrev high_first16 : ℕ → Memory
  high_first16 w = set_element (set_element m buf o (w / 2 ^ 8)) buf (o + 1) (bit_and w 0xff)

  unfoldable pub write_uint16_le : Result (Memory × ℕ)
  unfolding check_int
  write_uint16_le = do v ← checked_number 2 (pos 0xffff) (pos 0); ok (low_first16 (word v), o + 2)

  unfoldable pub write_uint16_be : Result (Memory × ℕ)
  unfolding check_int
  write_uint16_be = do v ← checked_number 2 (pos 0xffff) (pos 0); ok (high_first16 (word v), o + 2)

  unfoldable pub write_uint32_le : Result (Memory × ℕ)
  unfolding check_int
  write_uint32_le = do
    v ← checked_number 4 (pos 0xffffffff) (pos 0)
    let m3 = set_element m buf (o + 3) (word v / 2 ^ 24)
    let m2 = set_element m3 buf (o + 2) (word v / 2 ^ 16)
    let m1 = set_element m2 buf (o + 1) (word v / 2 ^ 8)
    ok (set_element m1 buf o (bit_and (word v) 0xff), o + 4)

  abbrev high_first32 : ℕ → Memory
  high_first32 w =
      let m0 = set_element m buf o (w / 2 ^ 24) in
      let m1 = set_element m0 buf (o + 1) (w / 2 ^ 16) in
      let m2 = set_element m1 buf (o + 2) (w / 2 ^ 8) in set_element m2 buf (o + 3) (bit_and w 0xff)

  unfoldable pub write_uint32_be : Result (Memory × ℕ)
  unfolding check_int
  write_uint32_be = do
    v ← checked_number 4 (pos 0xffffffff) (pos 0)
    ok (high_first32 (word v), o + 4)

  unfoldable pub write_int8 : Result (Memory × ℕ)
  unfolding check_int
  write_int8 = do
    v ← checked_number 1 (pos 0x7f) (negsuc 0x7f)
    ok (set_element m buf o (bit_and (word (wrapped 0xff v)) 0xff), o + 1)

  unfoldable pub write_int16_le : Result (Memory × ℕ)
  unfolding check_int
  write_int16_le = do
    v ← checked_number 2 (pos 0x7fff) (negsuc 0x7fff)
    ok (low_first16 (word v), o + 2)

  unfoldable pub write_int16_be : Result (Memory × ℕ)
  unfolding check_int
  write_int16_be = do
    v ← checked_number 2 (pos 0x7fff) (negsuc 0x7fff)
    ok (high_first16 (word v), o + 2)

  unfoldable pub write_int32_le : Result (Memory × ℕ)
  unfolding check_int
  write_int32_le = do
    v ← checked_number 4 (pos 0x7fffffff) (negsuc 0x7fffffff)
    let m0 = set_element m buf o (bit_and (word v) 0xff)
    let m1 = set_element m0 buf (o + 1) (word v / 2 ^ 8)
    let m2 = set_element m1 buf (o + 2) (word v / 2 ^ 16)
    ok (set_element m2 buf (o + 3) (word v / 2 ^ 24), o + 4)

  unfoldable pub write_int32_be : Result (Memory × ℕ)
  unfolding check_int
  write_int32_be = do
    v ← checked_number 4 (pos 0x7fffffff) (negsuc 0x7fffffff)
    ok (high_first32 (word (wrapped 0xffffffff v)), o + 4)

  -- DataView converts the value first, then checks the ArrayBuffer's bounds.
  abbrev set_view64 : (Memory → ℕ → ℕ → Memory) → Result (Memory × ℕ)
  set_view64 order = do
    v ← to_bigint value
    if ltb buf.room (o + 8)
        then err data_view_bounds
        else ok (order m (buf.address + o) (to_uint64 v), o + 8)

  abbrev checked_bigint : ℤ → ℤ → Result (Unit {0})
  checked_bigint min max = unless no_assert (check_int_bi value min max m buf o 7)

  unfoldable pub write_big_uint64_le : Result (Memory × ℕ)
  unfolding check_int_bi
  write_big_uint64_le = checked_bigint (pos 0) (pos (2 ^ 64 - 1)) >> set_view64 put_le64

  unfoldable pub write_big_uint64_be : Result (Memory × ℕ)
  unfolding check_int_bi
  write_big_uint64_be = checked_bigint (pos 0) (pos (2 ^ 64 - 1)) >> set_view64 put_be64

  unfoldable pub write_big_int64_le : Result (Memory × ℕ)
  unfolding check_int_bi
  write_big_int64_le =
      checked_bigint (negsuc (2 ^ 63 - 1)) (pos (2 ^ 63 - 1)) >> set_view64 put_le64

  unfoldable pub write_big_int64_be : Result (Memory × ℕ)
  unfolding check_int_bi
  write_big_int64_be =
      checked_bigint (negsuc (2 ^ 63 - 1)) (pos (2 ^ 63 - 1)) >> set_view64 put_be64
