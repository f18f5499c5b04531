-- ===== src/Accessors/Endian.antt =====
-- The choice that lib/ref/buffer.js makes by `endiannessValue` for each width.
use js_ffi_cross.Base.{ℕ, ℤ, false}
use js_ffi_cross.Base.Result.{Result}
use js_ffi_cross.Scalar.{Scalar}
use js_ffi_cross.Memory.{Memory, Buffer}
use js_ffi_cross.Codec.Read
use js_ffi_cross.Codec.Write

pub data Endian : Type 0 where
  le be : Endian

-- `(buf, offset)`: `noAssert` is left out, so every check runs.
abbrev pub Getter : Type 0
Getter = Memory → Buffer → ℤ → Result Scalar

-- `(buf, val, offset)`.
abbrev pub Setter : Type 0
Setter = Memory → Buffer → Scalar → ℤ → Result (Memory × ℕ)

unfoldable pub read_uint16 : Endian → Getter
read_uint16 le m buf offset = Read.read_uint16_le m buf offset false
read_uint16 be m buf offset = Read.read_uint16_be m buf offset false

unfoldable pub read_uint32 : Endian → Getter
read_uint32 le m buf offset = Read.read_uint32_le m buf offset false
read_uint32 be m buf offset = Read.read_uint32_be m buf offset false

unfoldable pub read_big_uint64 : Endian → Getter
read_big_uint64 le m buf offset = Read.read_big_uint64_le m buf offset false
read_big_uint64 be m buf offset = Read.read_big_uint64_be m buf offset false

unfoldable pub read_int16 : Endian → Getter
read_int16 le m buf offset = Read.read_int16_le m buf offset false
read_int16 be m buf offset = Read.read_int16_be m buf offset false

unfoldable pub read_int32 : Endian → Getter
read_int32 le m buf offset = Read.read_int32_le m buf offset false
read_int32 be m buf offset = Read.read_int32_be m buf offset false

unfoldable pub read_big_int64 : Endian → Getter
read_big_int64 le m buf offset = Read.read_big_int64_le m buf offset false
read_big_int64 be m buf offset = Read.read_big_int64_be m buf offset false

unfoldable pub write_uint16 : Endian → Setter
write_uint16 le m buf value offset = Write.write_uint16_le m buf value offset false
write_uint16 be m buf value offset = Write.write_uint16_be m buf value offset false

unfoldable pub write_uint32 : Endian → Setter
write_uint32 le m buf value offset = Write.write_uint32_le m buf value offset false
write_uint32 be m buf value offset = Write.write_uint32_be m buf value offset false

unfoldable pub write_big_uint64 : Endian → Setter
write_big_uint64 le m buf value offset = Write.write_big_uint64_le m buf value offset false
write_big_uint64 be m buf value offset = Write.write_big_uint64_be m buf value offset false

unfoldable pub write_int16 : Endian → Setter
write_int16 le m buf value offset = Write.write_int16_le m buf value offset false
write_int16 be m buf value offset = Write.write_int16_be m buf value offset false

unfoldable pub write_int32 : Endian → Setter
write_int32 le m buf value offset = Write.write_int32_le m buf value offset false
write_int32 be m buf value offset = Write.write_int32_be m buf value offset false

unfoldable pub write_big_int64 : Endian → Setter
write_big_int64 le m buf value offset = Write.write_big_int64_le m buf value offset false
write_big_int64 be m buf value offset = Write.write_big_int64_be m buf value offset false
