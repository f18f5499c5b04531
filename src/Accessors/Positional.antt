-- ===== src/Accessors/Positional.antt =====
-- The generated getters and setters against the positional description of the bytes.
use mathlib.Core.Path.{fun_ext}
use js_ffi_cross.Base.{ℕ, ◌<◌, ◌≡◌, ℤ, Bool, true, false, arith}
use js_ffi_cross.Word.{to_uint32}
use js_ffi_cross.Scalar.{number, bigint}
use js_ffi_cross.Memory.{Memory, Buffer, IsBytes, IsView}
use js_ffi_cross.Codec.Positional.{load, store}
use js_ffi_cross.Codec.ReadLaws
use js_ffi_cross.Codec.ReadLaws.{Reads, Reads64}
use js_ffi_cross.Codec.WriteLaws
use js_ffi_cross.Codec.WriteLaws.{Writes, Writes64, pattern_of}
use js_ffi_cross.Accessors.Endian.{
  Endian, le, be, read_uint16, read_uint32, read_big_uint64, read_int16, read_int32, read_big_int64,
  write_uint16, write_uint32, write_big_uint64, write_int16, write_int32, write_big_int64,
}
use js_ffi_cross.Accessors.Getters.{
  get_functions_generate, read_function_number, read_function_bigint,
}
use js_ffi_cross.Accessors.Setters.{
  set_functions_generate, write_function_number, write_function_bigint,
}

-- The sizes that are read and written as Numbers.
pub data Narrow : Type 0 where
  one two four : Narrow

abbrev pub bytes : Narrow → ℕ
bytes one = 1
bytes two = 2
bytes four = 4

-- One byte reads and writes alike in both orders.
load_one : (m : Memory) (a : ℕ) → load be 1 m a ≡ load le 1 m a
unfolding load
load_one m a = omega arith

store_one : (m : Memory) (a w : ℕ) → w < 256 → store be 1 m a w ≡ store le 1 m a w
unfolding store
store_one m a w h = fun_ext λ q. ground arith

pattern_of_one_lt : (v : ℤ) → pattern_of 1 v < 256
pattern_of_one_lt v = ground arith

module _ (m : Memory) (buf : Buffer) (offset : ℤ) where
  -- On a machine of either byte order, for every integer type of one, two or four bytes whose values
  -- are Numbers, which a `long`, `size_t` or the like of four bytes is not (`max_size_is_8`), the
  -- generated getter returns the integer whose bytes, in the machine's order and in two's complement
  -- if the type is signed, stand at the offset; where they are not all inside the buffer it throws
  -- the error of `checkOffset`. The memory holds bytes.
  pub get_number-positional :
      (e : Endian) (unsigned : Bool) (w : Narrow)
      → IsBytes m
      → Reads unsigned
          (bytes w)
          (load e (bytes w) m)
          buf
          (to_uint32 offset)
          ((get_functions_generate e false unsigned (bytes w)).get m buf offset)
  unfolding get_functions_generate read_function_number read_uint16 read_uint32 read_int16
      read_int32
  get_number-positional le true one h = ReadLaws.read_uint8_lem m buf offset h
  get_number-positional le true two h = ReadLaws.read_uint16_le_lem m buf offset h
  get_number-positional le true four h = ReadLaws.read_uint32_le_lem m buf offset h
  get_number-positional le false one h = ReadLaws.read_int8_lem m buf offset h
  get_number-positional le false two h = ReadLaws.read_int16_le_lem m buf offset h
  get_number-positional le false four h = ReadLaws.read_int32_le_lem m buf offset h
  get_number-positional be true one h = rw load_one (ReadLaws.read_uint8_lem m buf offset h)
  get_number-positional be true two h = ReadLaws.read_uint16_be_lem m buf offset h
  get_number-positional be true four h = ReadLaws.read_uint32_be_lem m buf offset h
  get_number-positional be false one h = rw load_one (ReadLaws.read_int8_lem m buf offset h)
  get_number-positional be false two h = ReadLaws.read_int16_be_lem m buf offset h
  get_number-positional be false four h = ReadLaws.read_int32_be_lem m buf offset h

  -- On every machine and for every integer type of eight bytes, the generated BigInt getter returns
  -- the integer whose bytes, in the machine's order and in two's complement if the type is signed,
  -- stand at the offset; where they are not all inside the buffer it throws the error of
  -- `boundsError`. The buffer lies inside its ArrayBuffer.
  pub get_bigint-positional :
      (e : Endian) (unsigned : Bool)
      → IsView buf
      → Reads64 unsigned
          (load e 8 m)
          buf
          (to_uint32 offset)
          ((get_functions_generate e true unsigned 8).get m buf offset)
  unfolding get_functions_generate read_function_bigint read_big_uint64 read_big_int64
  get_bigint-positional le true h = ReadLaws.read_big_uint64_le_lem m buf offset h
  get_bigint-positional le false h = ReadLaws.read_big_int64_le_lem m buf offset h
  get_bigint-positional be true h = ReadLaws.read_big_uint64_be_lem m buf offset h
  get_bigint-positional be false h = ReadLaws.read_big_int64_be_lem m buf offset h

module _ (m : Memory) (buf : Buffer) (v offset : ℤ) where
  -- On a machine of either byte order, for every integer type of one, two or four bytes whose values
  -- are Numbers, which a `long`, `size_t` or the like of four bytes is not (`max_size_is_8`), the
  -- generated setter of an integral Number writes its two's complement, in the machine's byte order,
  -- at the offset and nothing else, and returns the offset behind it; it throws where the Number is
  -- out of the type's range, and else where the bytes are not all inside the buffer.
  pub set_number-positional :
      (e : Endian) (unsigned : Bool) (w : Narrow)
      → Writes unsigned
          (bytes w)
          (store e (bytes w) m)
          buf
          v
          (to_uint32 offset)
          ((set_functions_generate e false unsigned (bytes w)).set m buf (number v) offset)
  unfolding set_functions_generate write_function_number write_uint16 write_uint32 write_int16
      write_int32
  set_number-positional le true one = WriteLaws.write_uint8_lem m buf v offset
  set_number-positional le true two = WriteLaws.write_uint16_le_lem m buf v offset
  set_number-positional le true four = WriteLaws.write_uint32_le_lem m buf v offset
  set_number-positional le false one = WriteLaws.write_int8_lem m buf v offset
  set_number-positional le false two = WriteLaws.write_int16_le_lem m buf v offset
  set_number-positional le false four = WriteLaws.write_int32_le_lem m buf v offset
  set_number-positional be true one =
      rw (store_one _ _ (pattern_of 1 v) (pattern_of_one_lt v))
        (WriteLaws.write_uint8_lem m buf v offset)
  set_number-positional be true two = WriteLaws.write_uint16_be_lem m buf v offset
  set_number-positional be true four = WriteLaws.write_uint32_be_lem m buf v offset
  set_number-positional be false one =
      rw (store_one _ _ (pattern_of 1 v) (pattern_of_one_lt v))
        (WriteLaws.write_int8_lem m buf v offset)
  set_number-positional be false two = WriteLaws.write_int16_be_lem m buf v offset
  set_number-positional be false four = WriteLaws.write_int32_be_lem m buf v offset

  -- On every machine and for every integer type of eight bytes, the generated setter of a BigInt
  -- writes its two's complement, in the machine's byte order, at the offset and nothing else, and
  -- returns the offset behind it; it throws where the BigInt is out of the type's range, and else
  -- where the bytes are not all inside the buffer. The buffer lies inside its ArrayBuffer.
  pub set_bigint-positional :
      (e : Endian) (unsigned : Bool)
      → IsView buf
      → Writes64 unsigned
          (store e 8 m)
          buf
          v
          (to_uint32 offset)
          ((set_functions_generate e true unsigned 8).set m buf (bigint v) offset)
  unfolding set_functions_generate write_function_bigint write_big_uint64 write_big_int64
  set_bigint-positional le true h = WriteLaws.write_big_uint64_le_lem m buf v offset h
  set_bigint-positional le false h = WriteLaws.write_big_int64_le_lem m buf v offset h
  set_bigint-positional be true h = WriteLaws.write_big_uint64_be_lem m buf v offset h
  set_bigint-positional be false h = WriteLaws.write_big_int64_be_lem m buf v offset h
