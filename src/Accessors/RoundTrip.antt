-- ===== src/Accessors/RoundTrip.antt =====
-- The generated setter and getter of one type of lib/ref/ref.js, one after the other.
use js_ffi_cross.Base.{
  ℕ, suc, zero, ◌+◌, ◌/◌, ◌%◌, ◌^◌, ◌<◌, ◌≤◌, ◌≡◌, ℤ, Bool, true, false, ◌&&◌, arith, ltb, leb,
  if◌then◌else◌,
}
use js_ffi_cross.Base.Result.{Result, ok}
use js_ffi_cross.Word.{to_uint32}
use js_ffi_cross.Scalar.{Scalar, number, bigint}
use js_ffi_cross.Memory.{Memory, Buffer, IsBytes, IsView}
use js_ffi_cross.Codec.Positional.{store, load-store, store_outside}
use js_ffi_cross.Codec.ReadLaws.{as_int}
use js_ffi_cross.Codec.WriteLaws.{out_of_range, pattern_of}
use js_ffi_cross.Accessors.Endian.{Endian, le, be}
use js_ffi_cross.Accessors.Getters.{get_functions_generate}
use js_ffi_cross.Accessors.Setters.{set_functions_generate}
use js_ffi_cross.Accessors.Positional.{
  Narrow, one, two, four, bytes, get_number-positional, get_bigint-positional,
  set_number-positional, set_bigint-positional,
}

pub store-IsBytes :
    (e : Endian) (n : ℕ) (m : Memory) (a w : ℕ) → IsBytes m → IsBytes (store e n m a w)
unfolding store
store-IsBytes e zero m a w h = h
store-IsBytes le (suc n) m a w h = λ q. ground (arith, store-IsBytes le n m (a + 1) (w / 256) h q)
store-IsBytes be (suc n) m a w h =
    λ q. ground (arith, store-IsBytes be n m (a + 1) (w % 256 ^ n) h q)

-- Two's complement is read back.
pub as_int-pattern_of :
    (unsigned : Bool) (w : Narrow) (v : ℤ)
    → out_of_range unsigned (bytes w) v ≡ false
    → as_int unsigned (bytes w) (pattern_of (bytes w) v) ≡ v
as_int-pattern_of true one v h = ground arith
as_int-pattern_of true two v h = ground arith
as_int-pattern_of true four v h = ground arith
as_int-pattern_of false one v h = ground arith
as_int-pattern_of false two v h = ground arith
as_int-pattern_of false four v h = ground arith

pub as_int-pattern_of_eight :
    (unsigned : Bool) (v : ℤ)
    → out_of_range unsigned 8 v ≡ false
    → as_int unsigned 8 (pattern_of 8 v) ≡ v
as_int-pattern_of_eight true v h = ground arith
as_int-pattern_of_eight false v h = ground arith

pub pattern_of-lt : (w : Narrow) (v : ℤ) → pattern_of (bytes w) v < 256 ^ bytes w
pattern_of-lt one v = ground arith
pattern_of-lt two v = ground arith
pattern_of-lt four v = ground arith

-- A setter's result, and what the getter then reads at the same offset.
pub record RoundTrips (set : Result (Memory × ℕ)) (get : Memory → Result Scalar) (m : Memory)
    (start size next : ℕ) (value : Scalar) : Type 0 where
  pub after : Memory
  pub returns : set ≡ ok (after, next)
  pub reads : get after ≡ ok value
  pub frame : (q : ℕ) → after q ≡ (if leb start q && ltb q (start + size) then after q else m q)

module _ (e : Endian) (unsigned : Bool) (m : Memory) (buf : Buffer) (v offset : ℤ) where
  abbrev start : ℕ
  start = buf.address + to_uint32 offset

  -- An integral Number in the range of an integer type of one, two or four bytes whose values are
  -- Numbers, which a `long`, `size_t` or the like of four bytes is not (`max_size_is_8`), set where
  -- its bytes fit the buffer, is read back by the type's getter, and no byte outside the written ones
  -- changes. The memory holds bytes.
  pub get-set_number :
      (w : Narrow)
      → IsBytes m
      → out_of_range unsigned (bytes w) v ≡ false
      → to_uint32 offset + bytes w ≤ buf.length
      → RoundTrips
          ((set_functions_generate e false unsigned (bytes w)).set m buf (number v) offset)
          (λ after. (get_functions_generate e false unsigned (bytes w)).get after buf offset)
          m
          start
          (bytes w)
          (to_uint32 offset + bytes w)
          (number v)
  get-set_number w h range fits = record {
    after = store e (bytes w) m start (pattern_of (bytes w) v);
    returns = ground (arith, set_number-positional m buf v offset e unsigned w);
    reads = ground (
      arith,
      get_number-positional (store e (bytes w) m start (pattern_of (bytes w) v)) buf offset e
          unsigned w (store-IsBytes e (bytes w) m start (pattern_of (bytes w) v) h),
      load-store e (bytes w) m start (pattern_of (bytes w) v) (pattern_of-lt w v),
      as_int-pattern_of unsigned w v range,
    );
    frame = λ q. ground (arith, store_outside e (bytes w) m start (pattern_of (bytes w) v) q);
  }

  -- A BigInt in the range of an integer type of eight bytes, set where its bytes fit the buffer, is
  -- read back by the type's BigInt getter, and no byte outside the written ones changes. The buffer
  -- lies inside its ArrayBuffer.
  pub get-set_bigint :
      IsView buf
      → out_of_range unsigned 8 v ≡ false
      → to_uint32 offset + 8 ≤ buf.length
      → RoundTrips
          ((set_functions_generate e true unsigned 8).set m buf (bigint v) offset)
          (λ after. (get_functions_generate e true unsigned 8).get after buf offset)
          m
          start
          8
          (to_uint32 offset + 8)
          (bigint v)
  get-set_bigint view range fits = record {
    after = store e 8 m start (pattern_of 8 v);
    returns = ground (arith, set_bigint-positional m buf v offset e unsigned view);
    reads = ground (
      arith,
      get_bigint-positional (store e 8 m start (pattern_of 8 v)) buf offset e unsigned view,
      load-store e 8 m start (pattern_of 8 v) (ground arith),
      as_int-pattern_of_eight unsigned v range,
    );
    frame = λ q. ground (arith, store_outside e 8 m start (pattern_of 8 v) q);
  }
