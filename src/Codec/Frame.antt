-- ===== src/Codec/Frame.antt =====
-- The writers of lib/ref/buffer.js and the setters of lib/ref/ref.js, by what they leave alone.
use js_ffi_cross.Base.{
  ℕ, ◌+◌, ◌-◌, ◌^◌, ◌≤◌, ◌≡◌, refl, ap, ◌∙◌, ℤ, pos, negsuc, Bool, true, false, arith, ltb, leb,
  ◌&&◌, if◌then◌else◌,
}
use js_ffi_cross.Base.Result.{Result, ok, err, ◌>>=◌, ◌>>◌, data_view_bounds}
use js_ffi_cross.Word.{to_uint32, to_uint64}
use js_ffi_cross.Scalar.{Scalar, undefined, null, nan, boolean, number, bigint, to_bigint}
use js_ffi_cross.Memory.{Memory, Buffer, set_element}
use js_ffi_cross.Codec.Check.{check_int_bi}
use js_ffi_cross.Codec.Write
use js_ffi_cross.Codec.Write.{put_le64, put_be64}
use js_ffi_cross.Codec.Positional.{store, store_outside}
use js_ffi_cross.Codec.StoreWide.{store8_le, store8_be}
use js_ffi_cross.Accessors.Endian.{Endian, le, be}

-- Where a write returns, no byte outside of the buffer differs from before.
abbrev pub Keeps : Buffer → Memory → Result (Memory × ℕ) → Type 0
Keeps buf m (err e) = Unit
Keeps buf m (ok (after, next)) =
    (q : ℕ) → (leb buf.address q && ltb q (buf.address + buf.length)) ≡ false → after q ≡ m q

pub Keeps->>= :
    {A : Type 0} (buf : Buffer) (m : Memory) (first : Result A) (next : A → Result (Memory × ℕ))
    → ((a : A) → Keeps buf m (next a))
    → Keeps buf m (first >>= next)
Keeps->>= buf m (err e) next h = tt
Keeps->>= buf m (ok a) next h = h a

pub Keeps->> :
    (buf : Buffer) (m : Memory) (first : Result (Unit {0})) (next : Result (Memory × ℕ))
    → (first ≡ ok tt → Keeps buf m next)
    → Keeps buf m (first >> next)
Keeps->> buf m (err e) next h = tt
Keeps->> buf m (ok done) next h = h refl

set_element_outside :
    (m : Memory) (buf : Buffer) (i v q : ℕ)
    → (leb buf.address q && ltb q (buf.address + buf.length)) ≡ false
    → set_element m buf i v q ≡ m q
set_element_outside m buf i v q h = ground arith

-- One, two and four element writes.
module _ (buf : Buffer) (m : Memory) (i j k l x y z u : ℕ) where
  keeps1 : (next : ℕ) → Keeps buf m (ok (set_element m buf i x, next))
  keeps1 next q h = set_element_outside m buf i x q h

  keeps2 : (next : ℕ) → Keeps buf m (ok (set_element (set_element m buf i x) buf j y, next))
  keeps2 next q h =
      set_element_outside (set_element m buf i x) buf j y q h ∙ set_element_outside m buf i x q h

  keeps4 :
      (next : ℕ)
      → Keeps buf m (
          ok (
            set_element (set_element (set_element (set_element m buf i x) buf j y) buf k z) buf l u,
            next,
          ))
  keeps4 next q h =
      set_element_outside (set_element (set_element (set_element m buf i x) buf j y) buf k z) buf l
        u q h
      ∙ set_element_outside (set_element (set_element m buf i x) buf j y) buf k z q h
      ∙ set_element_outside (set_element m buf i x) buf j y q h
      ∙ set_element_outside m buf i x q h

module _ (m : Memory) (buf : Buffer) (value : Scalar) (offset : ℤ) where
  pub write_uint8-Keeps : Keeps buf m (Write.write_uint8 m buf value offset false)
  unfolding Write.write_uint8
  write_uint8-Keeps = search (Keeps->>=, keeps1)

  pub write_int8-Keeps : Keeps buf m (Write.write_int8 m buf value offset false)
  unfolding Write.write_int8
  write_int8-Keeps = search (Keeps->>=, keeps1)

  pub write_uint16_le-Keeps : Keeps buf m (Write.write_uint16_le m buf value offset false)
  unfolding Write.write_uint16_le
  write_uint16_le-Keeps = search (Keeps->>=, keeps2)

  pub write_uint16_be-Keeps : Keeps buf m (Write.write_uint16_be m buf value offset false)
  unfolding Write.write_uint16_be
  write_uint16_be-Keeps = search (Keeps->>=, keeps2)

  pub write_int16_le-Keeps : Keeps buf m (Write.write_int16_le m buf value offset false)
  unfolding Write.write_int16_le
  write_int16_le-Keeps = search (Keeps->>=, keeps2)

  pub write_int16_be-Keeps : Keeps buf m (Write.write_int16_be m buf value offset false)
  unfolding Write.write_int16_be
  write_int16_be-Keeps = search (Keeps->>=, keeps2)

  pub write_uint32_le-Keeps : Keeps buf m (Write.write_uint32_le m buf value offset false)
  unfolding Write.write_uint32_le
  write_uint32_le-Keeps = search (Keeps->>=, keeps4)

  pub write_uint32_be-Keeps : Keeps buf m (Write.write_uint32_be m buf value offset false)
  unfolding Write.write_uint32_be
  write_uint32_be-Keeps = search (Keeps->>=, keeps4)

  pub write_int32_le-Keeps : Keeps buf m (Write.write_int32_le m buf value offset false)
  unfolding Write.write_int32_le
  write_int32_le-Keeps = search (Keeps->>=, keeps4)

  pub write_int32_be-Keeps : Keeps buf m (Write.write_int32_be m buf value offset false)
  unfolding Write.write_int32_be
  write_int32_be-Keeps = search (Keeps->>=, keeps4)

-- The check of eight bytes lets a write through only where they are in the buffer.
check_int_bi-inside :
    (value : Scalar) (min max : ℤ) (m : Memory) (buf : Buffer) (o : ℕ)
    → check_int_bi value min max m buf o 7 ≡ ok tt
    → o + 8 ≤ buf.length
unfolding check_int_bi
check_int_bi-inside undefined min max m buf o h = cc
check_int_bi-inside null min max m buf o h = cc
check_int_bi-inside nan min max m buf o h = cc
check_int_bi-inside (boolean b) min max m buf o h = cc
check_int_bi-inside (number n) min max m buf o h = cc
check_int_bi-inside (bigint n) min max m buf o h = ground arith

pub store-Keeps :
    (e : Endian) (n : ℕ) (buf : Buffer) (m : Memory) (o w next : ℕ)
    → o + n ≤ buf.length
    → Keeps buf m (ok (store e n m (buf.address + o) w, next))
store-Keeps e n buf m o w next inside q h = store_outside e n m (buf.address + o) w q (ground arith)

module _ (m : Memory) (buf : Buffer) (o w next : ℕ) (inside : o + 8 ≤ buf.length) where
  put_le64-Keeps : Keeps buf m (ok (put_le64 m (buf.address + o) w, next))
  put_le64-Keeps q h =
      ap (λ (after : Memory). after q) (store8_le m (buf.address + o) w)
      ∙ store-Keeps le 8 buf m o w next inside q h

  put_be64-Keeps : Keeps buf m (ok (put_be64 m (buf.address + o) w, next))
  put_be64-Keeps q h =
      ap (λ (after : Memory). after q) (store8_be m (buf.address + o) w)
      ∙ store-Keeps be 8 buf m o w next inside q h

pub Keeps-if :
    (buf : Buffer) (m : Memory) (test : Bool) (r s : Result (Memory × ℕ))
    → Keeps buf m r
    → Keeps buf m s
    → Keeps buf m (if test then r else s)
Keeps-if buf m true r s h k = h
Keeps-if buf m false r s h k = k

-- A checked store through a DataView.
module _ (m : Memory) (buf : Buffer) (value : Scalar) (offset min max : ℤ)
    (put : Memory → ℕ → ℕ → Memory) where
  abbrev o : ℕ
  o = to_uint32 offset

  view64-Keeps :
      ((w : ℕ) → o + 8 ≤ buf.length → Keeps buf m (ok (put m (buf.address + o) w, o + 8)))
      → Keeps buf m (
          check_int_bi value min max m buf o 7
          >> (to_bigint value >>= λ v.
              if ltb buf.room (o + 8)
              then err data_view_bounds
              else ok (put m (buf.address + o) (to_uint64 v), o + 8)))
  view64-Keeps put_Keeps =
      Keeps->> buf m (check_int_bi value min max m buf o 7)
        (to_bigint value >>= λ v.
          if ltb buf.room (o + 8)
          then err data_view_bounds
          else ok (put m (buf.address + o) (to_uint64 v), o + 8))
        λ checked.
          Keeps->>= buf m (to_bigint value)
            (λ v.
              if ltb buf.room (o + 8)
              then err data_view_bounds
              else ok (put m (buf.address + o) (to_uint64 v), o + 8))
            λ v.
              Keeps-if buf m (ltb buf.room (o + 8)) (err data_view_bounds)
                (ok (put m (buf.address + o) (to_uint64 v), o + 8)) tt
                (put_Keeps (to_uint64 v) (check_int_bi-inside value min max m buf o checked))

module _ (m : Memory) (buf : Buffer) (value : Scalar) (offset : ℤ) where
  pub write_big_uint64_le-Keeps : Keeps buf m (Write.write_big_uint64_le m buf value offset false)
  unfolding Write.write_big_uint64_le
  write_big_uint64_le-Keeps =
      view64-Keeps m buf value offset (pos 0) (pos (2 ^ 64 - 1)) put_le64
        (λ w. put_le64-Keeps m buf (to_uint32 offset) w (to_uint32 offset + 8))

  pub write_big_uint64_be-Keeps : Keeps buf m (Write.write_big_uint64_be m buf value offset false)
  unfolding Write.write_big_uint64_be
  write_big_uint64_be-Keeps =
      view64-Keeps m buf value offset (pos 0) (pos (2 ^ 64 - 1)) put_be64
        (λ w. put_be64-Keeps m buf (to_uint32 offset) w (to_uint32 offset + 8))

  pub write_big_int64_le-Keeps : Keeps buf m (Write.write_big_int64_le m buf value offset false)
  unfolding Write.write_big_int64_le
  write_big_int64_le-Keeps =
      view64-Keeps m buf value offset (negsuc (2 ^ 63 - 1)) (pos (2 ^ 63 - 1)) put_le64
        (λ w. put_le64-Keeps m buf (to_uint32 offset) w (to_uint32 offset + 8))

  pub write_big_int64_be-Keeps : Keeps buf m (Write.write_big_int64_be m buf value offset false)
  unfolding Write.write_big_int64_be
  write_big_int64_be-Keeps =
      view64-Keeps m buf value offset (negsuc (2 ^ 63 - 1)) (pos (2 ^ 63 - 1)) put_be64
        (λ w. put_be64-Keeps m buf (to_uint32 offset) w (to_uint32 offset + 8))
