-- ===== src/Word/Bytes.antt =====
-- What the shifts and the `|` of lib/ref/buffer.js make of two to four bytes, and the tests of a
-- sign bit.
use js_ffi_cross.Base.{ℕ, ◌+◌, ◌*◌, ◌%◌, ◌^◌, ◌<◌, bit_and, bit_or, ◌≡◌, arith, ltb, leb}
use js_ffi_cross.Word.{shl}
use js_ffi_cross.Word.Fields.{or_low_high, or_high_low, and_pow, and_mask}

shl_eq : (x k : ℕ) → x * 2 ^ k < 2 ^ 32 → shl x k ≡ x * 2 ^ k
shl_eq x k h = omega arith

disjoint : (k q x r : ℕ) → x ≡ q * 2 ^ k → r < 2 ^ k → bit_or x r ≡ x + r
disjoint k q x r e h = rw e (or_high_low k q r h)

module _ (a b : ℕ) (ha : a < 256) (hb : b < 256) where
  pub or2_le : bit_or a (shl b 8) ≡ a + b * 256
  or2_le = rw (shl_eq b 8 (omega arith)) (or_low_high 8 a b ha)

  pub or2_be : bit_or (shl a 8) b ≡ a * 256 + b
  or2_be = rw (shl_eq a 8 (omega arith)) (or_high_low 8 a b hb)

module _ (a b c : ℕ) (ha : a < 256) (hb : b < 256) (hc : c < 256) where
  pub or3_le : bit_or (bit_or a (shl b 8)) (shl c 16) ≡ a + b * 256 + c * 65536
  or3_le =
      rw (or2_le a b ha hb, shl_eq c 16 (omega arith))
        (or_low_high 16 (a + b * 256) c (omega arith))

  pub or3_be : bit_or (bit_or (shl a 16) (shl b 8)) c ≡ a * 65536 + b * 256 + c
  or3_be =
      rw
        (
          shl_eq a 16 (omega arith),
          shl_eq b 8 (omega arith),
          disjoint 16 a (a * 2 ^ 16) (b * 2 ^ 8) (omega arith) (omega arith),
          disjoint 8 (a * 256 + b) (a * 2 ^ 16 + b * 2 ^ 8) c (omega arith) (omega arith),
        )
        (omega arith)

module _ (a b c d : ℕ) (ha : a < 256) (hb : b < 256) (hc : c < 256) (hd : d < 256) where
  pub or4_le :
      bit_or (bit_or (bit_or a (shl b 8)) (shl c 16)) (shl d 24)
      ≡ a + b * 256 + c * 65536 + d * 16777216
  or4_le =
      rw (or3_le a b c ha hb hc, shl_eq d 24 (omega arith))
        (or_low_high 24 (a + b * 256 + c * 65536) d (omega arith))

  pub or4_be :
      bit_or (bit_or (bit_or (shl a 24) (shl b 16)) (shl c 8)) d
      ≡ a * 16777216 + b * 65536 + c * 256 + d
  or4_be =
      rw
        (
          shl_eq a 24 (omega arith),
          shl_eq b 16 (omega arith),
          shl_eq c 8 (omega arith),
          disjoint 24 a (a * 2 ^ 24) (b * 2 ^ 16) (omega arith) (omega arith),
          disjoint 16 (a * 256 + b) (a * 2 ^ 24 + b * 2 ^ 16) (c * 2 ^ 8) (omega arith)
              (omega arith),
          disjoint 8 (a * 65536 + b * 256 + c) (a * 2 ^ 24 + b * 2 ^ 16 + c * 2 ^ 8) d (omega arith)
              (omega arith),
        )
        (omega arith)

-- The sign bits of 8 and 16 bits, and the extension of a negative 16-bit value.
pub sign8 : (x : ℕ) → x < 256 → ltb 0 (bit_and x 0x80) ≡ leb 128 x
sign8 x h = ground (arith, and_pow 7 x)

pub sign16 : (x : ℕ) → x < 65536 → ltb 0 (bit_and x 0x8000) ≡ leb 32768 x
sign16 x h = ground (arith, and_pow 15 x)

pub extend16 : (x : ℕ) → x < 65536 → bit_or x 0xffff0000 ≡ x + 0xffff0000
extend16 x h = or_low_high 16 x 0xffff h

pub and_ff : (x : ℕ) → bit_and x 0xff ≡ x % 256
and_ff x = and_mask 8 x
