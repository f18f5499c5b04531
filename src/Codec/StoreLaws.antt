-- ===== src/Codec/StoreLaws.antt =====
-- The element writes of the writers of lib/ref/buffer.js, in the orders that they stand in.
use mathlib.Core.Path.{fun_ext}
use js_ffi_cross.Base.{ℕ, ◌+◌, ◌/◌, ◌%◌, ◌^◌, ◌<◌, ◌≤◌, ◌≡◌, sym, ◌∙◌, bit_and, arith}
use js_ffi_cross.Word.Bytes.{and_ff}
use js_ffi_cross.Memory.{Memory, Buffer, poke, set_element}
use js_ffi_cross.Codec.Positional.{store}
use js_ffi_cross.Accessors.Endian.{Endian, le, be}

module _ (m : Memory) (buf : Buffer) (o w : ℕ) where
  pub store1 :
      (e : Endian)
      → o + 1 ≤ buf.length
      → set_element m buf o (bit_and w 0xff) ≡ store e 1 m (buf.address + o) (w % 256)
  unfolding store
  store1 le h = fun_ext λ q. ground (arith, and_ff w)
  store1 be h = fun_ext λ q. ground (arith, and_ff w)

  pub store2_le :
      o + 2 ≤ buf.length
      → set_element (set_element m buf o (bit_and w 0xff)) buf (o + 1) (w / 2 ^ 8)
        ≡ store le 2 m (buf.address + o) (w % 65536)
  unfolding store
  store2_le h = fun_ext λ q. ground (arith, and_ff w)

  pub store2_be :
      o + 2 ≤ buf.length
      → set_element (set_element m buf o (w / 2 ^ 8)) buf (o + 1) (bit_and w 0xff)
        ≡ store be 2 m (buf.address + o) (w % 65536)
  unfolding store
  store2_be h = fun_ext λ q. ground (arith, and_ff w)

-- Four writes at neighbouring addresses, in any of the orders used.
module _ (m : Memory) (a b0 b1 b2 b3 : ℕ) where
  abbrev falling : Memory
  falling = poke (poke (poke (poke m (a + 3) b3) (a + 2) b2) (a + 1) b1) a b0

  abbrev rising : Memory
  rising = poke (poke (poke (poke m a b0) (a + 1) b1) (a + 2) b2) (a + 3) b3

  rising-falling : rising ≡ falling
  rising-falling = fun_ext λ q. ground arith

abbrev digit : ℕ → ℕ → ℕ
digit w k = w / 2 ^ k % 256

module _ (m : Memory) (a w : ℕ) where
  store4_digits_le :
      store le 4 m a (w % 2 ^ 32) ≡ falling m a (w % 256) (digit w 8) (digit w 16) (digit w 24)
  unfolding store
  store4_digits_le = fun_ext λ q. ground arith

  store4_digits_be :
      store be 4 m a (w % 2 ^ 32) ≡ falling m a (digit w 24) (digit w 16) (digit w 8) (w % 256)
  unfolding store
  store4_digits_be = fun_ext λ q. ground arith

set_inside :
    (m : Memory) (buf : Buffer) (o i v : ℕ)
    → o + i < buf.length
    → set_element m buf (o + i) v ≡ poke m (buf.address + o + i) (v % 256)
set_inside m buf o i v h = fun_ext λ q. ground arith

set_first :
    (m : Memory) (buf : Buffer) (o v : ℕ)
    → o < buf.length
    → set_element m buf o v ≡ poke m (buf.address + o) (v % 256)
set_first m buf o v h = fun_ext λ q. ground arith

-- The element writes of the three loops, inside the buffer.
module _ (m : Memory) (buf : Buffer) (o x0 x1 x2 x3 : ℕ) (h : o + 4 ≤ buf.length) where
  abbrev a : ℕ
  a = buf.address + o

  set_up : Memory
  set_up =
      set_element (set_element (set_element (set_element m buf o x0) buf (o + 1) x1) buf (o + 2) x2)
        buf (o + 3) x3

  set_up_lem : set_up ≡ falling m a (x0 % 256) (x1 % 256) (x2 % 256) (x3 % 256)
  unfolding set_up
  set_up_lem =
      rw
        (
          set_first m buf o x0 (omega arith),
          set_inside (poke m a (x0 % 256)) buf o 1 x1 (omega arith),
          set_inside (poke (poke m a (x0 % 256)) (a + 1) (x1 % 256)) buf o 2 x2 (omega arith),
          set_inside (poke (poke (poke m a (x0 % 256)) (a + 1) (x1 % 256)) (a + 2) (x2 % 256)) buf o
              3 x3 (omega arith),
        )
        (rising-falling m a (x0 % 256) (x1 % 256) (x2 % 256) (x3 % 256))

  set_down : Memory
  set_down =
      set_element
        (set_element (set_element (set_element m buf (o + 3) x3) buf (o + 2) x2) buf (o + 1) x1) buf
        o x0

  set_down_lem : set_down ≡ falling m a (x0 % 256) (x1 % 256) (x2 % 256) (x3 % 256)
  unfolding set_down
  set_down_lem = rw (
    set_inside m buf o 3 x3 (omega arith),
    set_inside (poke m (a + 3) (x3 % 256)) buf o 2 x2 (omega arith),
    set_inside (poke (poke m (a + 3) (x3 % 256)) (a + 2) (x2 % 256)) buf o 1 x1 (omega arith),
    set_first (poke (poke (poke m (a + 3) (x3 % 256)) (a + 2) (x2 % 256)) (a + 1) (x1 % 256)) buf o
        x0 (omega arith),
  )

low_byte : (w : ℕ) → bit_and w 0xff % 256 ≡ w % 256
low_byte w = omega (arith, and_ff w)

module _ (m : Memory) (buf : Buffer) (o w : ℕ) (h : o + 4 ≤ buf.length) where
  -- From the low byte up, as `writeInt32LE` does.
  pub store4_up :
      set_element
        (set_element
          (set_element (set_element m buf o (bit_and w 0xff)) buf (o + 1) (w / 2 ^ 8))
          buf
          (o + 2)
          (w / 2 ^ 16))
        buf
        (o + 3)
        (w / 2 ^ 24)
      ≡ store le 4 m (buf.address + o) (w % 2 ^ 32)
  unfolding set_up
  store4_up =
      set_up_lem m buf o (bit_and w 0xff) (w / 2 ^ 8) (w / 2 ^ 16) (w / 2 ^ 24) h
      ∙ rw (low_byte w) (sym (store4_digits_le m (buf.address + o) w))

  -- From the high byte down, as `writeUInt32LE` does.
  pub store4_down :
      set_element
        (set_element
          (set_element (set_element m buf (o + 3) (w / 2 ^ 24)) buf (o + 2) (w / 2 ^ 16))
          buf
          (o + 1)
          (w / 2 ^ 8))
        buf
        o
        (bit_and w 0xff)
      ≡ store le 4 m (buf.address + o) (w % 2 ^ 32)
  unfolding set_down
  store4_down =
      set_down_lem m buf o (bit_and w 0xff) (w / 2 ^ 8) (w / 2 ^ 16) (w / 2 ^ 24) h
      ∙ rw (low_byte w) (sym (store4_digits_le m (buf.address + o) w))

  pub store4_be :
      set_element
        (set_element
          (set_element (set_element m buf o (w / 2 ^ 24)) buf (o + 1) (w / 2 ^ 16))
          buf
          (o + 2)
          (w / 2 ^ 8))
        buf
        (o + 3)
        (bit_and w 0xff)
      ≡ store be 4 m (buf.address + o) (w % 2 ^ 32)
  unfolding set_up
  store4_be =
      set_up_lem m buf o (w / 2 ^ 24) (w / 2 ^ 16) (w / 2 ^ 8) (bit_and w 0xff) h
      ∙ rw (low_byte w) (sym (store4_digits_be m (buf.address + o) w))
