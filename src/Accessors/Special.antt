-- ===== src/Accessors/Special.antt =====
-- `bool` and `char`, whose accessors `overrideGetSetFunctions` wraps, and the BigInt setter of the
-- types of at most four bytes.
use js_ffi_cross.Base.{
  ℕ, ◌+◌, ◌-◌, ◌^◌, ◌<◌, ◌≤◌, ◌≡◌, refl, Bool-cases, inl, inr, ℤ, pos, negsuc, Bool, true, false,
  List, [], ◌∷◌, arith, ltb,
}
use js_ffi_cross.Base.Result.{
  Error, Result, ok, err, value_out_of_bounds, number_to_bigint, bigint_to_number, bad_bigint_index,
}
use js_ffi_cross.Word.{to_uint32}
use js_ffi_cross.Scalar.{Scalar, boolean, number, bigint, undefined, null, nan}
use js_ffi_cross.Memory.{Memory, Buffer, IsBytes}
use js_ffi_cross.Codec.Read
use js_ffi_cross.Codec.Positional.{store}
use js_ffi_cross.Codec.WriteLaws
use js_ffi_cross.Codec.WriteLaws.{pattern_of}
use js_ffi_cross.Accessors.Endian.{Endian, le}
use js_ffi_cross.Accessors.Getters.{get_functions_generate, get_bool, get_char}
use js_ffi_cross.Accessors.Setters.{
  set_functions_generate, set_bool, set_char, as_n, write_function_bigint,
}
use js_ffi_cross.Accessors.Positional.{Narrow, one, two, four, bytes}
use js_ffi_cross.Accessors.RoundTrip.{RoundTrips, get-set_number}

-- The error that a call ends in, whatever it is.
abbrev pub Throws {ℓ} : {A : Type ℓ} → Result A → Type ℓ
Throws result = (e : Error) × (result ≡ err e)

as_n-Throws : (val : Scalar) → Throws (as_n val)
as_n-Throws undefined = (number_to_bigint, refl)
as_n-Throws null = (number_to_bigint, refl)
as_n-Throws nan = (number_to_bigint, refl)
as_n-Throws (boolean b) = (number_to_bigint, refl)
as_n-Throws (bigint n) = (bigint_to_number, refl)
as_n-Throws (number (negsuc n)) = (bad_bigint_index, refl)
as_n-Throws (number (pos n)) = elim (Bool-cases (ltb (2 ^ 53 - 1) n)) [
  | inl large ↦ (bad_bigint_index, ground arith)
  | inr small ↦ (number_to_bigint, ground arith)
]

-- For every type of one, two or four bytes the BigInt setter throws, whatever the value, the
-- buffer and the offset.
pub set_bigint-Throws :
    (e : Endian) (max_size_is_8 unsigned : Bool) (w : Narrow) (m : Memory) (buf : Buffer)
    (val : Scalar) (offset : ℤ)
    → Throws
        ((set_functions_generate e max_size_is_8 unsigned (bytes w)).set_bigint m buf val offset)
unfolding set_functions_generate write_function_bigint
set_bigint-Throws e max_size_is_8 unsigned one m buf val offset =
    let (x, thrown) = as_n-Throws val in (x, ground arith)
set_bigint-Throws e max_size_is_8 unsigned two m buf val offset =
    let (x, thrown) = as_n-Throws val in (x, ground arith)
set_bigint-Throws e max_size_is_8 unsigned four m buf val offset =
    let (x, thrown) = as_n-Throws val in (x, ground arith)

-- A `bool` of one byte that fits the buffer is read back as it was set, and no other byte changes.
-- The memory holds bytes.
pub get_bool-set_bool :
    (e : Endian) (m : Memory) (buf : Buffer) (b : Bool) (offset : ℤ)
    → IsBytes m
    → to_uint32 offset + 1 ≤ buf.length
    → RoundTrips
        (set_bool (set_functions_generate e false true 1) m buf (boolean b) offset)
        (λ after. get_bool (get_functions_generate e false true 1) after buf offset)
        m
        (buf.address + to_uint32 offset)
        1
        (to_uint32 offset + 1)
        (boolean b)
unfolding set_bool get_bool
get_bool-set_bool e m buf true offset h fits =
    let trip = get-set_number e true m buf (pos 1) offset one h refl fits in
    record { after = trip.after; returns = trip.returns; reads = rw trip.reads; frame = trip.frame }
get_bool-set_bool e m buf false offset h fits =
    let trip = get-set_number e true m buf (pos 0) offset one h refl fits in
    record { after = trip.after; returns = trip.returns; reads = rw trip.reads; frame = trip.frame }

module _ (m : Memory) (buf : Buffer) (offset : ℤ) (c : ℕ) where
  -- A `uchar` takes every string whose first code unit is below 256, and its one code unit is read
  -- back. The byte fits the buffer.
  pub get_char-set_char :
      c < 256
      → to_uint32 offset + 1 ≤ buf.length
      → (after : Memory) × (set_char true m buf (c ∷ []) offset ≡ ok (after, to_uint32 offset + 1))
        × (get_char after buf offset ≡ ok (c ∷ []))
  unfolding set_char get_char Read.read_uint8 store
  get_char-set_char small fits = (
    store le 1 m (buf.address + to_uint32 offset) c,
    ground (arith, WriteLaws.write_uint8_lem m buf (pos c) offset),
    ground arith,
  )

  -- A signed `char` reads a byte of 128 and above as a one-letter string that its setter refuses.
  pub char_not_writable :
      (rest : List ℕ)
      → m (buf.address + to_uint32 offset) ≡ c
      → 128 ≤ c
      → to_uint32 offset + 1 ≤ buf.length
      → (get_char m buf offset ≡ ok (c ∷ []))
        × (set_char false m buf (c ∷ rest) offset ≡ err value_out_of_bounds)
  unfolding set_char get_char Read.read_uint8
  char_not_writable rest byte high fits =
      (ground arith, ground (arith, WriteLaws.write_int8_lem m buf (pos c) offset))
