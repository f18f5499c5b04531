-- ===== src/Pointers.antt =====
-- The pointer functions of src/ref-napi.cc, and those of lib/ref/ref.js that only call them. What
-- keeps objects from being collected (`_attach`, finalizers, references) is not modelled.
pub mod Scan
pub mod Words
use js_ffi_cross.Base.{
  ℕ, zero, suc, ◌+◌, ◌*◌, ◌^◌, ℤ, pos, negsuc, Bool, true, false, ltb, ◌==◌, if◌then◌else◌, List,
  [], ◌∷◌, ◌++◌, Option, none, some,
}
use js_ffi_cross.Base.Result.{
  Result, ok, err, null_pointer, buffer_expected, err_buffer_out_of_bounds, unsupported_zeros,
  no_terminator, null_written,
}
use js_ffi_cross.Word.{to_uint32, signed64}
use js_ffi_cross.Memory.{Memory, Buffer}
use js_ffi_cross.Text.{Text, codes}
use js_ffi_cross.Scalar.{Scalar, null}
use js_ffi_cross.Value.{Value, scalar, double, text, reference, instance_of, other_object}
use js_ffi_cross.Codec.Positional.{load, store}
use js_ffi_cross.World.{
  World, Host, Action, pure, lift, raise, raise_if, ◌>>=◌, ◌>>◌, then_run, displaced, pointer_size,
  load_pointer, store_pointer,
}

-- `_reinterpretUntilZeros${size * 8}` exists for four sizes.
abbrev pub is_zeros_size : ℕ → Bool
is_zeros_size size =
    if size == 1 then true else if size == 2 then true else if size == 4 then true else size == 8

module _ (host : Host) where
  -- `WrapPointer`: `Buffer.from(arrayBuffer, 0, length)`, and an empty buffer for NULL.
  unfoldable pub wrap_pointer : ℕ → ℕ → Result Buffer
  wrap_pointer address length =
      if address == 0
      then ok (record { address = 0; length = 0; room = 0 })
      else if ltb (host.room address length) length
      then err err_buffer_out_of_bounds
      else ok (record { address = address; length = length; room = host.room address length })

  -- `AddressForArgs`
  abbrev pub address_for_args : Buffer → ℤ → ℕ
  address_for_args buf offset = displaced (pointer_size host) buf.address offset

  -- `ReadPointer`
  unfoldable pub read_pointer : Buffer → ℤ → ℕ → Action Buffer
  unfolding wrap_pointer
  read_pointer buf offset size w =
      let ptr = address_for_args buf offset in
      if ptr == 0
      then (err null_pointer, w)
      else (wrap_pointer (load_pointer host w.memory ptr) size, w)

  -- `WritePointer`, with the address that the input stands for. It does not look at its own pointer:
  -- a write to NULL crashes the process, which is an error of the model.
  abbrev pub input_pointer : Value → Result ℕ
  input_pointer (scalar null) = ok 0
  input_pointer (reference buf type) = ok buf.address
  input_pointer _ = err buffer_expected

  abbrev pub write_address : ℕ → Result ℕ → Action (Unit {0})
  write_address ptr (ok pointer) w =
      if ptr == 0 then (err null_written, w) else (ok tt, store_pointer host ptr pointer w)
  write_address ptr (err e) w = (err e, w)

  unfoldable pub write_pointer : Buffer → Value → ℤ → Action (Unit {0})
  write_pointer buf input offset =
      write_address (address_for_args buf (pos (to_uint32 offset))) (input_pointer input)

  -- `ReinterpretBuffer`, which `reinterpret` calls.
  unfoldable pub reinterpret : Buffer → ℕ → ℤ → Result Buffer
  unfolding wrap_pointer
  reinterpret buf size offset =
      let ptr = address_for_args buf (pos (to_uint32 offset)) in
      if ptr == 0 then err null_pointer else wrap_pointer ptr size

  -- The loop of `ReinterpretBufferUntilZeros`, in steps of `step` bytes from `size` on.
  unfoldable pub scan_zeros : ℕ → ℕ → ℕ → Memory → ℕ → ℕ → ℕ
  scan_zeros limit zero step m ptr size = size
  scan_zeros limit (suc fuel) step m ptr size =
      let further = scan_zeros limit fuel step m ptr (size + step) in
      if ltb size limit
      then if load host.endian step m (ptr + size) == 0 then size else further
      else size

  -- How many addresses a pointer can hold. `strlen` has no bound of its own: where it finds no NUL
  -- among as many bytes, the process crashes, which is an error of the model.
  abbrev pub addresses : ℕ
  addresses = 2 ^ (8 * pointer_size host)

  abbrev pub wrap_string : ℕ → ℕ → Result Buffer
  wrap_string ptr size = if ltb size addresses then wrap_pointer ptr size else err no_terminator

  -- `_reinterpretUntilZeros8`, which is `strlen`, and `_reinterpretUntilZeros16`, `…32` and `…64`,
  -- which stop at `kMaxLength`.
  unfoldable pub until_zeros : ℕ → Memory → Buffer → ℤ → Result Buffer
  unfolding scan_zeros wrap_pointer
  until_zeros step m buf offset =
      let ptr = address_for_args buf offset in
      if ptr == 0
      then err null_pointer
      else if step == 1
      then wrap_string ptr (scan_zeros addresses addresses 1 m ptr 0)
      else wrap_pointer ptr (scan_zeros host.max_length host.max_length step m ptr 0)

  unfoldable pub reinterpret_until_zeros : Buffer → ℕ → ℤ → Action Buffer
  unfolding until_zeros
  reinterpret_until_zeros buf size offset w =
      if is_zeros_size size
      then (until_zeros size w.memory buf (pos (to_uint32 offset)), w)
      else (err unsupported_zeros, w)

  -- `address(buf) === 0n`
  unfoldable pub is_null : Buffer → Bool
  is_null buf = displaced (pointer_size host) buf.address (pos 0) == 0
