-- ===== src/Pointers/Words.antt =====
-- A word of a pointer's size, as src/ref-napi.cc stores and loads it, at the machine's addresses.
use native.Mathlib.Nat.{pow-suc}
use js_ffi_cross.Base.{
  ℕ, zero, suc, ◌+◌, ◌*◌, ◌%◌, ◌^◌, ◌≤◌, ◌<◌, ◌≡◌, ◌≢◌, pos, false, arith, ◌==◌,
}
use js_ffi_cross.Base.{Option}
use js_ffi_cross.Base.Result.{ok}
use js_ffi_cross.Memory.{Buffer}
use js_ffi_cross.CType.Coerce.{TypeSpec}
use js_ffi_cross.Value.{reference}
use js_ffi_cross.Pointers.{read_pointer, write_pointer, wrap_pointer, is_null}
use js_ffi_cross.World.{World, Host, displaced, pointer_size, load_pointer, store_pointer}
use js_ffi_cross.Codec.Positional.{load-store}

bytes_pow : (n : ℕ) → 2 ^ (8 * n) ≡ 256 ^ n
bytes_pow zero = omega arith
bytes_pow (suc n) =
    let split : 8 * suc n ≡ suc (suc (suc (suc (suc (suc (suc (suc (8 * n)))))))) = omega arith in
    rw split (
      omega (
        arith,
        bytes_pow n,
        pow-suc 256 n,
        pow-suc 2 (suc (suc (suc (suc (suc (suc (suc (8 * n)))))))),
        pow-suc 2 (suc (suc (suc (suc (suc (suc (8 * n))))))),
        pow-suc 2 (suc (suc (suc (suc (suc (8 * n)))))),
        pow-suc 2 (suc (suc (suc (suc (8 * n))))),
        pow-suc 2 (suc (suc (suc (8 * n)))),
        pow-suc 2 (suc (suc (8 * n))),
        pow-suc 2 (suc (8 * n)),
        pow-suc 2 (8 * n),
      ))

module _ (host : Host) where
  -- `n` bytes from an address are no NULL and lie in the machine's address space.
  abbrev pub IsMapped : ℕ → ℕ → Type 0
  IsMapped a n = (a ≢ 0) × (a + n < 2 ^ (8 * pointer_size host))

  pub load-store_pointer :
      (a pointer : ℕ) (w : World)
      → pointer < 2 ^ (8 * pointer_size host)
      → load_pointer host (store_pointer host a pointer w).memory a ≡ pointer
  load-store_pointer a pointer w h =
      load-store host.endian (pointer_size host) w.memory a pointer
        (omega (arith, bytes_pow (pointer_size host)))

  pub displaced_lt :
      (a n : ℕ)
      → a + n < 2 ^ (8 * pointer_size host)
      → displaced (pointer_size host) a (pos n) ≡ a + n
  displaced_lt a n h = grind arith

  pub write_pointer_lem :
      (buf : Buffer) (pointed : Buffer) (type : Option TypeSpec) (o : ℕ) (w : World)
      → o < 2 ^ 32
      → buf.address + o ≢ 0
      → buf.address + o < 2 ^ (8 * pointer_size host)
      → write_pointer host buf (reference pointed type) (pos o) w
        ≡ (ok tt, store_pointer host (buf.address + o) pointed.address w)
  unfolding write_pointer
  write_pointer_lem buf pointed type o w small mapped fits =
      let same : o % 2 ^ 32 ≡ o = omega arith in
      let tested : ((buf.address + o) == 0) ≡ false = ground arith in
      rw (same, displaced_lt buf.address o fits, tested)

  -- A pointer that stands in a mapped slot is read as a view of the size asked for.
  pub read_pointer_lem :
      (buf : Buffer) (o size pointer : ℕ) (w : World)
      → IsMapped (buf.address + o) 0
      → load_pointer host w.memory (buf.address + o) ≡ pointer
      → pointer ≢ 0
      → size ≤ host.room pointer size
      → read_pointer host buf (pos o) size w
        ≡ (ok (record { address = pointer; length = size; room = host.room pointer size }), w)
  unfolding read_pointer wrap_pointer
  read_pointer_lem buf o size pointer w (present, fits) stored non_null roomy =
      rw (displaced_lt buf.address o (omega arith), stored) (ground arith)

  pub is_null-mapped : (view : Buffer) → IsMapped view.address 0 → is_null host view ≡ false
  unfolding is_null
  is_null-mapped view (present, fits) = rw (displaced_lt view.address 0 fits) (ground arith)
