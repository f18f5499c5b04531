-- ===== src/Access/Bytes.antt =====
-- `put_bytes`, `bytes_at` and the search for the terminator of a C string, on a run of bytes.
use js_ffi_cross.Base.{
  ℕ, zero, suc, ◌+◌, ◌≤◌, ◌<◌, ◌≡◌, refl, List, [], ◌∷◌, length, arith, ltb, leb, ◌&&◌, false,
}
use js_ffi_cross.Memory.{Memory, poke}
use js_ffi_cross.Codec.Positional.{load}
use js_ffi_cross.Accessors.Endian.{Endian, le, be}
use js_ffi_cross.World.{Host}
use js_ffi_cross.Pointers.{scan_zeros}
use js_ffi_cross.Access.{bytes_at, put_bytes}

-- The bytes stand in the memory from an address on.
abbrev pub Holds : Memory → ℕ → List ℕ → Type 0
Holds m a [] = Unit
Holds m a (b ∷ bytes) = (m a ≡ b) × Holds m (a + 1) bytes

-- Bytes without a terminator among them.
abbrev pub HasNoNul : List ℕ → Type 0
HasNoNul [] = Unit
HasNoNul (b ∷ bytes) = (0 < b) × HasNoNul bytes

pub Holds-cong :
    (m m' : Memory) (a : ℕ) (bytes : List ℕ)
    → ((q : ℕ) → a ≤ q → q < a + length bytes → m q ≡ m' q)
    → Holds m a bytes
    → Holds m' a bytes
Holds-cong m m' a [] same h = tt
Holds-cong m m' a (b ∷ bytes) same (first, rest) = (
  ground (arith, same a),
  Holds-cong m m' (a + 1) bytes (λ q low high. same q (omega arith) (omega arith)) rest,
)

pub Holds-put_bytes : (m : Memory) (a : ℕ) (bytes : List ℕ) → Holds (put_bytes m a bytes) a bytes
unfolding put_bytes
Holds-put_bytes m a [] = tt
Holds-put_bytes m a (b ∷ bytes) = (
  ground arith,
  Holds-cong (put_bytes m (a + 1) bytes) (poke (put_bytes m (a + 1) bytes) a b) (a + 1) bytes
      (λ q low high. ground arith) (Holds-put_bytes m (a + 1) bytes),
)

pub put_bytes_outside :
    (m : Memory) (a : ℕ) (bytes : List ℕ) (q : ℕ)
    → ((leb a q && ltb q (a + length bytes)) ≡ false)
    → put_bytes m a bytes q ≡ m q
unfolding put_bytes
put_bytes_outside m a [] q h = refl
put_bytes_outside m a (b ∷ bytes) q h = ground (arith, put_bytes_outside m (a + 1) bytes q)

pub bytes_at-Holds :
    (m : Memory) (a : ℕ) (bytes : List ℕ) → Holds m a bytes → bytes_at (length bytes) m a ≡ bytes
unfolding bytes_at
bytes_at-Holds m a [] h = refl
bytes_at-Holds m a (b ∷ bytes) (first, rest) = rw (first, bytes_at-Holds m (a + 1) bytes rest)

load_byte : (e : Endian) (m : Memory) (a : ℕ) → load e 1 m a ≡ m a
unfolding load
load_byte le m a = omega arith
load_byte be m a = omega arith

-- A search from `size` on passes the bytes and stops at the terminator behind them.
pub scan_zeros-Holds :
    (host : Host) (m : Memory) (limit ptr fuel size : ℕ) (bytes : List ℕ)
    → Holds m (ptr + size) bytes
    → HasNoNul bytes
    → m (ptr + size + length bytes) ≡ 0
    → size + length bytes < limit
    → length bytes < fuel
    → scan_zeros host limit fuel 1 m ptr size ≡ size + length bytes
unfolding scan_zeros
scan_zeros-Holds host m limit ptr zero size bytes h no_nul nul below enough = absurd (omega arith)
scan_zeros-Holds host m limit ptr (suc fuel) size [] h no_nul nul below enough =
    ground (arith, load_byte host.endian m (ptr + size))
scan_zeros-Holds host m limit ptr (suc fuel) size (b ∷ bytes) (first, rest) (here, no_nul) nul below
      enough =
    let moved : ptr + size + 1 ≡ ptr + (size + 1) = omega arith in
    let end : ptr + size + length (b ∷ bytes) ≡ ptr + (size + 1) + length bytes = omega arith in
    ground (
      arith,
      load_byte host.endian m (ptr + size),
      scan_zeros-Holds host m limit ptr fuel (size + 1) bytes (rw (← moved) rest) no_nul
          (rw (← end) nul) (omega arith) (omega arith),
    )
