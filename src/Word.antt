-- ===== src/Word.antt =====
-- The conversions and 32-bit operators of the language that lib/ applies to Numbers: `>>> 0`,
-- `| 0`, `<<`, `|`, `&`, the truncation of typed array elements, and two's complement. A 32-bit
-- value is its bit pattern, a number below 2 ^ 32.
pub mod Fields
pub mod Bytes
use js_ffi_cross.Base.{ℕ, ◌-◌, ◌*◌, ◌%◌, ◌^◌, ℤ, pos, negsuc, ltb, if◌then◌else◌}

-- ToUint32 of an integral Number: `x >>> 0`.
abbrev pub to_uint32 : ℤ → ℕ
to_uint32 (pos n) = n % 2 ^ 32
to_uint32 (negsuc n) = 2 ^ 32 - 1 - n % 2 ^ 32

-- `x << k` on bit patterns.
abbrev pub shl : ℕ → ℕ → ℕ
shl x k = x * 2 ^ k % 2 ^ 32

-- The integer that a bit pattern of 32 or of 64 bits stands for.
abbrev pub signed32 : ℕ → ℤ
signed32 w = if ltb w (2 ^ 31) then pos w else negsuc (2 ^ 32 - 1 - w)

abbrev pub signed64 : ℕ → ℤ
signed64 w = if ltb w (2 ^ 63) then pos w else negsuc (2 ^ 64 - 1 - w)

-- The bit pattern of a BigInt modulo 2 ^ 64.
abbrev pub to_uint64 : ℤ → ℕ
to_uint64 (pos n) = n % 2 ^ 64
to_uint64 (negsuc n) = 2 ^ 64 - 1 - n % 2 ^ 64
