-- ===== src/Codec/StoreWide.antt =====
-- DataView's store of eight bytes, against the positional one.
use mathlib.Core.Path.{fun_ext}
use js_ffi_cross.Base.{ℕ, ◌≡◌, arith}
use js_ffi_cross.Memory.{Memory}
use js_ffi_cross.Codec.Write.{put_le64, put_be64}
use js_ffi_cross.Codec.Positional.{store}
use js_ffi_cross.Accessors.Endian.{le, be}

module _ (m : Memory) (a w : ℕ) where
  pub store8_le : put_le64 m a w ≡ store le 8 m a w
  unfolding store
  store8_le = fun_ext λ q. ground arith

  pub store8_be : put_be64 m a w ≡ store be 8 m a w
  unfolding store
  store8_be = fun_ext λ q. ground arith
