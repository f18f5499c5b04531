-- ===== src/Foreign/Bounds.antt =====
-- The storage for the result that lib/_foreign_function.js allocates.
use js_ffi_cross.Base.{ℕ, ◌≤◌, ◌<◌, ◌≡◌, ◌≢◌, arith}
use js_ffi_cross.CType.{CType, indirection, size}
use js_ffi_cross.CType.Coerce.{Types}
use js_ffi_cross.World.{Host, pointer_size}
use js_ffi_cross.Access.{Composite, value_size}
use js_ffi_cross.Foreign.{Libffi, result_size}

module _ (host : Host) (composite : Composite) (types : Types) (libffi : Libffi)
    (type : CType) where
  abbrev storage : ℕ
  storage = result_size host composite types libffi type

  -- Where a `long` has the size of libffi's `ffi_arg`, and a pointer no more than that, the storage
  -- for the result has room for an `ffi_arg`, which libffi writes for small integers, and for a value
  -- of the return type.
  pub result_size-fits :
      libffi.sizeof_long ≡ libffi.ffi_arg_size
      → pointer_size host ≤ libffi.ffi_arg_size
      → (libffi.ffi_arg_size ≤ storage) × (value_size host composite types type ≤ storage)
  unfolding result_size value_size
  result_size-fits same small = ground arith

  -- Where a `long` is shorter than an `ffi_arg`, as on 64-bit Windows, and the return type has, or
  -- points to, a size between the two, the storage is too small for an `ffi_arg`; if the type is a
  -- pointer type and pointers have the size of an `ffi_arg`, it is too small for the pointer itself.
  pub result_size-overflows :
      libffi.sizeof_long ≤ size host.platform type
      → size host.platform type < libffi.ffi_arg_size
      → pointer_size host ≡ libffi.ffi_arg_size
      → (storage < libffi.ffi_arg_size)
        × (indirection type ≢ 1 → storage < value_size host composite types type)
  unfolding result_size value_size
  result_size-overflows long short pointers = (ground arith, λ pointer. ground arith)
