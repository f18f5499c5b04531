-- ===== src/Foreign/Errors.antt =====
-- The `try` blocks of lib/_foreign_function.js: which argument an error names.
use js_ffi_cross.Base.{ℕ, ◌*◌, ◌^◌, ◌<◌, ◌≡◌, some, List, ◌∷◌, ◌++◌, length}
use js_ffi_cross.Base.Result.{Error, Result, err}
use js_ffi_cross.Memory.{Buffer, IsBytes}
use js_ffi_cross.CType.{CType}
use js_ffi_cross.CType.Coerce.{Types, typed}
use js_ffi_cross.Value.{Value}
use js_ffi_cross.World.{World, Host, pointer_size}
use js_ffi_cross.Access.{Composite, alloc}
use js_ffi_cross.Pointers.Words.{IsMapped}
use js_ffi_cross.Foreign.{Proxy, Libffi}
use js_ffi_cross.Foreign.Marshal.{AllMarshal, Placed}
use js_ffi_cross.Foreign.Calls.{ready, args_list}

module _ (host : Host) (composite : Composite) (types : Types) where
  -- The value cannot be stored as the type, wherever its storage is placed.
  abbrev pub Refuses : CType → Value → Error → Type 0
  Refuses type val e =
      (w : World)
      → (w' : World) × (alloc host composite types (typed type) (some val) w ≡ (err e, w'))

module _ (host : Host) (composite : Composite) (types : Types) (libffi : Libffi) (proxy : Proxy)
    (w : World) where
  abbrev word : ℕ
  word = pointer_size host

  abbrev list : Buffer
  list = args_list host composite types libffi proxy w

  abbrev start : World
  start = ready host composite types libffi proxy w

  module _ (before after : List CType) (type : CType) (vals later : List Value) (val : Value)
      (e : Error) (typed_as : proxy.arg_types ≡ before ++ type ∷ after)
      (as_many : length later ≡ length after)
      (marshals : AllMarshal host composite types before vals)
      (refuses : Refuses host composite types type val e) (is_bytes : IsBytes w.memory)
      (sized : proxy.args_array_size ≡ length proxy.arg_types * word)
      (small : proxy.args_array_size < 2 ^ 32)
      (mapped : IsMapped host list.address proxy.args_array_size)
      (placed : Placed host composite types start.allocated before) where
    abbrev given : List Value
    given = vals ++ val ∷ later
