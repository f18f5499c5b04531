-- ===== src/Callbacks.antt =====
-- Functions made from types: `ForeignFunction` of lib/foreign_function.js, `Callback` of
-- lib/callback.js and the function type of lib/function.js. The native closure that libffi makes for
-- a callback is a parameter, and so is what a JavaScript function does.
pub mod Arguments
use js_ffi_cross.Base.{
  ℕ, ◌+◌, ◌*◌, pos, ℤ, Bool, true, false, if◌then◌else◌, Option, none, some, List, [], ◌∷◌, map,
  length,
}
use js_ffi_cross.Base.Result.{
  Error, Result, ok, err, no_return_type, no_argument_array, no_function_buffer,
  no_callback_function, no_callback, error_setting_return_value,
}
use js_ffi_cross.Memory.{Buffer}
use js_ffi_cross.CType.{CType, size}
use js_ffi_cross.CType.Coerce.{Types, TypeSpec, typed, coerce_type}
use js_ffi_cross.Value.{
  Value, TypedBuffer, scalar, double, text, reference, instance_of, other_object,
}
use js_ffi_cross.World.{
  World, Host, Action, pure, lift, raise, raise_if, then_run, ◌>>=◌, ◌>>◌, pointer_size,
}
use js_ffi_cross.Pointers.{read_pointer, write_pointer}
use js_ffi_cross.Access.{Composite, deref, set}
use js_ffi_cross.Cif.{Cif, Native, cif, present, abi_or}
use js_ffi_cross.Foreign.{Libffi, Proxy, make_proxy}

-- `Buffer.isBuffer`
abbrev pub buffer_of : Value → Result Buffer
buffer_of (reference buf type) = ok buf
buffer_of _ = err no_function_buffer

-- `_Callback` of the native module: the call interface, the size of the result, the number of
-- arguments and the JavaScript function give a buffer at the closure's code.
abbrev pub MakeClosure : Type 0
MakeClosure = Cif → ℕ → ℕ → Value → Action Buffer

-- The attributes of a function type.
pub record FunctionType : Type 0 where
  pub ret_type : CType
  pub arg_types : List CType
  pub abi : ℕ

abbrev pub returned_or : Result (Unit {0}) × World → Result (Unit {0}) × World
returned_or (ok done, w) = (ok done, w)
returned_or (err e, w) = (err (error_setting_return_value e), w)

module _ (host : Host) (composite : Composite) (types : Types) where
  -- `argTypes.map(ref.coerceType)`
  unfoldable pub coerce_all : List TypeSpec → Action (List CType)
  unfolding coerce_type
  coerce_all [] = pure []
  coerce_all (spec ∷ specs) = do
    type ← lift (coerce_type types spec)
    rest ← coerce_all specs
    pure (type ∷ rest)

  -- The arguments of a callback, from the array of pointers that C passes.
  unfoldable pub read_arguments : Buffer → ℕ → List CType → Action (List Value)
  unfolding read_pointer deref size
  read_arguments params index [] = pure []
  read_arguments params index (type ∷ rest) = do
    arg_ptr ← read_pointer host params (pos (index * pointer_size host)) (size host.platform type)
    val ← deref host composite types (record { view = arg_ptr; type = some (typed type) })
    vals ← read_arguments params (index + 1) rest
    pure (val ∷ vals)

  -- The function that the native closure calls; what it throws here, it returns to the native side.
  unfoldable pub invoke_callback :
      CType → List CType → (List Value → Action Value) → Buffer → Buffer → Action (Unit {0})
  unfolding read_arguments set
  invoke_callback ret_type arg_types func retval params = do
    args ← read_arguments params 0 arg_types
    result ← func args
    (λ w. returned_or (
        set host composite types (record { view = retval; type = none }) result (pos 0)
          (some (typed ret_type)) w))

  module _ (native : Native) (libffi : Libffi) (make_closure : MakeClosure) where
    -- `ForeignFunction`
    unfoldable pub foreign_function :
        Value → Option TypeSpec → Option (List TypeSpec) → Option ℕ → Action Proxy
    unfolding coerce_type coerce_all cif make_proxy
    foreign_function func_ptr return_type arg_types abi = do
      func ← lift (buffer_of func_ptr)
      return_spec ← lift (present no_return_type return_type)
      arg_specs ← lift (present no_argument_array arg_types)
      return ← lift (coerce_type types return_spec)
      args ← coerce_all arg_specs
      made ← lift (cif native types (some (typed return)) (some (map typed args)) abi)
      lift (make_proxy host composite types libffi made func return args)

    -- `Callback`, without the error callback that reports to the event loop.
    unfoldable pub callback :
        Option TypeSpec → Option (List TypeSpec) → Option ℕ → Value → Action Buffer
    unfolding coerce_type coerce_all cif size
    callback ret_type arg_types abi func = do
      return_spec ← lift (present no_return_type ret_type)
      arg_specs ← lift (present no_argument_array arg_types)
      raise_if (if libffi.is_function func then false else true) no_callback
      return ← lift (coerce_type types return_spec)
      args ← coerce_all arg_specs
      made ← lift (cif native types (some (typed return)) (some (map typed args)) abi)
      make_closure made (size host.platform return) (length args) func

    -- `Function`
    unfoldable pub function_type :
        Option TypeSpec → Option (List TypeSpec) → Option ℕ → Action FunctionType
    unfolding coerce_type coerce_all
    function_type ret_type arg_types abi = do
      return_spec ← lift (present no_return_type ret_type)
      arg_specs ← lift (present no_argument_array arg_types)
      return ← lift (coerce_type types return_spec)
      args ← coerce_all arg_specs
      pure (record { ret_type = return; arg_types = args; abi = abi_or abi native.default_abi })

    unfoldable pub to_pointer : FunctionType → Value → Action Buffer
    unfolding callback
    to_pointer f func =
        callback (some (typed f.ret_type)) (some (map typed f.arg_types)) (some f.abi) func

    unfoldable pub to_function : FunctionType → Buffer → Action Proxy
    unfolding foreign_function
    to_function f buf =
        foreign_function (reference buf none) (some (typed f.ret_type))
          (some (map typed f.arg_types)) (some f.abi)

    -- `get` and `set` of a function type.
    unfoldable pub get_function : FunctionType → Buffer → ℤ → Action Proxy
    unfolding read_pointer to_function
    get_function f buffer offset = do ptr ← read_pointer host buffer offset 0; to_function f ptr

    abbrev pub set_pointer : Buffer → Value → ℤ → Action (Unit {0})
    set_pointer buffer (reference buf type) offset =
        write_pointer host buffer (reference buf type) offset
    set_pointer buffer value offset = raise no_callback_function

    unfoldable pub set_function : FunctionType → Buffer → Value → ℤ → Action (Unit {0})
    unfolding to_pointer write_pointer
    set_function f buffer value offset =
        if libffi.is_function value
        then (do ptr ← to_pointer f value; write_pointer host buffer (reference ptr none) offset)
        else set_pointer buffer value offset
