-- ===== src/Foreign.antt =====
-- Foreign functions: lib/foreign_function.js, and the proxy that lib/_foreign_function.js makes, with
-- its asynchronous version. What the C function and libffi do with the memory is a parameter, and so
-- is which values are JavaScript functions.
pub mod Bounds
pub mod Marshal
pub mod Arguments
pub mod Calls
pub mod Errors
pub mod Integers
use js_ffi_cross.Base.{
  ℕ, zero, suc, ◌+◌, ◌-◌, ◌*◌, pos, Bool, true, false, not, leb, ◌==◌, if◌then◌else◌, Option, none,
  some, List, [], ◌∷◌, map, length,
}
use js_ffi_cross.Base.Result.{
  Error, Result, ok, err, argument_count, no_callback, no_result_size, no_return_type,
  no_argument_array, error_setting_argument, no_function_buffer, null_function, empty_function,
}
use js_ffi_cross.Base.Result
use js_ffi_cross.Memory.{Memory, Buffer}
use js_ffi_cross.CType.{CType, size}
use js_ffi_cross.CType.Coerce.{Types, TypeSpec, typed, coerce_type}
use js_ffi_cross.Value.{
  Value, TypedBuffer, reference, scalar, double, text, instance_of, other_object,
}
use js_ffi_cross.Codec.Positional.{load}
use js_ffi_cross.World.{
  World, Host, Action, pure, lift, raise, raise_if, then_run, ◌>>=◌, ◌>>◌, pointer_size,
  buffer_alloc,
}
use js_ffi_cross.Pointers.{write_pointer}
use js_ffi_cross.Access.{Composite, alloc, deref}
use js_ffi_cross.Cif.{Cif, Native, cif, present}

-- `ref.sizeof.long`, FFI_ARG_SIZE, which values are functions, and `ffi_call` of libffi with the call
-- interface, the function's address and the addresses of the result and of the array of arguments.
pub record Libffi : Type 0 where
  pub sizeof_long : ℕ
  pub ffi_arg_size : ℕ
  pub is_function : Value → Bool
  pub call : Cif → ℕ → ℕ → ℕ → Action (Unit {0})

-- The variables that the proxy closes over.
pub record Proxy : Type 0 where
  pub cif : Cif
  pub func_ptr : Buffer
  pub return_type : CType
  pub arg_types : List CType
  pub result_size : ℕ
  pub args_array_size : ℕ

-- How an asynchronous call goes on: the callback gets an error at the next tick, or the call runs in
-- the thread pool on its result and its array of arguments.
pub data Async : Type 0 where
  rejected : Error → Async
  running : Buffer → Buffer → Async

-- The loop over the arguments takes as many as there are types.
abbrev pub take {ℓ} : {A : Type ℓ} → ℕ → List A → List A
take zero xs = []
take (suc n) [] = []
take (suc n) (x ∷ xs) = x ∷ take n xs

abbrev pub last_or {ℓ} : {A : Type ℓ} → A → List A → A
last_or default [] = default
last_or default (x ∷ xs) = last_or x xs

-- An error of the `try` block, with the number of the argument put before its message.
abbrev pub named : ℕ → Result (Unit {0}) × World → Result (Unit {0}) × World
named number (ok done, w) = (ok done, w)
named number (err e, w) = (err (error_setting_argument number e), w)

module _ (host : Host) (composite : Composite) (types : Types) where
  -- The body of the loop over the arguments.
  unfoldable pub write_argument : Buffer → ℕ → CType → Value → Action (Unit {0})
  unfolding alloc write_pointer
  write_argument args_list index type val = do
    val_ptr ← alloc host composite types (typed type) (some val)
    write_pointer host args_list (reference val_ptr.view val_ptr.type)
        (pos (index * pointer_size host))

  -- The loop in its `try` block, from an index on; `number` is what the message calls an index.
  unfoldable pub write_arguments :
      (ℕ → ℕ) → Buffer → ℕ → List CType → List Value → Action (Unit {0})
  unfolding write_argument
  write_arguments number args_list index (type ∷ rest) (val ∷ vals) w =
      then_run (named (number index) (write_argument args_list index type val w))
        (λ done. write_arguments number args_list (index + 1) rest vals)
  write_arguments number args_list index arg_types vals w = (ok tt, w)

  module _ (libffi : Libffi) where
    -- `size` of a pointer type is that of what it points to.
    unfoldable pub result_size : CType → ℕ
    unfolding size
    result_size type =
        let n = size host.platform type in
        if leb libffi.sizeof_long n then n else libffi.ffi_arg_size

    -- `_ForeignFunction`
    unfoldable pub make_proxy : Cif → Buffer → CType → List CType → Result Proxy
    unfolding result_size
    make_proxy cif func_ptr return_type arg_types =
        if result_size return_type == 0
        then err no_result_size
        else ok (record {
          cif = cif;
          func_ptr = func_ptr;
          return_type = return_type;
          arg_types = arg_types;
          result_size = result_size return_type;
          args_array_size = length arg_types * pointer_size host;
        })

    -- `ffi_call` of the native module; the thread pool's makes the same checks.
    unfoldable pub ffi_call : Cif → Buffer → Buffer → Buffer → Action (Unit {0})
    unfolding load
    ffi_call cif func_ptr result args_list = do
      raise_if (func_ptr.address == 0) null_function
      m ← (λ w. (ok w.memory, w))
      raise_if (load host.endian 4 m func_ptr.address == 0) empty_function
      libffi.call cif func_ptr.address result.address args_list.address

    -- `proxy`
    unfoldable pub call_proxy : Proxy → List Value → Action Value
    unfolding buffer_alloc write_arguments ffi_call deref
    call_proxy proxy args = do
      raise_if (not (length args == length proxy.arg_types)) argument_count
      result ← buffer_alloc host proxy.result_size
      args_list ← buffer_alloc host proxy.args_array_size
      write_arguments suc args_list 0 proxy.arg_types args
      ffi_call proxy.cif proxy.func_ptr result args_list
      deref host composite types (record { view = result; type = some (typed proxy.return_type) })

    abbrev pub settled : Buffer → Buffer → Result (Unit {0}) × World → Result Async × World
    settled result args_list (ok done, w) = (ok (running result args_list), w)
    settled result args_list (err e, w) = (ok (rejected e), w)

    -- `proxy.async`, whose last argument is the callback.
    unfoldable pub call_async : Proxy → List Value → Action Async
    unfolding buffer_alloc write_arguments
    call_async proxy args = do
      let count = length proxy.arg_types
      raise_if (not (length args == count + 1)) argument_count
      raise_if (not (libffi.is_function (last_or (other_object 0) args))) no_callback
      result ← buffer_alloc host proxy.result_size
      args_list ← buffer_alloc host proxy.args_array_size
      (λ w.
          settled result args_list
            (write_arguments (λ i. i) args_list 0 proxy.arg_types (take count args) w))

    -- The call in the thread pool and what follows: the callback gets the error of the native call or
    -- what `deref` reads; what `deref` throws is thrown outside of it.
    unfoldable pub finish_async : Proxy → Buffer → Buffer → Action Value
    unfolding ffi_call deref
    finish_async proxy result args_list = do
      ffi_call proxy.cif proxy.func_ptr result args_list
      deref host composite types (record { view = result; type = some (typed proxy.return_type) })
