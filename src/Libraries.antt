-- ===== src/Libraries.antt =====
-- Shared libraries: `Library` of lib/library.js and lib/errno.js, and the functions of the dynamic
-- linker that lib/dynamic_library.js makes with `ForeignFunction`; its constructor and methods are in
-- `Libraries/Dynamic`, its regular expressions in `Libraries/Script`.
pub mod Script
pub mod Dynamic
pub mod Chain
pub mod Entries
pub mod Filled
use js_ffi_cross.Base.{
  ℕ, zero, suc, pos, Bool, true, false, ◌==◌, if◌then◌else◌, Option, none, some, List, [], ◌∷◌,
  ◌++◌, map,
}
use js_ffi_cross.Base.Result.{
  Error, Result, ok, err, no_return_type, no_argument_array, no_library_handle, no_symbol_buffer,
  too_much_recursion, no_match_method, dynamic_linking_error, dynamic_symbol_error,
  null_function_pointer, no_function_buffer,
}
use js_ffi_cross.Memory.{Buffer}
use js_ffi_cross.Text.{Text, codes, text_eq}
use js_ffi_cross.Scalar.{number, null}
use js_ffi_cross.CType.{CType, ref_of}
use js_ffi_cross.CType.Coerce.{Types, TypeSpec, typed, lookup, coerce_type}
use js_ffi_cross.Value.{
  Value, TypedBuffer, scalar, double, text, reference, instance_of, other_object,
}
use js_ffi_cross.World.{World, Host, Action, pure, lift, raise, raise_if, then_run, ◌>>=◌, ◌>>◌}
use js_ffi_cross.Pointers.{is_null}
use js_ffi_cross.Access.{Composite, deref}
use js_ffi_cross.Cif.{Native, present}
use js_ffi_cross.Foreign.{Libffi, Proxy, call_proxy}
use js_ffi_cross.Callbacks.{MakeClosure, buffer_of, coerce_all, foreign_function}
use js_ffi_cross.Libraries.Script.{starts_with, so_library, group_file}
use js_ffi_cross.Libraries.Dynamic.{
  JsFunction, Linker, DynamicLibrary, as_buffer, from_buffer, get, dynamic_library,
}

-- The keys of `Library.EXT` with the extension of ELF systems.
unfoldable pub is_elf : Text → Bool
unfolding text_eq
is_elf platform =
    if text_eq platform (codes "linux")
    then true
    else if text_eq platform (codes "linux2")
    then true
    else if text_eq platform (codes "sunos")
    then true
    else if text_eq platform (codes "solaris")
    then true
    else if text_eq platform (codes "freebsd")
    then true
    else text_eq platform (codes "openbsd")

-- `Library.EXT`, where an unknown platform's `undefined` is used as a text.
unfoldable pub ext : Text → Text
unfolding text_eq is_elf
ext platform =
    if text_eq platform (codes "darwin")
    then codes ".dylib"
    else if text_eq platform (codes "mac")
    then codes ".dylib"
    else if text_eq platform (codes "win32")
    then codes ".dll"
    else if is_elf platform
    then codes ".so"
    else codes "undefined"

-- `indexOf(part) !== -1`
unfoldable pub contains : Text → Text → Bool
unfolding starts_with
contains part [] = starts_with part []
contains part (c ∷ s) =
    let later = contains part s in if starts_with part (c ∷ s) then true else later

abbrev pub with_extension : Text → Text → Text
with_extension extension file = if contains extension file then file else file ++ extension

-- What `Library` is given for the file: nothing, a text, or a DynamicLibrary.
pub data LibFile : Type 0 where
  no_file : LibFile
  file_name : Text → LibFile
  opened_library : DynamicLibrary → LibFile

-- `[resultType, paramTypes, { abi, async, varargs }]`
pub record FunctionInfo : Type 0 where
  pub result_type : Option TypeSpec
  pub param_types : Option (List TypeSpec)
  pub abi : Option ℕ
  pub async : Bool
  pub varargs : Bool

-- What `VariadicForeignFunction` closes over.
pub record VariadicFunction : Type 0 where
  pub func_ptr : Buffer
  pub return_type : TypeSpec
  pub fixed_arg_types : List CType
  pub abi : Option ℕ

-- A property of the object that `Library` fills.
pub data Entry : Type 0 where
  plain : Proxy → Entry
  asynchronous : Proxy → Entry
  variadic : VariadicFunction → Entry

abbrev pub LibObject : Type 0
LibObject = List (Text × Entry)

-- `lib[func] = entry`, and an exception that leaves the object as it is.
abbrev pub enter :
    Text
    → LibObject
    → Result Entry × World
    → (LibObject → World → LibObject × Result (Unit {0}) × World)
    → LibObject × Result (Unit {0}) × World
enter func lib (ok entry, w) next = next ((func, entry) ∷ lib) w
enter func lib (err e, w) next = (lib, err e, w)

module _ (host : Host) (composite : Composite) (types : Types) (native : Native) (libffi : Libffi)
    (make_closure : MakeClosure) where
  -- `VariadicForeignFunction` up to the function that it returns.
  unfoldable pub variadic_function :
      Value → Option TypeSpec → Option (List TypeSpec) → Option ℕ → Action VariadicFunction
  unfolding coerce_all
  variadic_function func_ptr return_type fixed abi = do
    func ← lift (buffer_of func_ptr)
    return_spec ← lift (present no_return_type return_type)
    fixed_specs ← lift (present no_argument_array fixed)
    fixed_types ← coerce_all host composite types fixed_specs
    pure (record {
      func_ptr = func;
      return_type = return_spec;
      fixed_arg_types = fixed_types;
      abi = abi;
    })

  -- One round of the loop of `Library`.
  unfoldable pub define_function : Linker → DynamicLibrary → Text → FunctionInfo → Action Entry
  unfolding get is_null variadic_function foreign_function
  define_function linker dl func info = do
    fptr ← get host linker dl func
    raise_if (is_null host fptr.view) (null_function_pointer func)
    (if info.varargs
        then (do
          v ← variadic_function (from_buffer fptr) info.result_type info.param_types info.abi
          pure (variadic v))
        else (do
          ff ←
              foreign_function host composite types native libffi make_closure (from_buffer fptr)
                info.result_type info.param_types info.abi
          pure (if info.async then asynchronous ff else plain ff)))

  -- The loop, with the object that it fills.
  unfoldable pub define_functions :
      Linker
      → DynamicLibrary
      → List (Text × FunctionInfo)
      → LibObject
      → World
      → LibObject × Result (Unit {0}) × World
  unfolding define_function
  define_functions linker dl [] lib w = (lib, ok tt, w)
  define_functions linker dl ((func, info) ∷ funcs) lib w =
      enter func lib (define_function linker dl func info w) (define_functions linker dl funcs)

  -- `ForeignFunction` for a function of the dynamic linker, as a function of the program.
  abbrev pub as_function : Proxy → JsFunction
  as_function proxy args = call_proxy host composite types libffi proxy args

  abbrev pub static_function : Buffer → CType → List CType → Action JsFunction
  static_function address result args = do
    proxy ←
        foreign_function host composite types native libffi make_closure (reference address none)
          (some (typed result)) (some (map typed args)) none
    pure (as_function proxy)

  -- The definitions at the top of lib/dynamic_library.js, from `bindings.StaticFunctions` and the
  -- three types that they name.
  unfoldable pub static_linker :
      Buffer → Buffer → Buffer → Buffer → CType → CType → CType → Action Linker
  unfolding foreign_function call_proxy
  static_linker open_at close_at sym_at error_at void_ptr c_string int = do
    dlopen ← static_function open_at void_ptr (c_string ∷ int ∷ [])
    dlclose ← static_function close_at int (void_ptr ∷ [])
    dlsym ← static_function sym_at void_ptr (void_ptr ∷ c_string ∷ [])
    dlerror ← static_function error_at c_string []
    pure (record { dlopen = dlopen; dlclose = dlclose; dlsym = dlsym; dlerror = dlerror })

  module _ (linker : Linker) (rtld_lazy rtld_now : ℕ) (read_file : Text → Result Text)
      (platform : Text) where
    -- `libfile || null`: the empty text is falsy.
    abbrev pub open_file : ℕ → LibFile → Action DynamicLibrary
    open_file fuel no_file =
        dynamic_library host linker rtld_lazy read_file fuel none (some rtld_now)
    open_file fuel (file_name []) =
        dynamic_library host linker rtld_lazy read_file fuel none (some rtld_now)
    open_file fuel (file_name (c ∷ s)) =
        dynamic_library host linker rtld_lazy read_file fuel
          (some (with_extension (ext platform) (c ∷ s))) (some rtld_now)
    open_file fuel (opened_library dl) = pure dl

    abbrev pub fill :
        List (Text × FunctionInfo)
        → LibObject
        → Result DynamicLibrary × World
        → LibObject × Result (Unit {0}) × World
    fill funcs lib (ok dl, w) = define_functions linker dl funcs lib w
    fill funcs lib (err e, w) = (lib, err e, w)

    -- `Library`: the object as the call leaves it, by a return or an exception.
    unfoldable pub library :
        ℕ
        → LibFile
        → List (Text × FunctionInfo)
        → LibObject
        → World
        → LibObject × Result (Unit {0}) × World
    unfolding dynamic_library ext contains define_functions
    library fuel libfile funcs lib w = fill funcs lib (open_file fuel libfile w)

    -- `errno` on Windows: what loading the module does and one call, through the address that `_errno`
    -- of msvcrt.dll returns. Elsewhere it is a function that `static_function` makes.
    unfoldable pub windows_errno : ℕ → CType → Action Value
    unfolding dynamic_library get foreign_function call_proxy deref
    windows_errno fuel int = do
      msvcrt ← dynamic_library host linker rtld_lazy read_file fuel (some (codes "msvcrt.dll")) none
      address ← get host linker msvcrt (codes "_errno")
      proxy ←
          foreign_function host composite types native libffi make_closure (from_buffer address)
            (some (typed (ref_of int))) (some []) none
      answer ← call_proxy host composite types libffi proxy []
      target ← lift (as_buffer no_symbol_buffer answer)
      deref host composite types target
