-- ===== src/Examples/Filling.antt =====
-- A library with one function, asked for two.
use js_ffi_cross.Base.{◌≡◌, ◌⊎◌, refl, none, some, true, false, List, [], ◌∷◌, if◌then◌else◌}
use js_ffi_cross.Base.Result.{Error, Result, ok, err, dynamic_symbol_error, not_a_function}
use js_ffi_cross.Text.{Text, codes, text_eq}
use js_ffi_cross.Value.{Value, text, reference}
use js_ffi_cross.World.{World, Action, pure}
use js_ffi_cross.Pointers.{is_null}
use js_ffi_cross.Access.{null_buffer}
use js_ffi_cross.CType.Coerce.{named}
use js_ffi_cross.Callbacks.{MakeClosure}
use js_ffi_cross.Libraries.Dynamic.{Linker, DynamicLibrary, get, error}
use js_ffi_cross.Libraries.{
  FunctionInfo, LibObject, opened_library, variadic, library, open_file, define_function,
  define_functions, variadic_function,
}
use js_ffi_cross.Libraries.Filled.{IsFilled, library-IsFilled}
use js_ffi_cross.Examples.Machine.{machine, no_composite, ramp_world, small_buffer}
use js_ffi_cross.Examples.Calls.{native}
use js_ffi_cross.Examples.Types.{table}
use js_ffi_cross.Examples.Foreigns.{lp64}

abbrev find_printf : List Value → Action Value
find_printf (handle ∷ text name ∷ args) =
    pure (reference (if text_eq name (codes "printf") then small_buffer else null_buffer) none)
find_printf args = pure (reference null_buffer none)

abbrev linker : Linker
linker = record {
  dlopen = λ args. pure (reference small_buffer none);
  dlclose = λ args. pure (text []);
  dlsym = find_printf;
  dlerror = λ args. pure (text (codes "undefined symbol"));
}

abbrev no_closure : MakeClosure
no_closure made size n func w = (err not_a_function, w)

abbrev libc : DynamicLibrary
libc = record {
  path = some (codes "/lib/libc.so.6");
  handle = record { view = small_buffer; type = none };
}

abbrev printf : FunctionInfo
printf = record {
  result_type = some (named (codes "int"));
  param_types = some [];
  abi = none;
  async = false;
  varargs = true;
}

abbrev wanted : List (Text × FunctionInfo)
wanted = (codes "printf", printf) ∷ (codes "scanf", printf) ∷ []

abbrev Outcome : Type 0
Outcome = LibObject × Result (Unit {0}) × World

-- The first one is there, and the second one throws.
abbrev outcome : Outcome
outcome = (
  (
    codes "printf",
    variadic (record {
      func_ptr = small_buffer;
      return_type = named (codes "int");
      fixed_arg_types = [];
      abi = none;
    }),
  )
      ∷ [],
  err (dynamic_symbol_error (some (codes "undefined symbol"))),
  ramp_world,
)

loaded :
    library machine no_composite table native lp64 no_closure linker 1 2
      (λ file. ok [])
      (codes "linux")
      1
      (opened_library libc)
      wanted
      []
      ramp_world
    ≡ outcome
unfolding library define_functions define_function get error is_null variadic_function text_eq
loaded = refl

library-IsFilled_example :
    ((e : Error) × (open_file machine no_composite table native lp64 no_closure linker 1 2
          (λ file. ok [])
          (codes "linux")
          1
          (opened_library libc)
          ramp_world
        ≡ (err e, outcome.2))
      × (outcome.1 ≡ err e)
      × (outcome.0 ≡ []))
    ⊎ ((dl : DynamicLibrary) × (opened : World) × (open_file machine no_composite table native lp64
            no_closure linker 1 2
            (λ file. ok [])
            (codes "linux")
            1
            (opened_library libc)
            ramp_world
          ≡ (ok dl, opened))
        × IsFilled machine no_composite table native lp64 no_closure linker dl wanted [] outcome.0
            outcome.1 outcome.2)
library-IsFilled_example =
    library-IsFilled machine no_composite table native lp64 no_closure linker 1 2 (λ file. ok [])
      (codes "linux") 1 (opened_library libc) wanted [] ramp_world outcome loaded
