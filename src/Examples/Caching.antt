-- ===== src/Examples/Caching.antt =====
-- A function that takes an `int` and then anything, called twice with one `uchar` by a program in which
-- another type was numbered first.
use js_ffi_cross.Base.{arith, ◌≡◌, refl, none, some, [], ◌∷◌}
use js_ffi_cross.Base.Result.{ok}
use js_ffi_cross.Text.{codes, text_eq}
use js_ffi_cross.CType.{ffi_int32, ffi_uint8}
use js_ffi_cross.CType.Coerce.{coerce_type}
use js_ffi_cross.FfiType.{builtin, ffi_type_of, describe, own_ffi_type, write_pointer, nothing}
use js_ffi_cross.Cif.{type_of, cif_var, write_arg_types, prepared}
use js_ffi_cross.Examples.Types.{table, int}
use js_ffi_cross.Examples.Calls.{native, int_object, uchar_object}
use js_ffi_cross.Variadic.{
  TypeObject, Ids, Function, VariadicForeignFunction, variadic_foreign_function,
  variadic_function_generator, push_args, get_id, get_ids, own_id, id_text, to_string_16, to_hex,
  hex_digit, join, find_function, make_function,
}
use js_ffi_cross.Variadic.Identity.{identities}
use js_ffi_cross.Variadic.Runs.{Run, fresh, called, before, function_generator-Run}

abbrev first_object : TypeObject
first_object = record { identity = 0; type = int }

abbrev start : VariadicForeignFunction
start = record {
  return_type = int_object;
  current_type = int_object;
  fixed = int_object ∷ [];
  fixed_key = codes "10000" ∷ [];
  abi = none;
  cache = [];
}

abbrev made : Function
made = record {
  cif = record {
    fixed_args = some 1;
    num_args = 2;
    rtn_type = builtin ffi_int32;
    arg_bytes = 16;
    arg_types = write_pointer 0 (builtin ffi_int32) (write_pointer 8 (builtin ffi_uint8) nothing);
    abi = 2;
  };
  result = int_object;
  args = int_object ∷ uchar_object ∷ [];
}

abbrev after : VariadicForeignFunction
after = record start { cache = (codes "100001000020000", made) ∷ [] }

abbrev few_ids : Ids
few_ids = record { counter = 2; texts = (1, codes "10000") ∷ (0, codes "0") ∷ [] }

abbrev all_ids : Ids
all_ids = record {
  counter = 3;
  texts = (2, codes "20000") ∷ (1, codes "10000") ∷ (0, codes "0") ∷ [];
}

created :
    variadic_foreign_function int_object
      (int_object ∷ [])
      none
      (before native table first_object [] int_object (int_object ∷ []) none)
    ≡ (start, few_ids)
unfolding variadic_foreign_function get_ids get_id own_id id_text to_string_16 to_hex hex_digit
created = refl

first_call :
    variadic_function_generator native table (uchar_object ∷ []) start few_ids
    ≡ ok (made, after, all_ids)
unfolding variadic_function_generator push_args get_id own_id id_text to_string_16 to_hex hex_digit
    join find_function make_function cif_var write_arg_types prepared type_of coerce_type
    ffi_type_of describe own_ffi_type
first_call = refl

second_call :
    variadic_function_generator native table (uchar_object ∷ []) after all_ids
    ≡ ok (made, after, all_ids)
unfolding variadic_function_generator push_args get_id own_id id_text to_string_16 to_hex hex_digit
    join find_function text_eq ffi_type_of describe own_ffi_type
second_call = refl

abbrev MyRun : VariadicForeignFunction → Ids → Type 0
MyRun = Run native table first_object [] int_object (int_object ∷ []) none

once : MyRun after all_ids
unfolding variadic_foreign_function get_ids get_id own_id id_text to_string_16 to_hex hex_digit
once = called {v = start} {ids = few_ids} (uchar_object ∷ []) ((λ e. cc), tt) first_call fresh

function_generator-Run_example :
    identities (made.result ∷ made.args) ≡ identities (int_object ∷ int_object ∷ uchar_object ∷ [])
function_generator-Run_example =
    function_generator-Run native table first_object [] int_object (int_object ∷ []) none (λ e. cc)
      ((λ e. cc), tt) after all_ids once (uchar_object ∷ []) ((λ e. cc), tt) made after all_ids
      second_call (omega arith)
