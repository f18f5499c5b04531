-- ===== src/Examples/Calls.antt =====
-- Call interfaces, and functions with variable arguments, prepared by a native module that accepts
-- the default convention alone.
use js_ffi_cross.Base.{ℕ, List, arith, ◌==◌, ◌≡◌, refl, none, some, [], ◌∷◌, if◌then◌else◌}
use js_ffi_cross.Base.Result.{ok, err, no_fixed_arguments}
use js_ffi_cross.Text.{
  codes, text_eq, is_space, strip_spaces, to_lower_case, lower, strip_stars, count_stars,
}
use js_ffi_cross.CType.{ffi_int32, ffi_pointer}
use js_ffi_cross.CType.Coerce.{named, coerce_type, coerce_stripped, lookup, ref_times}
use js_ffi_cross.FfiType.{builtin, ffi_type_of, describe, own_ffi_type}
use js_ffi_cross.Cif.{Native, Cif, type_of, cif, cif_var}
use js_ffi_cross.Cif.Laws.{IsRequest, ByStatus, cif-IsRequest, cif_var-IsRequest}
use js_ffi_cross.Examples.Types.{machine, table, int, uchar}
use js_ffi_cross.CType.{ffi_uint8}
use js_ffi_cross.FfiType.{write_pointer, nothing}
use js_ffi_cross.Cif.{write_arg_types, prepared}
use js_ffi_cross.Variadic.{
  TypeObject, Ids, Function, VariadicForeignFunction, variadic_function_generator, push_args,
  get_id, own_id, id_text, to_string_16, to_hex, hex_digit, join, find_function, make_function,
}
use js_ffi_cross.Variadic.Keys.{key_of, key_of-injective}
use js_ffi_cross.Variadic.Collision.{first_type_collides}
use js_ffi_cross.Variadic.Reuse.{variadic_function_generator-twice}

abbrev pub native : Native
native = record {
  platform = machine;
  ffi_types = [];
  ffi_ok = 0;
  bad_typedef = 1;
  bad_abi = 2;
  default_abi = 2;
  prep_cif = λ made. if made.abi == 2 then 0 else 2;
}

int-typed : type_of native table (named (codes "int")) ≡ ok (builtin ffi_int32)
unfolding type_of ffi_type_of describe own_ffi_type coerce_type lookup text_eq
int-typed = refl

int_pointer-typed : type_of native table (named (codes "int *")) ≡ ok (builtin ffi_pointer)
unfolding type_of ffi_type_of describe own_ffi_type coerce_type coerce_stripped lookup text_eq
    is_space strip_spaces to_lower_case lower strip_stars count_stars ref_times
int_pointer-typed = refl

cif-IsRequest_example :
    (made : Cif) × IsRequest native table made none
      (named (codes "int"))
      (named (codes "int *") ∷ named (codes "int") ∷ [])
      none
    × ByStatus native table made (
        cif native table
          (some (named (codes "int")))
          (some (named (codes "int *") ∷ named (codes "int") ∷ []))
          none)
cif-IsRequest_example =
    cif-IsRequest native table (named (codes "int"))
      (named (codes "int *") ∷ named (codes "int") ∷ []) none (builtin ffi_int32) int-typed
      ((builtin ffi_pointer, int_pointer-typed), ((builtin ffi_int32, int-typed), tt))

cif_var-IsRequest_example :
    (made : Cif) × IsRequest native table made
      (some 1)
      (named (codes "int"))
      (named (codes "int") ∷ [])
      (some 7)
    × ByStatus native table made (
        cif_var native table
          (some (named (codes "int")))
          (some (named (codes "int") ∷ []))
          1
          (some 7))
    × (cif_var native table
          (some (named (codes "int")))
          (some (named (codes "int") ∷ []))
          0
          (some 7)
        ≡ err no_fixed_arguments)
cif_var-IsRequest_example =
    cif_var-IsRequest native table (named (codes "int")) (named (codes "int") ∷ []) 0 (some 7)
      (builtin ffi_int32) int-typed ((builtin ffi_int32, int-typed), tt)

key_of-injective_example : ◌≡◌ {A = List ℕ} (5 ∷ 16 ∷ []) (5 ∷ 16 ∷ [])
key_of-injective_example =
    key_of-injective (5 ∷ 16 ∷ []) (5 ∷ 16 ∷ [])
      (omega arith, omega arith, (omega arith, omega arith, tt))
      (omega arith, omega arith, (omega arith, omega arith, tt)) refl

first_type_collides_example : key_of (1 ∷ 0 ∷ []) ≡ key_of (16 ∷ [])
first_type_collides_example = first_type_collides 1 (omega arith) (omega arith)

-- A function that takes an `int` and then anything, called with one `uchar`.
abbrev pub int_object : TypeObject
int_object = record { identity = 1; type = int }

abbrev pub uchar_object : TypeObject
uchar_object = record { identity = 2; type = uchar }

abbrev closure : VariadicForeignFunction
closure = record {
  return_type = int_object;
  current_type = int_object;
  fixed = int_object ∷ [];
  fixed_key = codes "0" ∷ [];
  abi = none;
  cache = [];
}

abbrev ids : Ids
ids = record { counter = 1; texts = (1, codes "0") ∷ [] }

abbrev called : Function
called = record {
  cif = record {
    fixed_args = some 1;
    num_args = 2;
    rtn_type = builtin ffi_int32;
    arg_bytes = 16;
    arg_types = write_pointer 0 (builtin ffi_int32) (write_pointer 8 (builtin ffi_uint8) nothing);
    abi = 2;
  };
  result = int_object;
  args = int_object ∷ uchar_object ∷ [];
}

abbrev closure_after : VariadicForeignFunction
closure_after = record closure { cache = (codes "0010000", called) ∷ [] }

abbrev ids_after : Ids
ids_after = record { counter = 2; texts = (2, codes "10000") ∷ (1, codes "0") ∷ [] }

first_call :
    variadic_function_generator native table (uchar_object ∷ []) closure ids
    ≡ ok (called, closure_after, ids_after)
unfolding variadic_function_generator push_args get_id own_id id_text to_string_16 to_hex hex_digit
    join find_function make_function cif_var write_arg_types prepared type_of coerce_type
    ffi_type_of describe own_ffi_type
first_call = refl

variadic_function_generator-twice_example :
    variadic_function_generator native table (uchar_object ∷ []) closure_after ids_after
    ≡ ok (called, closure_after, ids_after)
variadic_function_generator-twice_example =
    variadic_function_generator-twice native table (uchar_object ∷ []) closure closure_after ids
      ids_after called first_call
