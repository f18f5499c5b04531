-- ===== src/Base/Result.antt =====
-- Exceptions as values: one constructor of `Error` for each `throw` or `assert` of lib/ that the
-- model reaches, with the values that its message shows.
use Prim.Native.Nat.{ℕ}
use mathlib.Core.Path.{◌≡◌, refl}
use mathlib.Core.Bool.{Bool, true, false}
use mathlib.Core.List.{List}
use mathlib.Core.Option.{Option}
use js_ffi_cross.Base.Int.{ℤ}

pub data Error : Type 0 where
  -- lib/ref/buffer.js
  offset_is_not_uint beyond_buffer_length value_out_of_bounds index_out_of_range : Error
  err_invalid_arg_type err_buffer_out_of_bounds err_value_out_of_range : Error
  err_offset_out_of_range : ℤ → Error
  -- thrown by the language
  bigint_to_number number_to_bigint bad_bigint_index data_view_bounds not_a_function : Error
  -- lib/ref/ref.js
  no_proper_type deref_of_indirection_one no_alignment no_indirection unknown_buffer_type : Error
  not_a_string unsupported_zeros : Error
  -- src/ref-napi.cc
  buffer_expected null_pointer no_terminator null_written : Error
  -- lib/ref/array.js
  no_array_argument array_too_short no_array_value : Error
  -- lib/ref/struct.js, lib/ref/union.js
  instance_already_created size_not_positive field_already_exists offset_should_align
        instance_buffer_too_short :
      Error
  -- lib/type.js, lib/cif.js, lib/cif_var.js, lib/foreign_function_var.js
  invalid_type no_ffi_type no_return_type no_argument_array no_ffi_type_name no_fixed_arguments
        ffi_bad_typedef ffi_bad_abi :
      Error
  ffi_prep_cif_error : ℕ → Error
  -- lib/_foreign_function.js, lib/foreign_function.js, lib/callback.js, lib/function.js
  argument_count no_callback no_result_size no_callback_function no_function_buffer : Error
  error_setting_return_value : Error → Error
  error_setting_argument : ℕ → Error → Error
  -- src/ffi.cc
  null_function empty_function : Error
  -- lib/ffi.js
  undefined_type : Error
  unsupported_long_size : Option ℕ → Error
  -- lib/library.js, lib/dynamic_library.js, with the message of `dlerror`
  no_library_handle no_symbol_buffer too_much_recursion no_match_method : Error
  dynamic_linking_error : List ℕ → Error
  dynamic_symbol_error : Option (List ℕ) → Error
  null_function_pointer : List ℕ → Error

-- What a call ends in: an exception, or a return with a value.
pub data Result {ℓ} (A : Type ℓ) : Type ℓ where
  err : Error → Result A
  ok : A → Result A

-- Statements in sequence: an exception skips the rest.
infixl 5 ◌>>◌ ◌>>=◌
abbrev pub ◌>>◌ {κ} : {B : Type κ} → Result (Unit {0}) → Result B → Result B
err thrown >> rest = err thrown
ok done >> rest = rest

abbrev pub ◌>>=◌ {κ ℓ} : {B : Type κ} {A : Type ℓ} → Result A → (A → Result B) → Result B
err thrown >>= next = err thrown
ok value >>= next = next value

-- `if (c) throw e`
abbrev pub throw_if : Bool → Error → Result (Unit {0})
throw_if true e = err e
throw_if false e = ok tt

-- `if (!c) check`
abbrev pub unless : Bool → Result (Unit {0}) → Result (Unit {0})
unless true check = ok tt
unless false check = check

-- A sequence returns only if its first part does, and then the rest does.
pub >>=-returns {κ ℓ} :
    {B : Type κ} {A : Type ℓ} (first : Result A) (next : A → Result B) (b : B)
    → (first >>= next) ≡ ok b
    → (a : A) × (first ≡ ok a) × (next a ≡ ok b)
>>=-returns (err thrown) next b h = cc
>>=-returns (ok value) next b h = (value, refl, h)

pub >>-returns {κ} :
    {B : Type κ} (first : Result (Unit {0})) (next : Result B) (b : B)
    → (first >> next) ≡ ok b
    → (first ≡ ok tt) × (next ≡ ok b)
>>-returns (err thrown) next b h = cc
>>-returns (ok done) next b h = (refl, h)

-- The value that a call returned.
abbrev pub value_or {ℓ} : {A : Type ℓ} → A → Result A → A
value_or default (err thrown) = default
value_or default (ok value) = value
