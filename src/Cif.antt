-- ===== src/Cif.antt =====
-- `CIF` of lib/cif.js and `CIF_var` of lib/cif_var.js: the call interface that libffi prepares from a
-- return type and argument types. What libffi does is a parameter: the status that its two functions
-- return. The list of interfaces kept for debugging is not modelled.
pub mod Laws
use js_ffi_cross.Base.{
  ℕ, suc, ◌+◌, ◌*◌, Bool, true, false, not, ltb, ◌==◌, if◌then◌else◌, Option, none, some, List, [],
  ◌∷◌, length,
}
use js_ffi_cross.Base.Result.{
  Error, Result, ok, err, throw_if, ◌>>=◌, ◌>>◌, no_return_type, no_argument_array,
  no_fixed_arguments, ffi_bad_typedef, ffi_bad_abi, ffi_prep_cif_error,
}
use js_ffi_cross.CType.{Platform}
use js_ffi_cross.CType.Coerce.{TypeSpec, Types, coerce_type}
use js_ffi_cross.FfiType.{FfiType, FfiTypes, Elements, nothing, write_pointer, ffi_type_of}

-- The `ffi_cif` with what keeps its buffers alive: `rtnTypePtr`, and `argTypesPtr` by its size and
-- the pointers written to it.
pub record Cif : Type 0 where
  pub fixed_args : Option ℕ
  pub num_args : ℕ
  pub rtn_type : FfiType
  pub arg_bytes : ℕ
  pub arg_types : Elements
  pub abi : ℕ

-- The native module: its tables and constants, and the statuses of `ffi_prep_cif` and of
-- `ffi_prep_cif_var`, which are given the interface to prepare.
pub record Native : Type 0 where
  pub platform : Platform
  pub ffi_types : FfiTypes
  pub ffi_ok : ℕ
  pub bad_typedef : ℕ
  pub bad_abi : ℕ
  pub default_abi : ℕ
  pub prep_cif : Cif → ℕ

abbrev pub present {ℓ} : {A : Type ℓ} → Error → Option A → Result A
present e none = err e
present e (some a) = ok a

-- `typeof abi === 'undefined'`
abbrev pub abi_or : Option ℕ → ℕ → ℕ
abi_or none default = default
abi_or (some abi) default = abi

module _ (native : Native) (types : Types) where
  -- `Type`, from what a caller passes.
  unfoldable pub type_of : TypeSpec → Result FfiType
  unfolding coerce_type ffi_type_of
  type_of spec = do type ← coerce_type types spec; ffi_type_of native.ffi_types native.platform type

  -- The loop that writes the `ffi_type *` of each argument.
  unfoldable pub write_arg_types : List TypeSpec → ℕ → Result Elements
  unfolding type_of
  write_arg_types [] index = ok nothing
  write_arg_types (spec ∷ specs) index = do
    ffi_type ← type_of spec
    rest ← write_arg_types specs (index + 1)
    ok (write_pointer (index * native.platform.sizeof_pointer) ffi_type rest)

  -- What a status that is not FFI_OK throws; the two functions differ in the messages alone.
  unfoldable pub prepared : ℕ → Cif → Result Cif
  prepared status made =
      if status == native.ffi_ok
      then ok made
      else if status == native.bad_typedef
      then err ffi_bad_typedef
      else if status == native.bad_abi
      then err ffi_bad_abi
      else err (ffi_prep_cif_error status)

  -- The return type is absent if it is falsy, the argument types if they are no array.
  unfoldable pub cif : Option TypeSpec → Option (List TypeSpec) → Option ℕ → Result Cif
  unfolding type_of write_arg_types prepared
  cif rtype arg_types abi = do
    returned ← present no_return_type rtype
    args ← present no_argument_array arg_types
    rtn_type ← type_of returned
    written ← write_arg_types args 0
    let made : Cif = record {
      fixed_args = none;
      num_args = length args;
      rtn_type = rtn_type;
      arg_bytes = length args * native.platform.sizeof_pointer;
      arg_types = written;
      abi = abi_or abi native.default_abi;
    }
    prepared (native.prep_cif made) made

  unfoldable pub cif_var : Option TypeSpec → Option (List TypeSpec) → ℕ → Option ℕ → Result Cif
  unfolding type_of write_arg_types prepared
  cif_var rtype arg_types fixed_args abi = do
    returned ← present no_return_type rtype
    args ← present no_argument_array arg_types
    throw_if (ltb fixed_args 1) no_fixed_arguments
    rtn_type ← type_of returned
    written ← write_arg_types args 0
    let made : Cif = record {
      fixed_args = some fixed_args;
      num_args = length args;
      rtn_type = rtn_type;
      arg_bytes = length args * native.platform.sizeof_pointer;
      arg_types = written;
      abi = abi_or abi native.default_abi;
    }
    prepared (native.prep_cif made) made
