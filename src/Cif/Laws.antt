-- ===== src/Cif/Laws.antt =====
-- What a returned call interface holds, and which error each failure ends in.
use js_ffi_cross.Base.{
  ℕ, suc, ◌+◌, ◌*◌, ◌≤◌, ◌≡◌, refl, ◌==◌, if◌then◌else◌, Option, none, some, List, [], ◌∷◌, length,
  arith,
}
use js_ffi_cross.Base.Result.{
  Result, ok, err, no_fixed_arguments, ffi_bad_typedef, ffi_bad_abi, ffi_prep_cif_error,
}
use js_ffi_cross.CType.Coerce.{TypeSpec, Types}
use js_ffi_cross.FfiType.{FfiType, Elements, nothing, write_pointer}
use js_ffi_cross.Cif.{Cif, Native, abi_or, type_of, write_arg_types, prepared, cif, cif_var}

module _ (native : Native) (types : Types) where
  -- The description of each argument's type, in its slot from an index on, all inside a buffer.
  abbrev pub ArgTypes : List TypeSpec → ℕ → ℕ → Elements → Type 0
  ArgTypes [] index size nothing = Unit
  ArgTypes (spec ∷ specs) index size (write_pointer offset ffi_type rest) =
      (offset ≡ index * native.platform.sizeof_pointer)
      × (offset + native.platform.sizeof_pointer ≤ size)
      × (type_of native types spec ≡ ok ffi_type)
      × ArgTypes specs (index + 1) size rest
  ArgTypes _ _ _ _ = ⊥

  -- Every argument type has a description.
  abbrev pub AllTyped : List TypeSpec → Type 0
  AllTyped [] = Unit
  AllTyped (spec ∷ specs) =
      ((ffi_type : FfiType) × (type_of native types spec ≡ ok ffi_type)) × AllTyped specs

  slot_below : (i n size : ℕ) → i * size + size ≤ (i + suc n) * size
  slot_below i n size = grind arith

  write_arg_types_lem :
      (specs : List TypeSpec) (index : ℕ)
      → AllTyped specs
      → (written : Elements) × (write_arg_types native types specs index ≡ ok written)
        × ArgTypes specs index ((index + length specs) * native.platform.sizeof_pointer) written
  unfolding write_arg_types
  write_arg_types_lem [] index h = (nothing, refl, tt)
  write_arg_types_lem (spec ∷ specs) index ((ffi_type, typed), others) =
      let (written, returns, args) = write_arg_types_lem specs (index + 1) others in
      (
        write_pointer (index * native.platform.sizeof_pointer) ffi_type written,
        rw (typed, returns) refl,
        (
          refl,
          slot_below index (length specs) native.platform.sizeof_pointer,
          typed,
          ground (arith, args),
        ),
      )

  -- The interface that is handed to libffi.
  pub record IsRequest (made : Cif) (fixed_args : Option ℕ) (rtype : TypeSpec)
      (args : List TypeSpec) (abi : Option ℕ) : Type 0 where
    pub fixed : made.fixed_args ≡ fixed_args
    pub counted : made.num_args ≡ length args
    pub result : type_of native types rtype ≡ ok made.rtn_type
    pub arguments : ArgTypes args 0 made.arg_bytes made.arg_types
    pub convention : made.abi ≡ abi_or abi native.default_abi

  -- The outcome by the status that libffi returns.
  abbrev pub ByStatus : Cif → Result Cif → Type 0
  ByStatus made result = result ≡ (
      if native.prep_cif made == native.ffi_ok
      then ok made
      else if native.prep_cif made == native.bad_typedef
      then err ffi_bad_typedef
      else if native.prep_cif made == native.bad_abi
      then err ffi_bad_abi
      else err (ffi_prep_cif_error (native.prep_cif made)))

  -- `CIF` hands libffi an interface with the description of the return type and of every argument
  -- type, each in its slot of a buffer that has room for all, and returns it if the status is FFI_OK
  -- and throws the status's error if not. Every type has a description.
  pub cif-IsRequest :
      (rtype : TypeSpec) (args : List TypeSpec) (abi : Option ℕ) (rtn_type : FfiType)
      → type_of native types rtype ≡ ok rtn_type
      → AllTyped args
      → (made : Cif) × IsRequest made none rtype args abi
        × ByStatus made (cif native types (some rtype) (some args) abi)
  unfolding cif prepared
  cif-IsRequest rtype args abi rtn_type typed all =
      let (written, returns, described) = write_arg_types_lem args 0 all in
      (
        record {
          fixed_args = none;
          num_args = length args;
          rtn_type = rtn_type;
          arg_bytes = length args * native.platform.sizeof_pointer;
          arg_types = written;
          abi = abi_or abi native.default_abi;
        },
        record {
          fixed = refl;
          counted = refl;
          result = typed;
          arguments = ground (arith, described);
          convention = refl;
        },
        rw (typed, returns) refl,
      )

  -- `CIF_var` with a fixed argument hands libffi an interface with the number of fixed arguments and
  -- the description of the return type and of every argument type, each in its slot of a buffer that
  -- has room for all, and returns it if the status is FFI_OK and throws the status's error if not;
  -- without a fixed argument it throws. Every type has a description.
  pub cif_var-IsRequest :
      (rtype : TypeSpec) (args : List TypeSpec) (fixed_args : ℕ) (abi : Option ℕ)
      (rtn_type : FfiType)
      → type_of native types rtype ≡ ok rtn_type
      → AllTyped args
      → (made : Cif) × IsRequest made (some (suc fixed_args)) rtype args abi
        × ByStatus made (cif_var native types (some rtype) (some args) (suc fixed_args) abi)
        × (cif_var native types (some rtype) (some args) 0 abi ≡ err no_fixed_arguments)
  unfolding cif_var prepared
  cif_var-IsRequest rtype args fixed_args abi rtn_type typed all =
      let (written, returns, described) = write_arg_types_lem args 0 all in
      (
        record {
          fixed_args = some (suc fixed_args);
          num_args = length args;
          rtn_type = rtn_type;
          arg_bytes = length args * native.platform.sizeof_pointer;
          arg_types = written;
          abi = abi_or abi native.default_abi;
        },
        record {
          fixed = refl;
          counted = refl;
          result = typed;
          arguments = ground (arith, described);
          convention = refl;
        },
        rw (typed, returns) (ground arith),
        refl,
      )
