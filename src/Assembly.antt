-- ===== src/Assembly.antt =====
-- lib/ffi.js: the `ffi_type` that each built-in type of lib/ref/ref.js gets when the exports are put
-- together, and the `FFI_TYPES` of src/ffi.cc. What ffi.h has behind `ffi_type_uchar` and the other
-- names of C types is a parameter.
pub mod Names
pub mod Described
pub mod Sizes
use js_ffi_cross.Base.{ℕ, not, ◌==◌, if◌then◌else◌, Option, none, some, List, [], ◌∷◌}
use js_ffi_cross.Base.Result.{
  Result, ok, err, throw_if, ◌>>=◌, ◌>>◌, undefined_type, unsupported_long_size,
}
use js_ffi_cross.Text.{Text, codes, text_eq}
use js_ffi_cross.CType.{
  Builtin, Atom, atom, ref_of, ffi_void, ffi_uint8, ffi_int8, ffi_uint16, ffi_int16, ffi_uint32,
  ffi_int32, ffi_uint64, ffi_int64, ffi_float, ffi_double, ffi_pointer,
}
use js_ffi_cross.CType.Coerce.{Types}
use js_ffi_cross.FfiType.{FfiTypes, find_ffi_type}
use js_ffi_cross.Builtins.{
  NativeMaps, Table, is_one_of, find_type, parent_of, create_all, builtin_names, void_type,
  c_string_type, as_types,
}

-- The macros of ffi.h.
pub record FfiHeader : Type 0 where
  pub uchar : Builtin
  pub schar : Builtin
  pub ushort : Builtin
  pub sshort : Builtin
  pub uint : Builtin
  pub sint : Builtin

abbrev pub ffi_type_map : FfiHeader → FfiTypes
ffi_type_map header =
    (codes "void", ffi_void)
    ∷ (codes "uint8", ffi_uint8)
    ∷ (codes "int8", ffi_int8)
    ∷ (codes "uint16", ffi_uint16)
    ∷ (codes "int16", ffi_int16)
    ∷ (codes "uint32", ffi_uint32)
    ∷ (codes "int32", ffi_int32)
    ∷ (codes "uint64", ffi_uint64)
    ∷ (codes "int64", ffi_int64)
    ∷ (codes "uchar", header.uchar)
    ∷ (codes "char", header.schar)
    ∷ (codes "ushort", header.ushort)
    ∷ (codes "short", header.sshort)
    ∷ (codes "uint", header.uint)
    ∷ (codes "int", header.sint)
    ∷ (codes "float", ffi_float)
    ∷ (codes "double", ffi_double)
    ∷ (codes "pointer", ffi_pointer)
    ∷ []

-- The `ffi_type` properties that were set, by the name of the type, the last one first.
abbrev pub Assigned : Type 0
Assigned = List (Text × Option Builtin)

unfoldable pub find_assigned : Text → Assigned → Option (Option Builtin)
find_assigned name [] = none
find_assigned name ((key, ffi_type) ∷ assigned) =
    if text_eq key name then some ffi_type else find_assigned name assigned

-- What a prototype has: a built-in type inherits from one that has no prototype of its own.
abbrev pub of_prototype : Assigned → Option Text → Option Builtin
of_prototype assigned none = none
of_prototype assigned (some parent) = own_or_none (find_assigned parent assigned)
  where
    own_or_none : Option (Option Builtin) → Option Builtin
    own_or_none none = none
    own_or_none (some ffi_type) = ffi_type

abbrev pub own_or_inherited : Option (Option Builtin) → Option Builtin → Option Builtin
own_or_inherited none inherited = inherited
own_or_inherited (some ffi_type) inherited = ffi_type

-- `ref.types[name].ffi_type`
unfoldable pub read_ffi_type : Assigned → Text → Option Text → Option Builtin
unfolding find_assigned
read_ffi_type assigned name parent =
    own_or_inherited (find_assigned name assigned) (of_prototype assigned parent)

module _ (types : List Text) where
  -- `ref.types[name].ffi_type = type`
  unfoldable pub set_ffi_type : Text → Option Builtin → Assigned → Result Assigned
  unfolding is_one_of
  set_ffi_type name ffi_type assigned =
      throw_if (not (is_one_of name types)) undefined_type >> ok ((name, ffi_type) ∷ assigned)

  -- The loop over the names of `bindings.FFI_TYPES`.
  unfoldable pub set_named : FfiTypes → Assigned → Result Assigned
  unfolding set_ffi_type
  set_named [] assigned = ok assigned
  set_named ((name, ffi_type) ∷ ffi_types) assigned = do
    one ←
        if text_eq name (codes "pointer")
        then ok assigned
        else set_ffi_type name (some ffi_type) assigned
    set_named ffi_types one

  -- The same `ffi_type` for one type after the other.
  unfoldable pub set_each : List Text → Option Builtin → Assigned → Result Assigned
  unfolding set_ffi_type
  set_each [] ffi_type assigned = ok assigned
  set_each (name ∷ names) ffi_type assigned = do
    one ← set_ffi_type name ffi_type assigned
    set_each names ffi_type one

  module _ (ffi_types : FfiTypes) where
    abbrev pub set_both_longs : Text → Text → Assigned → Result Assigned
    set_both_longs unsigned signed assigned = do
      one ← set_ffi_type (codes "ulong") (find_ffi_type unsigned ffi_types) assigned
      set_ffi_type (codes "long") (find_ffi_type signed ffi_types) one

    -- `switch (ref.sizeof.long)`
    unfoldable pub set_long : Option ℕ → Assigned → Result Assigned
    unfolding set_ffi_type find_ffi_type
    set_long none assigned = err (unsupported_long_size none)
    set_long (some size) assigned =
        if size == 4
        then set_both_longs (codes "uint32") (codes "int32") assigned
        else if size == 8
        then set_both_longs (codes "uint64") (codes "int64") assigned
        else err (unsupported_long_size (some size))

    unfoldable pub assemble : Option ℕ → Result Assigned
    unfolding set_named set_each set_long
    assemble long_size = do
      named ← set_named ffi_types []
      pointers ←
          set_each
            (codes "ssize_t"
              ∷ codes "size_t"
              ∷ codes "intptr_t"
              ∷ codes "uintptr_t"
              ∷ codes "CString"
              ∷ codes "Object"
              ∷ [])
            (find_ffi_type (codes "pointer") ffi_types) named
      set_long long_size pointers

unfoldable pub described_table : Assigned → Table → Table
unfolding read_ffi_type
described_table assigned [] = []
described_table assigned ((name, t) ∷ table) =
    (name, record t { type = record (t.type) { ffi_type = read_ffi_type assigned name t.parent } })
    ∷ described_table assigned table

abbrev pub names_of : Table → List Text
names_of [] = []
names_of ((name, t) ∷ table) = name ∷ names_of table

-- The names of `ref.types`.
abbrev pub type_names : Table → List Text
type_names table =
    codes "void" ∷ codes "CString" ∷ codes "charPtr" ∷ codes "voidPtr" ∷ names_of table

abbrev pub describe_atom : Assigned → Text → Atom → Atom
describe_atom assigned name type = record type { ffi_type = read_ffi_type assigned name none }

module _ (native : NativeMaps) (ffi_types : FfiTypes) where
  -- `exports.types`
  unfoldable pub exported_types : Result Types
  unfolding create_all as_types find_type assemble described_table
  exported_types = do
    table ← create_all native (builtin_names native) []
    assigned ← assemble (type_names table) ffi_types (native.sizeof (codes "long"))
    let described = described_table assigned table
    char ← parent_of (find_type (codes "char") described)
    let void_described = describe_atom assigned (codes "void") (void_type native)
    ok (
        (codes "void", atom void_described)
        ∷ (codes "CString", atom (describe_atom assigned (codes "CString") (c_string_type native)))
        ∷ (codes "charPtr", ref_of (atom char.type))
        ∷ (codes "voidPtr", ref_of (atom void_described))
        ∷ as_types native described)
