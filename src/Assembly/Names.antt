-- ===== src/Assembly/Names.antt =====
-- The names of the types of lib/ref/ref.js that lib/ffi.js finds, and the `ffi_type` properties that it
-- sets.
use js_ffi_cross.Base.{◌≡◌, refl, sym, ap, some, List, [], ◌∷◌}
use js_ffi_cross.Base.Result.{ok, value_or, >>=-returns}
use js_ffi_cross.Text.{Text, codes, text_eq}
use js_ffi_cross.CType.{
  Builtin, ffi_void, ffi_uint8, ffi_int8, ffi_uint16, ffi_int16, ffi_uint32, ffi_int32, ffi_uint64,
  ffi_int64, ffi_float, ffi_double, ffi_pointer,
}
use js_ffi_cross.FfiType.{find_ffi_type}
use js_ffi_cross.Builtins.{NativeMaps, Table, is_one_of, create_ctype, create_all, builtin_names}
use js_ffi_cross.Assembly.{
  FfiHeader, ffi_type_map, Assigned, set_ffi_type, set_named, set_each, set_long, assemble,
  names_of,
}

abbrev pub onto : List Text → List Text → List Text
onto [] before = before
onto (name ∷ names) before = onto names (name ∷ before)

pub names_of-create_all :
    (native : NativeMaps) (names : List Text) (before table : Table)
    → create_all native names before ≡ ok table
    → names_of table ≡ onto names (names_of before)
unfolding create_all
names_of-create_all native [] before table h = sym (ap (λ t. names_of (value_or before t)) h)
names_of-create_all native (name ∷ names) before table h =
    let (t, made, rest) =
      >>=-returns (create_ctype native before name)
        (λ t. create_all native names ((name, t) ∷ before)) table h in
    names_of-create_all native names ((name, t) ∷ before) table rest

-- What is set, where `long` and `unsigned long` have these.
abbrev pub assigned_with : FfiHeader → Builtin → Builtin → Assigned
assigned_with header long ulong =
    (codes "long", some long)
    ∷ (codes "ulong", some ulong)
    ∷ (codes "Object", some ffi_pointer)
    ∷ (codes "CString", some ffi_pointer)
    ∷ (codes "uintptr_t", some ffi_pointer)
    ∷ (codes "intptr_t", some ffi_pointer)
    ∷ (codes "size_t", some ffi_pointer)
    ∷ (codes "ssize_t", some ffi_pointer)
    ∷ (codes "double", some ffi_double)
    ∷ (codes "float", some ffi_float)
    ∷ (codes "int", some header.sint)
    ∷ (codes "uint", some header.uint)
    ∷ (codes "short", some header.sshort)
    ∷ (codes "ushort", some header.ushort)
    ∷ (codes "char", some header.schar)
    ∷ (codes "uchar", some header.uchar)
    ∷ (codes "int64", some ffi_int64)
    ∷ (codes "uint64", some ffi_uint64)
    ∷ (codes "int32", some ffi_int32)
    ∷ (codes "uint32", some ffi_uint32)
    ∷ (codes "int16", some ffi_int16)
    ∷ (codes "uint16", some ffi_uint16)
    ∷ (codes "int8", some ffi_int8)
    ∷ (codes "uint8", some ffi_uint8)
    ∷ (codes "void", some ffi_void)
    ∷ []

abbrev pub all_names : NativeMaps → List Text
all_names native =
    codes "void"
    ∷ codes "CString"
    ∷ codes "charPtr"
    ∷ codes "voidPtr"
    ∷ onto (builtin_names native) []

pub assemble_4 :
    (native : NativeMaps) (header : FfiHeader)
    → assemble (all_names native) (ffi_type_map header) (some 4)
      ≡ ok (assigned_with header ffi_int32 ffi_uint32)
unfolding assemble set_long set_ffi_type set_named set_each find_ffi_type is_one_of text_eq
assemble_4 native header = refl

pub assemble_8 :
    (native : NativeMaps) (header : FfiHeader)
    → assemble (all_names native) (ffi_type_map header) (some 8)
      ≡ ok (assigned_with header ffi_int64 ffi_uint64)
unfolding assemble set_long set_ffi_type set_named set_each find_ffi_type is_one_of text_eq
assemble_8 native header = refl
