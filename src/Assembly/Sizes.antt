-- ===== src/Assembly/Sizes.antt =====
-- The `ffi_type` of every type that lib/ref/ref.js makes, on a platform whose C types and libffi agree.
use mathlib.Core.Path.{subst}
use js_ffi_cross.Base.{ℕ, ◌≡◌, ◌⊎◌, inl, inr, refl, sym, ap, ◌∙◌, Bool, true, false, some, [], ◌∷◌}
use js_ffi_cross.Base.Result.{ok}
use js_ffi_cross.Text.{codes, text_eq}
use js_ffi_cross.CType.{
  Builtin, ffi_uint8, ffi_int8, ffi_uint16, ffi_int16, ffi_uint32, ffi_int32, ffi_uint64, ffi_int64,
  ffi_float, ffi_double, ffi_pointer,
}
use js_ffi_cross.Builtins.{
  NativeMaps, Table, is_one_of, native_name, fixed_name, is_unsigned, create_all, builtin_names,
}
use js_ffi_cross.Assembly.{
  FfiHeader, ffi_type_map, Assigned, find_assigned, read_ffi_type, assemble, described_table,
  type_names,
}
use js_ffi_cross.Assembly.Names.{
  all_names, assigned_with, names_of-create_all, assemble_4, assemble_8,
}
use js_ffi_cross.Assembly.Described.{
  IsCSizes, IsFfiSizes, AllDescribed, IsCovered, given-IsCovered, AllCovered,
  create_all-AllDescribed,
}

infixr 4 ◌&◌
◌&◌ {ℓ κ} : {A : Type ℓ} {B : Type κ} → A → B → A × B
a & b = (a, b)

module _ (native : NativeMaps) (header : FfiHeader) (size : Builtin → ℕ)
    (long_size pointer_size object_size : ℕ) where
  abbrev HasWidth : Bool → ℕ → Type 0
  HasWidth unsigned n = native.sizeof (native_name (fixed_name unsigned n)) ≡ some n

  -- The type of the width of a word.
  word_width :
      IsCSizes native long_size pointer_size object_size
      → (k : ℕ) (words : (k ≡ 4) ⊎ (k ≡ 8)) (unsigned : Bool)
      → native.sizeof (native_name (fixed_name unsigned k)) ≡ some k
  unfolding is_one_of text_eq fixed_name
  word_width c k words unsigned = elim words [
    | inl e ↦ subst (HasWidth unsigned) (sym e) (four unsigned)
    | inr e ↦ subst (HasWidth unsigned) (sym e) (eight unsigned)
  ]
    where
      four : (u : Bool) → native.sizeof (native_name (fixed_name u 4)) ≡ some 4
      four true = c.uint32
      four false = c.int32

      eight : (u : Bool) → native.sizeof (native_name (fixed_name u 8)) ≡ some 8
      eight true = c.uint64
      eight false = c.int64

  module _ (c : IsCSizes native long_size pointer_size object_size)
      (f : IsFfiSizes header size pointer_size) (longs : (long_size ≡ 4) ⊎ (long_size ≡ 8))
      (pointers : (pointer_size ≡ 4) ⊎ (pointer_size ≡ 8)) where
    module _ (long ulong : Builtin) (long_sized : size long ≡ long_size)
        (ulong_sized : size ulong ≡ long_size) where
      abbrev assigned : Assigned
      assigned = assigned_with header long ulong

      object-IsCovered : IsCovered native size assigned (codes "Object")
      unfolding is_one_of text_eq
      object-IsCovered = record {
        native_size = object_size;
        sized = c.object;
        width = λ typedef. cc;
        described = λ other. cc;
      }

      builtin_names-AllCovered : AllCovered native size assigned (builtin_names native)
      unfolding is_one_of text_eq fixed_name is_unsigned read_ffi_type find_assigned
      builtin_names-AllCovered =
          given-IsCovered native size assigned (codes "int8") 1 ffi_int8 c.int8 c.int8 refl f.int8
          & given-IsCovered native size assigned (codes "uint8") 1 ffi_uint8 c.uint8 c.uint8 refl
              f.uint8
          & given-IsCovered native size assigned (codes "int16") 2 ffi_int16 c.int16 c.int16 refl
              f.int16
          & given-IsCovered native size assigned (codes "uint16") 2 ffi_uint16 c.uint16 c.uint16
              refl f.uint16
          & given-IsCovered native size assigned (codes "int32") 4 ffi_int32 c.int32 c.int32 refl
              f.int32
          & given-IsCovered native size assigned (codes "uint32") 4 ffi_uint32 c.uint32 c.uint32
              refl f.uint32
          & given-IsCovered native size assigned (codes "int64") 8 ffi_int64 c.int64 c.int64 refl
              f.int64
          & given-IsCovered native size assigned (codes "uint64") 8 ffi_uint64 c.uint64 c.uint64
              refl f.uint64
          & given-IsCovered native size assigned (codes "float") 4 ffi_float c.float c.int32 refl
              f.float
          & given-IsCovered native size assigned (codes "double") 8 ffi_double c.double c.int64 refl
              f.double
          & object-IsCovered
          & given-IsCovered native size assigned (codes "bool") 1 ffi_uint8 c.bool c.uint8 refl
              f.uint8
          & given-IsCovered native size assigned (codes "byte") 1 ffi_uint8 c.byte c.uint8 refl
              f.uint8
          & given-IsCovered native size assigned (codes "char") 1 header.schar c.char c.int8 refl
              f.schar
          & given-IsCovered native size assigned (codes "uchar") 1 header.uchar c.uchar c.uint8 refl
              f.uchar
          & given-IsCovered native size assigned (codes "short") 2 header.sshort c.short c.int16
              refl f.sshort
          & given-IsCovered native size assigned (codes "ushort") 2 header.ushort c.ushort c.uint16
              refl f.ushort
          & given-IsCovered native size assigned (codes "int") 4 header.sint c.int c.int32 refl
              f.sint
          & given-IsCovered native size assigned (codes "uint") 4 header.uint c.uint c.uint32 refl
              f.uint
          & given-IsCovered native size assigned (codes "long") long_size long c.long
              (word_width c long_size longs false) refl long_sized
          & given-IsCovered native size assigned (codes "ulong") long_size ulong c.ulong
              (word_width c long_size longs true) refl ulong_sized
          & given-IsCovered native size assigned (codes "longlong") 8 ffi_int64 c.longlong c.int64
              refl f.int64
          & given-IsCovered native size assigned (codes "ulonglong") 8 ffi_uint64 c.ulonglong
              c.uint64 refl f.uint64
          & given-IsCovered native size assigned (codes "ssize_t") pointer_size ffi_pointer c.size_t
              (word_width c pointer_size pointers false) refl f.pointer
          & given-IsCovered native size assigned (codes "size_t") pointer_size ffi_pointer c.size_t
              (word_width c pointer_size pointers true) refl f.pointer
          & given-IsCovered native size assigned (codes "intptr_t") pointer_size ffi_pointer
              c.size_t (word_width c pointer_size pointers false) refl f.pointer
          & given-IsCovered native size assigned (codes "uintptr_t") pointer_size ffi_pointer
              c.size_t (word_width c pointer_size pointers true) refl f.pointer
          & tt

      table-AllDescribed :
          (table : Table)
          → create_all native (builtin_names native) [] ≡ ok table
          → AllDescribed size (described_table assigned table)
      unfolding described_table
      table-AllDescribed table h =
          create_all-AllDescribed native size assigned (builtin_names native) [] table
            builtin_names-AllCovered tt tt h

    -- The type names in a table that `createCType` filled.
    known_names :
        (table : Table)
        → create_all native (builtin_names native) [] ≡ ok table
        → all_names native ≡ type_names table
    known_names table h =
        ap (λ names. codes "void" ∷ codes "CString" ∷ codes "charPtr" ∷ codes "voidPtr" ∷ names)
          (sym (names_of-create_all native (builtin_names native) [] table h))

    -- On a platform whose C types have their usual sizes, `long` and pointers having four or eight
    -- bytes, and whose libffi describes each by an `ffi_type` of the same size: lib/ffi.js runs without
    -- an exception, and then every built-in type of lib/ref/ref.js that `createCType` made has, set on
    -- itself or inherited from the type that it stands for, an `ffi_type` of its own size; only
    -- `Object` may have one of another size.
    pub assemble-AllDescribed :
        (table : Table)
        → create_all native (builtin_names native) [] ≡ ok table
        → (assigned : Assigned) × (assemble
              (type_names table)
              (ffi_type_map header)
              (native.sizeof (codes "long"))
            ≡ ok assigned)
          × AllDescribed size (described_table assigned table)
    assemble-AllDescribed table h = elim longs [
      | inl e ↦ (
        assigned_with header ffi_int32 ffi_uint32,
        ap (λ names. assemble names (ffi_type_map header) (native.sizeof (codes "long")))
              (sym (known_names table h))
            ∙ ap (assemble (all_names native) (ffi_type_map header)) (c.long ∙ ap some e)
            ∙ assemble_4 native header,
        table-AllDescribed ffi_int32 ffi_uint32 (f.int32 ∙ sym e) (f.uint32 ∙ sym e) table h,
      )
      | inr e ↦ (
        assigned_with header ffi_int64 ffi_uint64,
        ap (λ names. assemble names (ffi_type_map header) (native.sizeof (codes "long")))
              (sym (known_names table h))
            ∙ ap (assemble (all_names native) (ffi_type_map header)) (c.long ∙ ap some e)
            ∙ assemble_8 native header,
        table-AllDescribed ffi_int64 ffi_uint64 (f.int64 ∙ sym e) (f.uint64 ∙ sym e) table h,
      )
    ]
