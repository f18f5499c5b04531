-- ===== src/Assembly/Described.antt =====
-- What lib/ffi.js sets as the `ffi_type` of a built-in type has the size of the type.
use mathlib.Core.Path.{subst}
use js_ffi_cross.Base.{ℕ, ◌≡◌, sym, ap, ◌∙◌, true, false, Option, some, List, [], ◌∷◌}
use js_ffi_cross.Base.Result.{ok, value_or, >>=-returns}
use js_ffi_cross.Text.{Text, codes, text_eq}
use js_ffi_cross.CType.{
  Builtin, ffi_uint8, ffi_int8, ffi_uint16, ffi_int16, ffi_uint32, ffi_int32, ffi_uint64, ffi_int64,
  ffi_float, ffi_double, ffi_pointer,
}
use js_ffi_cross.Builtins.{
  NativeMaps, BuiltinType, Table, is_one_of, native_name, typedef_names, fixed_name, is_unsigned,
  create_ctype, create_all,
}
use js_ffi_cross.Builtins.Sizes.{HasNativeSize, IsSized, parent_name, create_ctype-IsMade}
use js_ffi_cross.Assembly.{FfiHeader, Assigned, read_ffi_type, described_table}

-- The sizes of the C types, on the platforms of libffi.
pub record IsCSizes (native : NativeMaps) (long_size pointer_size object_size : ℕ) : Type 0 where
  pub int8 : native.sizeof (codes "int8") ≡ some 1
  pub uint8 : native.sizeof (codes "uint8") ≡ some 1
  pub int16 : native.sizeof (codes "int16") ≡ some 2
  pub uint16 : native.sizeof (codes "uint16") ≡ some 2
  pub int32 : native.sizeof (codes "int32") ≡ some 4
  pub uint32 : native.sizeof (codes "uint32") ≡ some 4
  pub int64 : native.sizeof (codes "int64") ≡ some 8
  pub uint64 : native.sizeof (codes "uint64") ≡ some 8
  pub float : native.sizeof (codes "float") ≡ some 4
  pub double : native.sizeof (codes "double") ≡ some 8
  pub bool : native.sizeof (codes "bool") ≡ some 1
  pub byte : native.sizeof (codes "byte") ≡ some 1
  pub char : native.sizeof (codes "char") ≡ some 1
  pub uchar : native.sizeof (codes "uchar") ≡ some 1
  pub short : native.sizeof (codes "short") ≡ some 2
  pub ushort : native.sizeof (codes "ushort") ≡ some 2
  pub int : native.sizeof (codes "int") ≡ some 4
  pub uint : native.sizeof (codes "uint") ≡ some 4
  pub long : native.sizeof (codes "long") ≡ some long_size
  pub ulong : native.sizeof (codes "ulong") ≡ some long_size
  pub longlong : native.sizeof (codes "longlong") ≡ some 8
  pub ulonglong : native.sizeof (codes "ulonglong") ≡ some 8
  pub size_t : native.sizeof (codes "size_t") ≡ some pointer_size
  pub object : native.sizeof (codes "Object") ≡ some object_size

-- The `size` of the `ffi_type`s of libffi.
pub record IsFfiSizes (header : FfiHeader) (size : Builtin → ℕ) (pointer_size : ℕ) : Type 0 where
  pub int8 : size ffi_int8 ≡ 1
  pub uint8 : size ffi_uint8 ≡ 1
  pub int16 : size ffi_int16 ≡ 2
  pub uint16 : size ffi_uint16 ≡ 2
  pub int32 : size ffi_int32 ≡ 4
  pub uint32 : size ffi_uint32 ≡ 4
  pub int64 : size ffi_int64 ≡ 8
  pub uint64 : size ffi_uint64 ≡ 8
  pub float : size ffi_float ≡ 4
  pub double : size ffi_double ≡ 8
  pub schar : size header.schar ≡ 1
  pub uchar : size header.uchar ≡ 1
  pub sshort : size header.sshort ≡ 2
  pub ushort : size header.ushort ≡ 2
  pub sint : size header.sint ≡ 4
  pub uint : size header.uint ≡ 4
  pub pointer : size ffi_pointer ≡ pointer_size

-- Every type but `Object` has an `ffi_type` of its size.
abbrev pub AllDescribed : (Builtin → ℕ) → Table → Type 0
AllDescribed size [] = Unit
AllDescribed size ((name, t) ∷ table) =
    (text_eq name (codes "Object") ≡ false
      → (b : Builtin) × (t.type.ffi_type ≡ some b) × (size b ≡ t.type.size))
    × AllDescribed size table

module _ (native : NativeMaps) (size : Builtin → ℕ) (assigned : Assigned) where
  -- A name of which the table gets a type with an `ffi_type` of its size.
  pub record IsCovered (name : Text) : Type 0 where
    pub native_size : ℕ
    pub sized : native.sizeof (native_name name) ≡ some native_size
    pub width :
        is_one_of name typedef_names ≡ true
        → native.sizeof (native_name (fixed_name (is_unsigned name) native_size)) ≡ some native_size
    pub described :
        text_eq name (codes "Object") ≡ false
        → (b : Builtin) × (read_ffi_type assigned name
              (parent_name name (is_unsigned name) native_size)
            ≡ some b)
          × (size b ≡ native_size)

  pub given-IsCovered :
      (name : Text) (k : ℕ) (b : Builtin)
      → native.sizeof (native_name name) ≡ some k
      → native.sizeof (native_name (fixed_name (is_unsigned name) k)) ≡ some k
      → read_ffi_type assigned name (parent_name name (is_unsigned name) k) ≡ some b
      → size b ≡ k
      → IsCovered name
  given-IsCovered name k b sized wide read same = record {
    native_size = k;
    sized = sized;
    width = λ _. wide;
    described = λ _. (b, read, same);
  }

  abbrev pub AllCovered : List Text → Type 0
  AllCovered [] = Unit
  AllCovered (name ∷ names) = IsCovered name × AllCovered names

  same_size : (a k : ℕ) (n : Option ℕ) → n ≡ some k → n ≡ some a → a ≡ k
  same_size a k n e h = let one : some k ≡ some a = sym e ∙ h in cc

  made_described :
      (before : Table) (name : Text) (t : BuiltinType)
      → IsCovered name
      → IsSized native before
      → create_ctype native before name ≡ ok t
      → HasNativeSize native name t
        × (text_eq name (codes "Object") ≡ false
            → (b : Builtin) × (read_ffi_type assigned name t.parent ≡ some b)
              × (size b ≡ t.type.size))
  made_described before name t c sized h =
      let made =
        create_ctype-IsMade native before name t
          (λ n m has_size typedef wide.
            let equal = same_size n c.native_size _ c.sized has_size in
            same_size m c.native_size _ (c.width typedef) (
              ap (λ k. native.sizeof (native_name (fixed_name (is_unsigned name) k))) (sym equal)
              ∙ wide)
            ∙ sym equal)
          sized h in
      let known = same_size t.type.size c.native_size _ c.sized made.has_size.sized in
      (
        made.has_size,
        λ other.
            let (b, read, same) = c.described other in
            (
              b,
              ap (read_ffi_type assigned name)
                    (made.inherits_from ∙ ap (parent_name name (is_unsigned name)) known)
                  ∙ read,
              same ∙ sym known,
            ),
      )

  pub create_all-AllDescribed :
      (names : List Text) (before table : Table)
      → AllCovered names
      → IsSized native before
      → AllDescribed size (described_table assigned before)
      → create_all native names before ≡ ok table
      → AllDescribed size (described_table assigned table)
  unfolding create_all described_table
  create_all-AllDescribed [] before table covers sized all h =
      subst (λ t. AllDescribed size (described_table assigned (value_or before t))) h all
  create_all-AllDescribed (name ∷ names) before table (c, covers) sized all h =
      let (t, made, rest) =
        >>=-returns (create_ctype native before name)
          (λ t. create_all native names ((name, t) ∷ before)) table h in
      let (has_size, described) = made_described before name t c sized made in
      create_all-AllDescribed names ((name, t) ∷ before) table covers (has_size, sized)
        (described, all) rest
