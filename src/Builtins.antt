-- ===== src/Builtins.antt =====
-- The built-in types of lib/ref/ref.js: `createCType`, and `types` with the names in the order in
-- which they are defined. The maps `sizeof` and `alignof` of the native module are parameters.
pub mod Sizes
use js_ffi_cross.Base.{
  ℕ, ◌+◌, ◌*◌, ◌/◌, ◌%◌, ◌^◌, pos, negsuc, Bool, true, false, ◌||◌, ltb, ◌==◌, if◌then◌else◌,
  Option, none, some, List, [], ◌∷◌, ◌++◌,
}
use js_ffi_cross.Base.Result.{Result, ok, err, throw_if, ◌>>=◌, ◌>>◌, no_alignment, no_proper_type}
use js_ffi_cross.Scalar.{Scalar, boolean, number, bigint}
use js_ffi_cross.Text.{Text, codes, text_eq}
use js_ffi_cross.CType.{
  Atom, Accessor, no_value, integer, boolean_byte, character, float_value, double_value,
  object_value, c_string, atom, ref_of,
}
use js_ffi_cross.CType.Coerce.{Types}

-- `nativeRef.sizeof` and `nativeRef.alignof`.
pub record NativeMaps : Type 0 where
  pub sizeof : Text → Option ℕ
  pub alignof : Text → Option ℕ
  pub sizeof_pointer : ℕ
  pub alignof_pointer : ℕ

-- A type with the attributes that only built-in types have. `parent` names the type that a typedef
-- inherits from.
pub record BuiltinType : Type 0 where
  pub type : Atom
  pub real_name : Text
  pub zero_value : Scalar
  pub negative_one : Scalar
  pub max_size_is_8 : Bool
  pub parent : Option Text

unfoldable pub is_one_of : Text → List Text → Bool
unfolding text_eq
is_one_of name [] = false
is_one_of name (x ∷ xs) = text_eq name x || is_one_of name xs

abbrev pub or_undefined : Option ℕ → Result ℕ
or_undefined none = err no_alignment
or_undefined (some n) = ok n

abbrev pub native_name : Text → Text
native_name name =
    if is_one_of name (codes "ssize_t" ∷ codes "intptr_t" ∷ codes "uintptr_t" ∷ [])
    then codes "size_t"
    else name

abbrev pub starts_with_u : Text → Bool
starts_with_u [] = false
starts_with_u (c ∷ name) = c == b'u'

unfoldable pub is_unsigned : Text → Bool
unfolding is_one_of
is_unsigned name =
    is_one_of name (codes "bool" ∷ codes "byte" ∷ codes "size_t" ∷ []) || starts_with_u name

unfoldable pub is_max_size_8 : Text → ℕ → Bool
unfolding is_one_of
is_max_size_8 name size =
    is_one_of name (
      codes "long"
      ∷ codes "ulong"
      ∷ codes "longlong"
      ∷ codes "ulonglong"
      ∷ codes "size_t"
      ∷ codes "ssize_t"
      ∷ codes "intptr_t"
      ∷ codes "uintptr_t"
      ∷ [])
    || (size == 8)

unfoldable pub zero_of : Bool → Bool → Scalar
zero_of true max_size_is_8 = boolean false
zero_of false max_size_is_8 = if max_size_is_8 then bigint (pos 0) else number (pos 0)

-- `1n << (BigInt(size) * 8n)` for an unsigned type of BigInts.
unfoldable pub negative_one_of : Bool → Bool → Bool → ℕ → Scalar
negative_one_of true max_size_is_8 unsigned size = boolean true
negative_one_of false true unsigned size =
    if unsigned then bigint (pos (2 ^ (size * 8))) else bigint (negsuc 0)
negative_one_of false false unsigned size = number (negsuc 0)

-- The generated functions, or those that `overrideGetSetFunctions` puts in their place. For `Object`
-- it replaces the getter alone: what it assigns is `getFunctions.set`.
unfoldable pub accessor_of : Text → Bool → Bool → ℕ → Accessor
unfolding text_eq
accessor_of name max_size_is_8 unsigned size =
    if text_eq name (codes "bool")
    then boolean_byte max_size_is_8 unsigned size
    else if text_eq name (codes "uchar") || text_eq name (codes "char")
    then character unsigned
    else if text_eq name (codes "float")
    then float_value
    else if text_eq name (codes "double")
    then double_value
    else if text_eq name (codes "Object")
    then object_value max_size_is_8 unsigned size
    else integer max_size_is_8 unsigned size

abbrev pub typedef_names : List Text
typedef_names =
    codes "bool"
    ∷ codes "byte"
    ∷ codes "char"
    ∷ codes "uchar"
    ∷ codes "short"
    ∷ codes "ushort"
    ∷ codes "int"
    ∷ codes "uint"
    ∷ codes "long"
    ∷ codes "ulong"
    ∷ codes "longlong"
    ∷ codes "ulonglong"
    ∷ codes "size_t"
    ∷ codes "ssize_t"
    ∷ codes "intptr_t"
    ∷ codes "uintptr_t"
    ∷ []

-- A number in decimal, below 100.
abbrev pub decimal : ℕ → Text
decimal n = if ltb n 10 then (b'0' + n) ∷ [] else (b'0' + n / 10) ∷ (b'0' + n % 10) ∷ []

unfoldable pub fixed_name : Bool → ℕ → Text
fixed_name unsigned size =
    let name = codes "int" ++ decimal (size * 8) in if unsigned then codes "u" ++ name else name

abbrev pub Table : Type 0
Table = List (Text × BuiltinType)

unfoldable pub find_type : Text → Table → Option BuiltinType
find_type name [] = none
find_type name ((key, type) ∷ table) = if text_eq key name then some type else find_type name table

-- `Object.create` of an absent type throws.
abbrev pub parent_of : Option BuiltinType → Result BuiltinType
parent_of none = err no_proper_type
parent_of (some type) = ok type

module _ (native : NativeMaps) where
  -- A typedef inherits the name, the size and the alignment of the type of its width.
  unfoldable pub base_of : Table → Text → Bool → ℕ → ℕ → Result (Atom × Option Text)
  unfolding is_one_of fixed_name find_type
  base_of table name unsigned size alignment =
      if is_one_of name typedef_names
      then (do
        let inherited = fixed_name unsigned size
        parent ← parent_of (find_type inherited table)
        ok (parent.type, some inherited))
      else ok (
        record {
          name = some name;
          size = size;
          alignment = some alignment;
          indirection = 1;
          ffi_type = none;
          accessor = no_value;
        },
        none,
      )

  unfoldable pub create_ctype : Table → Text → Result BuiltinType
  unfolding is_unsigned is_max_size_8 zero_of negative_one_of accessor_of base_of is_one_of
  create_ctype table name = do
    size ← or_undefined (native.sizeof (native_name name))
    alignment ← or_undefined (native.alignof (native_name name))
    throw_if (alignment == 0) no_alignment
    let unsigned = is_unsigned name
    let max_size_is_8 = is_max_size_8 name size
    let is_bool = text_eq name (codes "bool")
    base ← base_of table name unsigned size alignment
    let type : Atom = record (base.0) { accessor = accessor_of name max_size_is_8 unsigned size }
    ok (record {
      type = type;
      real_name = name;
      zero_value = zero_of is_bool max_size_is_8;
      negative_one = negative_one_of is_bool max_size_is_8 unsigned size;
      max_size_is_8 = max_size_is_8;
      parent = base.1;
    })

  unfoldable pub create_all : List Text → Table → Result Table
  unfolding create_ctype
  create_all [] table = ok table
  create_all (name ∷ names) table = do
    type ← create_ctype table name
    create_all names ((name, type) ∷ table)

  abbrev pub builtin_names : List Text
  builtin_names =
      codes "int8"
      ∷ codes "uint8"
      ∷ codes "int16"
      ∷ codes "uint16"
      ∷ codes "int32"
      ∷ codes "uint32"
      ∷ codes "int64"
      ∷ codes "uint64"
      ∷ codes "float"
      ∷ codes "double"
      ∷ codes "Object"
      ∷ codes "bool"
      ∷ codes "byte"
      ∷ codes "char"
      ∷ codes "uchar"
      ∷ codes "short"
      ∷ codes "ushort"
      ∷ codes "int"
      ∷ codes "uint"
      ∷ codes "long"
      ∷ codes "ulong"
      ∷ codes "longlong"
      ∷ codes "ulonglong"
      ∷ codes "ssize_t"
      ∷ codes "size_t"
      ∷ codes "intptr_t"
      ∷ codes "uintptr_t"
      ∷ []

  -- `types.void` and `types.CString`.
  abbrev pub void_type : Atom
  void_type = record {
    name = some (codes "void");
    size = 0;
    alignment = none;
    indirection = 1;
    ffi_type = none;
    accessor = no_value;
  }

  abbrev pub c_string_type : Atom
  c_string_type = record {
    name = some (codes "CString");
    size = native.sizeof_pointer;
    alignment = some native.alignof_pointer;
    indirection = 1;
    ffi_type = none;
    accessor = c_string;
  }

  -- The types that `createCType` makes, and those written out.
  unfoldable pub as_types : Table → Types
  as_types [] = []
  as_types ((name, builtin) ∷ table) = (name, atom builtin.type) ∷ as_types table

  unfoldable pub all_types : Result Types
  unfolding create_all as_types find_type
  all_types = do
    table ← create_all builtin_names []
    char ← parent_of (find_type (codes "char") table)
    ok (
        (codes "void", atom void_type)
        ∷ (codes "CString", atom c_string_type)
        ∷ (codes "charPtr", ref_of (atom char.type))
        ∷ (codes "voidPtr", ref_of (atom void_type))
        ∷ as_types table)
