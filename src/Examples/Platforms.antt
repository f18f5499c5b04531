-- ===== src/Examples/Platforms.antt =====
-- The built-in types on a platform with 64-bit pointers and `long`.
use js_ffi_cross.Base.{ℕ, ◌≡◌, refl, inr, Option, none, some, List, [], ◌∷◌, if◌then◌else◌}
use js_ffi_cross.Base.Result.{ok, value_or}
use js_ffi_cross.Text.{Text, codes, text_eq}
use js_ffi_cross.CType.{
  Builtin, ffi_void, ffi_uint8, ffi_int8, ffi_uint16, ffi_int16, ffi_uint32, ffi_int32, ffi_uint64,
  ffi_int64, ffi_float, ffi_double, ffi_pointer,
}
use js_ffi_cross.Builtins.{NativeMaps, Table, create_all, builtin_names}
use js_ffi_cross.Assembly.{FfiHeader, ffi_type_map, Assigned, assemble, described_table, type_names}
use js_ffi_cross.Assembly.Described.{IsCSizes, IsFfiSizes, AllDescribed}
use js_ffi_cross.Assembly.Sizes.{assemble-AllDescribed}

abbrev named_size : List (Text × ℕ) → Text → Option ℕ
named_size [] name = none
named_size ((key, n) ∷ sizes) name = if text_eq key name then some n else named_size sizes name

abbrev sizes : List (Text × ℕ)
sizes =
    (codes "int8", 1)
    ∷ (codes "uint8", 1)
    ∷ (codes "int16", 2)
    ∷ (codes "uint16", 2)
    ∷ (codes "int32", 4)
    ∷ (codes "uint32", 4)
    ∷ (codes "int64", 8)
    ∷ (codes "uint64", 8)
    ∷ (codes "float", 4)
    ∷ (codes "double", 8)
    ∷ (codes "bool", 1)
    ∷ (codes "byte", 1)
    ∷ (codes "char", 1)
    ∷ (codes "uchar", 1)
    ∷ (codes "short", 2)
    ∷ (codes "ushort", 2)
    ∷ (codes "int", 4)
    ∷ (codes "uint", 4)
    ∷ (codes "long", 8)
    ∷ (codes "ulong", 8)
    ∷ (codes "longlong", 8)
    ∷ (codes "ulonglong", 8)
    ∷ (codes "size_t", 8)
    ∷ (codes "Object", 24)
    ∷ []

abbrev linux : NativeMaps
linux = record {
  sizeof = named_size sizes;
  alignof = named_size sizes;
  sizeof_pointer = 8;
  alignof_pointer = 8;
}

abbrev header : FfiHeader
header = record {
  uchar = ffi_uint8;
  schar = ffi_int8;
  ushort = ffi_uint16;
  sshort = ffi_int16;
  uint = ffi_uint32;
  sint = ffi_int32;
}

abbrev ffi_size : Builtin → ℕ
ffi_size ffi_void = 1
ffi_size ffi_uint8 = 1
ffi_size ffi_int8 = 1
ffi_size ffi_uint16 = 2
ffi_size ffi_int16 = 2
ffi_size ffi_uint32 = 4
ffi_size ffi_int32 = 4
ffi_size ffi_uint64 = 8
ffi_size ffi_int64 = 8
ffi_size ffi_float = 4
ffi_size ffi_double = 8
ffi_size ffi_pointer = 8

linux-IsCSizes : IsCSizes linux 8 8 24
unfolding text_eq
linux-IsCSizes = record {
  int8 = refl;
  uint8 = refl;
  int16 = refl;
  uint16 = refl;
  int32 = refl;
  uint32 = refl;
  int64 = refl;
  uint64 = refl;
  float = refl;
  double = refl;
  bool = refl;
  byte = refl;
  char = refl;
  uchar = refl;
  short = refl;
  ushort = refl;
  int = refl;
  uint = refl;
  long = refl;
  ulong = refl;
  longlong = refl;
  ulonglong = refl;
  size_t = refl;
  object = refl;
}

header-IsFfiSizes : IsFfiSizes header ffi_size 8
header-IsFfiSizes = record {
  int8 = refl;
  uint8 = refl;
  int16 = refl;
  uint16 = refl;
  int32 = refl;
  uint32 = refl;
  int64 = refl;
  uint64 = refl;
  float = refl;
  double = refl;
  schar = refl;
  uchar = refl;
  sshort = refl;
  ushort = refl;
  sint = refl;
  uint = refl;
  pointer = refl;
}

abbrev linux_table : Table
linux_table = value_or [] (create_all linux (builtin_names linux) [])

linux_table_made : create_all linux (builtin_names linux) [] ≡ ok linux_table
unfolding create_all text_eq
linux_table_made = refl

assemble-AllDescribed_example :
    (assigned : Assigned) × (assemble
        (type_names linux_table)
        (ffi_type_map header)
        (linux.sizeof (codes "long"))
      ≡ ok assigned)
    × AllDescribed ffi_size (described_table assigned linux_table)
assemble-AllDescribed_example =
    assemble-AllDescribed linux header ffi_size 8 8 24 linux-IsCSizes header-IsFfiSizes (inr refl)
      (inr refl) linux_table linux_table_made
