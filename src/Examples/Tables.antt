-- ===== src/Examples/Tables.antt =====
-- The table of built-in types over a native map with two names.
use js_ffi_cross.Base.{ℕ, Option, none, some, [], ◌∷◌, if◌then◌else◌}
use js_ffi_cross.Base.Result.{value_or}
use js_ffi_cross.Text.{Text, codes, text_eq}
use js_ffi_cross.Builtins.{NativeMaps, Table, create_all}

abbrev byte_wide : Text → Option ℕ
byte_wide name =
    if text_eq name (codes "uint8")
    then some 1
    else if text_eq name (codes "bool")
    then some 1
    else none

abbrev bytes_only : NativeMaps
bytes_only = record {
  sizeof = byte_wide;
  alignof = byte_wide;
  sizeof_pointer = 8;
  alignof_pointer = 8;
}

abbrev byte_table : Table
byte_table = value_or [] (create_all bytes_only (codes "uint8" ∷ codes "bool" ∷ []) [])
