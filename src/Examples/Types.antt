-- ===== src/Examples/Types.antt =====
-- The layouts and descriptions of a small struct and a small union on a machine of eight bytes.
use js_ffi_cross.Base.{ℕ, ◌+◌, ◌%◌, ◌≤◌, ◌<◌, ◌≡◌, refl, arith, true, false, ◌++◌, some, [], ◌∷◌}
use js_ffi_cross.Base.Result.{ok, ◌>>=◌}
use js_ffi_cross.Text.{codes, is_space, count_stars, text_eq, to_lower_case, lower}
use js_ffi_cross.CType.{
  integer, character, CType, Fields, end, field, atom, struct, union, array, ref_of, Platform,
  ffi_int32, ffi_uint8, ffi_pointer, indirection, alignment, size, fixed_array,
}
use js_ffi_cross.CType.Coerce.{Types, named, lookup, coerce_type, found, ref_times, deref_type}
use js_ffi_cross.CType.CoerceLaws.{coerce_decorated, deref_type-ref_times}
use js_ffi_cross.Layout.Struct.{
  StructType, recalc, own_alignment, own_size, field_alignment, struct_alignment, place_field,
}
use js_ffi_cross.Base.{List}
use js_ffi_cross.Text.{Text, strip_spaces, strip_stars}
use js_ffi_cross.CType.Coerce.{TypeSpec, coerce_stripped}
use js_ffi_cross.Layout.Struct.{
  new_struct, define_all, define_property, is_among, has_field, add_field, place_fields, add_type,
  final_size,
}
use js_ffi_cross.Layout.Names.{IsDistinct}
use js_ffi_cross.Layout.Construction.{new_struct-IsDistinct, new_struct-IsLaidOut}
use js_ffi_cross.Layout.Union
use js_ffi_cross.Layout.Union.{UnionType}
use js_ffi_cross.Layout.Repeated.{own_array, points_to_array, NoArrayPointer}
use js_ffi_cross.Layout.StructLaws.{AllRegular, IsLaidOut}
use js_ffi_cross.Layout.PackedLaws.{IsContiguous, IsLeast, recalc-IsContiguous}
use js_ffi_cross.Layout.UnionLaws.{SizeOfOne, AllWithin, AlignmentOfOne, recalc_union}
use js_ffi_cross.FfiType.{Elements, builtin, struct_type, ffi_type_of, describe, own_ffi_type}
use js_ffi_cross.FfiType.Flattened.{units, AllTyped, IsDescribed, IsWithin, ffi_type_of-IsDescribed}

abbrev pub machine : Platform
machine = record { sizeof_pointer = 8; alignof_pointer = 8 }

abbrev pub int : CType
int = atom (record {
  name = some (codes "int");
  size = 4;
  alignment = some 4;
  indirection = 1;
  ffi_type = some ffi_int32;
  accessor = integer false false 4;
})

abbrev pub uchar : CType
uchar = atom (record {
  name = some (codes "uchar");
  size = 1;
  alignment = some 1;
  indirection = 1;
  ffi_type = some ffi_uint8;
  accessor = character true;
})

abbrev pub table : Types
table = (codes "int", int) ∷ (codes "uchar", uchar) ∷ []

-- struct { uchar tag; int values[3]; int *next; }
abbrev members : Fields
members =
    field (codes "tag") uchar 0
      (field (codes "values") (array int 3) 0 (field (codes "next") (ref_of int) 0 end))

abbrev made : StructType
made = record {
  fields = members;
  size = 0;
  alignment = 0;
  is_packed = false;
  instance_created = false;
}

members-AllRegular : AllRegular machine members
unfolding own_alignment own_size field_alignment alignment size own_array points_to_array
    fixed_array
members-AllRegular = (
  (
    1,
    record {
      no_array_pointer = refl;
      positive = omega arith;
      own = refl;
      asked = refl;
      multiple = refl;
    },
  ),
  (
    (
      4,
      record {
        no_array_pointer = refl;
        positive = omega arith;
        own = refl;
        asked = refl;
        multiple = refl;
      },
    ),
    (
      (
        8,
        record {
          no_array_pointer = refl;
          positive = omega arith;
          own = refl;
          asked = refl;
          multiple = refl;
        },
      ),
      tt,
    ),
  ),
)

members-NoArrayPointer : NoArrayPointer members
unfolding points_to_array
members-NoArrayPointer = (refl, (refl, (refl, tt)))

abbrev packed : StructType
packed = record made { is_packed = true }

recalc-IsContiguous_example :
    (s' : StructType) × (hi : ℕ) × (recalc machine packed ≡ ok s')
    × IsContiguous machine members s'.fields 0 hi
    × IsLeast machine s'.alignment members
    × AlignmentOfOne machine members s'.alignment
    × (hi ≤ s'.size)
    × (s'.size < hi + s'.alignment)
    × (s'.size % s'.alignment ≡ 0)
recalc-IsContiguous_example =
    recalc-IsContiguous machine packed refl (λ e. cc) (omega arith) members-NoArrayPointer

abbrev either : UnionType
either = record { fields = members; size = 0; alignment = 0; instance_created = false }

recalc_union_example :
    (largest : ℕ) × SizeOfOne machine members largest
    × AllWithin machine members largest (Union.recalc machine either).alignment
    × AlignmentOfOne machine members (Union.recalc machine either).alignment
    × (largest ≤ (Union.recalc machine either).size)
    × ((Union.recalc machine either).size < largest + (Union.recalc machine either).alignment)
    × ((Union.recalc machine either).size % (Union.recalc machine either).alignment ≡ 0)
    × ((Union.recalc machine either).fields ≡ members)
recalc_union_example = recalc_union machine either (λ e. cc) (omega arith)

coerce_decorated_example :
    coerce_type table (named (codes "int" ++ codes " * *"))
    ≡ (found (lookup (codes "int") table) >>= λ type. ok (ref_times 2 type))
unfolding is_space lookup text_eq to_lower_case lower count_stars
coerce_decorated_example =
    coerce_decorated table (codes "int") (codes " * *") (refl, (refl, (refl, tt)))
      (refl, (refl, (refl, (refl, tt)))) refl refl refl

deref_type-ref_times_example :
    (deref_type (ref_times 3 int) ≡ ok (ref_times 2 int)) × (indirection (ref_times 2 int) ≡ 3)
deref_type-ref_times_example = deref_type-ref_times 2 int (omega arith)

members-AllTyped : AllTyped [] machine members
unfolding ffi_type_of describe own_ffi_type own_array
members-AllTyped =
    ((builtin ffi_uint8, refl), ((builtin ffi_int32, refl), ((builtin ffi_pointer, refl), tt)))

ffi_type_of-IsDescribed_example :
    (elements : Elements) × (ffi_type_of [] machine (struct 24 8 members)
      ≡ ok (struct_type 48 elements))
    × (ffi_type_of [] machine (union 24 8 members) ≡ ffi_type_of [] machine (struct 24 8 members))
    × IsDescribed [] machine (units members) 0 elements
    × IsWithin [] machine 48 elements
unfolding own_array
ffi_type_of-IsDescribed_example =
    ffi_type_of-IsDescribed [] machine 24 8 members members-AllTyped members-NoArrayPointer

-- struct { uchar tag; int *next; }
abbrev listed : List (Text × TypeSpec)
listed = (codes "tag", named (codes "uchar")) ∷ (codes "next", named (codes "int *")) ∷ []

abbrev node : StructType
node = record {
  fields = field (codes "tag") uchar 0 (field (codes "next") (ref_of int) 8 end);
  size = 16;
  alignment = 8;
  is_packed = false;
  instance_created = false;
}

node_made : new_struct machine table listed false ≡ ok node
unfolding new_struct define_all define_property coerce_type coerce_stripped lookup text_eq is_space
    strip_spaces to_lower_case lower strip_stars count_stars ref_times size is_among has_field
    add_field recalc struct_alignment field_alignment alignment place_fields place_field fixed_array
    add_type own_alignment own_size final_size
node_made = refl

node-AllRegular : AllRegular machine node.fields
unfolding own_alignment own_size field_alignment alignment size own_array points_to_array
    fixed_array
node-AllRegular = (
  (
    1,
    record {
      no_array_pointer = refl;
      positive = omega arith;
      own = refl;
      asked = refl;
      multiple = refl;
    },
  ),
  (
    (
      8,
      record {
        no_array_pointer = refl;
        positive = omega arith;
        own = refl;
        asked = refl;
        multiple = refl;
      },
    ),
    tt,
  ),
)

new_struct-IsDistinct_example :
    IsDistinct node.fields × (recalc machine node ≡ ok node) × (node.is_packed ≡ false)
new_struct-IsDistinct_example = new_struct-IsDistinct machine table listed false node node_made

new_struct-IsLaidOut_example : IsLaidOut machine node node
new_struct-IsLaidOut_example =
    new_struct-IsLaidOut machine table listed node node_made (λ e. cc) node-AllRegular
