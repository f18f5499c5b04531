-- ===== src/Examples/Objects.antt =====
-- Instances of struct and union types on the example machine.
use js_ffi_cross.Base.{
  ℕ, ◌≤◌, ◌^◌, ◌≡◌, refl, pos, negsuc, ℤ, Bool, true, false, none, some, List, [], ◌∷◌, arith,
}
use js_ffi_cross.Base.Result.{ok}
use js_ffi_cross.Text.{Text, codes, text_eq}
use js_ffi_cross.Memory.{Buffer}
use js_ffi_cross.Scalar.{number, bigint}
use js_ffi_cross.CType.{
  CType, Fields, end, field, struct, union, integer, size, alignment, fixed_array,
}
use js_ffi_cross.CType.Coerce.{TypeSpec, typed, coerce_type}
use js_ffi_cross.Value.{Value, Properties, scalar, instance_of, object, property, no_property}
use js_ffi_cross.World.{World, within}
use js_ffi_cross.Codec.Positional.{load}
use js_ffi_cross.Accessors.Positional.{two}
use js_ffi_cross.Access.Alloc.{narrow, eight, integer_type}
use js_ffi_cross.Access.{accessor}
use js_ffi_cross.Layout.Struct.{StructType, new_struct, as_type}
use js_ffi_cross.Instances.{new_instance, to_object, set_struct, get_field, set_field, find_field}
use js_ffi_cross.Instances.Integers.{IsInteger}
use js_ffi_cross.Instances.Objects.{Integers, AllInRange, properties_of, Holds}
use js_ffi_cross.Instances.RoundTrip.{to_object-new_instance}
use js_ffi_cross.Instances.Copy.{IsWritten, set_struct-copy_assign}
use js_ffi_cross.Instances.Unions.{get_field-set_field}
use js_ffi_cross.Instances.Aliasing.{IsPlain, set_struct_other}
use js_ffi_cross.Composites.{composite}
use js_ffi_cross.Composites.Nested.{nested_set_field}
use js_ffi_cross.Examples.Machine.{machine, no_composite, ramp_world}

abbrev short : CType
short = integer_type none none (some 2) false (narrow two)

abbrev ulong : CType
ulong = integer_type none none (some 8) true eight

abbrev short-IsInteger : IsInteger short
short-IsInteger = record {
  unsigned = false;
  width = narrow two;
  name = none;
  ffi = none;
  align = some 2;
  same = refl;
}

abbrev ulong-IsInteger : IsInteger ulong
ulong-IsInteger = record {
  unsigned = true;
  width = eight;
  name = none;
  ffi = none;
  align = some 8;
  same = refl;
}

abbrev specs : List (Text × TypeSpec)
specs = (codes "a", typed short) ∷ (codes "b", typed ulong) ∷ []

abbrev pair : StructType
pair = record {
  fields = field (codes "a") short 0 (field (codes "b") ulong 8 end);
  size = 16;
  alignment = 8;
  is_packed = false;
  instance_created = false;
}

pair-made : new_struct machine.platform [] specs false ≡ ok pair
unfolding new_struct coerce_type size alignment fixed_array text_eq
pair-made = refl

abbrev values : List ℤ
values = negsuc 4 ∷ pos 1000000 ∷ []

abbrev pair_object : Properties
pair_object =
    property (codes "a") (scalar (number (negsuc 4)))
      (property (codes "b") (scalar (bigint (pos 1000000))) no_property)

abbrev new_store : Buffer
new_store = record { address = 4096; length = 16; room = 16 }

to_object-new_instance_example :
    (w' : World) × (new_instance machine no_composite []
        (as_type pair)
        none
        (some (object pair_object))
        ramp_world
      ≡ (ok (instance_of (as_type pair) new_store), w'))
    × (to_object machine no_composite [] (as_type pair) new_store w' ≡ (ok pair_object, w'))
    × ((q : ℕ) → within 4096 16 q ≡ false → w'.memory q ≡ ramp_world.memory q)
to_object-new_instance_example =
    to_object-new_instance machine no_composite [] specs false pair pair-made
      (short-IsInteger, (ulong-IsInteger, tt)) (omega arith) values (refl, (refl, tt)) ramp_world
      (λ q. omega arith)

-- An instance in the memory of the example, whose bytes are their addresses, and a buffer to set it in.
abbrev source : Buffer
source = record { address = 32; length = 16; room = 16 }

abbrev target : Buffer
target = record { address = 64; length = 40; room = 40 }

abbrev found_values : List ℤ
found_values = pos 8480 ∷ pos 3399704436437297448 ∷ []

abbrev pair-Integers : Integers pair.fields
pair-Integers = (short-IsInteger, (ulong-IsInteger, tt))

abbrev found-AllInRange : AllInRange pair.fields pair-Integers found_values
found-AllInRange = (refl, (refl, tt))

abbrev all_same : CType → CType → Bool
all_same a b = true

abbrev none_same : CType → CType → Bool
none_same a b = false

found-Holds : Holds machine pair.fields pair-Integers found_values ramp_world.memory 32
unfolding load
found-Holds = (refl, (refl, tt))

pair_small : pair.size ≤ 2 ^ 32
pair_small = omega arith

abbrev SetPair : Value → Type 0
SetPair value =
    IsWritten machine no_composite [] specs false pair pair-made pair-Integers pair_small all_same
      source target 8 found_values found-AllInRange ramp_world value

abbrev found_object : Properties
found_object = properties_of pair.fields pair-Integers found_values

set_struct-copy_assign_example :
    (to_object machine no_composite [] (as_type pair) source ramp_world
      ≡ (ok found_object, ramp_world))
    × SetPair (instance_of (as_type pair) source)
    × SetPair (object found_object)
set_struct-copy_assign_example =
    set_struct-copy_assign machine no_composite [] specs false pair pair-made pair-Integers
      pair_small all_same source target 8 found_values found-AllInRange ramp_world refl
      (omega arith) (omega arith) (omega arith) (λ q. omega arith) found-Holds

abbrev ushort-IsInteger : IsInteger (integer_type none none (some 2) true (narrow two))
ushort-IsInteger = record {
  unsigned = true;
  width = narrow two;
  name = none;
  ffi = none;
  align = some 2;
  same = refl;
}

abbrev members : Fields
members =
    field (codes "s") short 0
      (field (codes "u") (integer_type none none (some 2) true (narrow two)) 0 end)

s-found : find_field (codes "s") members ≡ some (short, 0)
unfolding find_field
s-found = refl

u-found :
    find_field (codes "u") members ≡ some (integer_type none none (some 2) true (narrow two), 0)
unfolding find_field
u-found = refl

get_field-set_field_example :
    (w' : World) × (set_field machine no_composite []
        (union 2 2 members)
        target
        (codes "s")
        (scalar (number (negsuc 0)))
        ramp_world
      ≡ (ok tt, w'))
    × (get_field machine no_composite [] (union 2 2 members) target (codes "u") w'
        ≡ (ok (scalar (number (pos 65535))), w'))
    × ((q : ℕ) → within 64 2 q ≡ false → w'.memory q ≡ ramp_world.memory q)
get_field-set_field_example =
    get_field-set_field machine no_composite [] 2 2 members target (omega arith) ramp_world
      (λ q. omega arith) (codes "s") (codes "u") short
      (integer_type none none (some 2) true (narrow two)) short-IsInteger ushort-IsInteger
      (record { offset = 0; found = s-found; fits = omega arith })
      (record { offset = 0; found = u-found; fits = omega arith }) refl (negsuc 0) refl

short-IsPlain : IsPlain short
unfolding accessor
short-IsPlain = record { by = integer false false 2; direct = refl; has = refl; other = λ e. cc }

-- Another type with a field of the same name.
abbrev single : CType
single = struct 2 2 (field (codes "a") short 0 end)

set_struct_other_example :
    (set_struct machine no_composite [] none_same single target
        (instance_of single source)
        (pos 8)
        ramp_world).1.memory
      72
    ≡ 72
set_struct_other_example =
    set_struct_other machine no_composite [] 72 single single source (short-IsPlain, tt)
      (short-IsPlain, tt) refl refl none_same refl target (pos 8) ramp_world

abbrev outer_fields : Fields
outer_fields = field (codes "n") ulong 0 (field (codes "inner") single 8 end)

inner-found : find_field (codes "inner") outer_fields ≡ some (single, 8)
unfolding find_field
inner-found = refl

a-found : find_field (codes "a") (field (codes "a") short 0 end) ≡ some (short, 0)
unfolding find_field
a-found = refl

abbrev inner_view : Buffer
inner_view = record { address = 72; length = 32; room = 32 }

nested_set_field_example :
    (w' : World) × (get_field machine
        (composite machine [] all_same 1)
        []
        (struct 16 8 outer_fields)
        target
        (codes "inner")
        ramp_world
      ≡ (ok (instance_of single inner_view), ramp_world))
    × (set_field machine
          (composite machine [] all_same 1)
          []
          single
          inner_view
          (codes "a")
          (scalar (number (negsuc 4)))
          ramp_world
        ≡ (ok tt, w'))
    × (get_field machine
          (composite machine [] all_same 1)
          []
          (struct 16 8 outer_fields)
          target
          (codes "inner")
          w'
        ≡ (ok (instance_of single inner_view), w'))
    × (get_field machine (composite machine [] all_same 1) [] single inner_view (codes "a") w'
        ≡ (ok (scalar (number (negsuc 4))), w'))
    × ((q : ℕ) → within 72 2 q ≡ false → w'.memory q ≡ ramp_world.memory q)
nested_set_field_example =
    nested_set_field machine [] all_same 0 16 8 outer_fields target (omega arith) (codes "inner") 2
      2 (field (codes "a") short 0 end) 8 inner-found (omega arith) (codes "a") short 0
      short-IsInteger a-found (omega arith) (omega arith) (negsuc 4) ramp_world refl
      (λ q. omega arith)
