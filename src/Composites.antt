-- ===== src/Composites.antt =====
-- The `get` and `set` of all struct, union and array types together, as `Composite` wants them: those
-- of lib/ref/struct.js, lib/ref/union.js and lib/ref/array.js call `ref.get` and `ref.set`, which call
-- them again for fields and elements. The instances of arrays are values with their buffers, from
-- which a length that the type does not fix follows.
pub mod Nested
use js_ffi_cross.Base.{
  ℕ, zero, suc, ◌/◌, pos, negsuc, ℤ, Bool, true, false, ◌==◌, if◌then◌else◌, Option, none, some,
  List, [], ◌∷◌,
}
use js_ffi_cross.Base.Result.{
  Error, Result, too_much_recursion, not_a_function, no_array_value, err_value_out_of_range,
}
use js_ffi_cross.Scalar.{number}
use js_ffi_cross.Memory.{Buffer}
use js_ffi_cross.CType.{CType, atom, struct, union, array, ref_of, deref_of, bytes_per_element}
use js_ffi_cross.CType.Coerce.{Types}
use js_ffi_cross.Value.{
  Value, scalar, double, text, reference, instance_of, object, elements, other_object, Values,
  no_value, value,
}
use js_ffi_cross.World.{Host, Action, pure, raise, ◌>>=◌, ◌>>◌}
use js_ffi_cross.Pointers.{write_pointer}
use js_ffi_cross.Access.{Composite, null_buffer}
use js_ffi_cross.Arrays.{
  ArrayType, ArrayObject, nothing, number_of, values, on_buffer, new_array, get_fixed, set_fixed,
  set_fixed_from, get_ref, set_ref,
}
use js_ffi_cross.Instances.{get_instance, set_struct, set_union}

abbrev pub to_list : Values → List Value
to_list no_value = []
to_list (value v vs) = v ∷ to_list vs

-- An array instance as a value, and a value as an instance of an array type.
abbrev pub array_value : ArrayObject → Value
array_value a = instance_of (array a.type.element a.type.fixed_length) a.buffer

abbrev pub start_of : ℤ → ℕ
start_of (pos offset) = offset
start_of (negsuc n) = 0

module _ (host : Host) (types : Types) (same : CType → CType → Bool) where
  abbrev pub array_object : CType → ℕ → Buffer → ArrayObject
  array_object element zero buffer = record {
    type = record { element = element; fixed_length = 0 };
    length = buffer.length / bytes_per_element host.platform element;
    buffer = buffer;
  }
  array_object element (suc n) buffer = record {
    type = record { element = element; fixed_length = suc n };
    length = suc n;
    buffer = buffer;
  }

  module _ (inner : Composite) where
    -- `ptr` of `setRef`: what is no instance is given to the constructor, which makes nothing of a
    -- value that is no Number, Array or Buffer and keeps the NULL of its prototype. Fractional numbers
    -- are not modelled.
    abbrev pub new_array_of : ArrayType → Value → Action Buffer
    new_array_of type (scalar (number (pos n))) = do
      made ← new_array host inner types type (number_of n) none
      pure made.buffer
    new_array_of type (scalar (number (negsuc n))) = raise err_value_out_of_range
    new_array_of type (elements vals) = do
      made ← new_array host inner types type (values (to_list vals)) none
      pure made.buffer
    new_array_of type (reference buf buf_type) = do
      made ← new_array host inner types type (on_buffer buf) none
      pure made.buffer
    new_array_of type _ = pure null_buffer

    abbrev pub set_array_ref : ArrayType → Buffer → Value → ℤ → Action (Unit {0})
    set_array_ref type buffer (instance_of source_type source) offset =
        if same source_type (array type.element type.fixed_length)
        then write_pointer host buffer (reference source none) offset
        else write_pointer host buffer (reference null_buffer none) offset
    set_array_ref type buffer val offset = do
      ptr ← new_array_of type val
      write_pointer host buffer (reference ptr none) offset

    -- The array over the buffer is made before the value is looked at.
    abbrev pub refused : ArrayType → Buffer → ℤ → Action (Unit {0})
    refused type buffer offset = do
      made ← get_fixed host inner types type buffer (start_of offset)
      raise no_array_value

    abbrev pub set_array : ArrayType → Buffer → Value → ℤ → Action (Unit {0})
    set_array type buffer (elements vals) offset =
        set_fixed host inner types type buffer (to_list vals) (start_of offset)
    set_array type buffer (instance_of (array element n) source) offset =
        if same (array element n) (array type.element type.fixed_length)
        then set_fixed_from host inner types type buffer (array_object element n source)
            (start_of offset)
        else refused type buffer offset
    set_array type buffer val offset = refused type buffer offset

    -- A clone of a struct, union or array type is an object that `new` does not take.
    unfoldable pub get_composite : CType → Buffer → ℤ → Action Value
    unfolding get_instance get_fixed get_ref
    get_composite (struct n align fields) buffer offset =
        get_instance host inner types (struct n align fields) buffer offset
    get_composite (union n align fields) buffer offset =
        get_instance host inner types (union n align fields) buffer offset
    get_composite (array element zero) buffer offset = do
      made ← get_ref host inner types (record { element = element; fixed_length = 0 }) buffer offset
      pure (array_value made)
    get_composite (array element (suc n)) buffer offset = do
      made ←
          get_fixed host inner types (record { element = element; fixed_length = suc n }) buffer
            (start_of offset)
      pure (array_value made)
    get_composite type buffer offset = raise not_a_function

    unfoldable pub set_composite : CType → Buffer → Value → ℤ → Action (Unit {0})
    unfolding set_struct set_union set_fixed set_fixed_from new_array write_pointer
        bytes_per_element
    set_composite (struct n align fields) buffer val offset =
        set_struct host inner types same (struct n align fields) buffer val offset
    set_composite (union n align fields) buffer val offset =
        set_union host inner types same (union n align fields) buffer val offset
    set_composite (array element zero) buffer val offset =
        set_array_ref (record { element = element; fixed_length = 0 }) buffer val offset
    set_composite (array element (suc n)) buffer val offset =
        set_array (record { element = element; fixed_length = suc n }) buffer val offset
    set_composite type buffer val offset = raise not_a_function

  -- One unit of fuel for each type inside of another.
  unfoldable pub composite : ℕ → Composite
  unfolding get_composite set_composite
  composite zero = record {
    get = λ type buffer offset. raise too_much_recursion;
    set = λ type buffer val offset. raise too_much_recursion;
  }
  composite (suc fuel) = record {
    get = get_composite (composite fuel);
    set = set_composite (composite fuel);
  }
