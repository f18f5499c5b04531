-- ===== src/FfiType/Flattened.antt =====
-- The `elements` buffer that `Type` of lib/type.js fills for a struct type.
use js_ffi_cross.Base.{
  ℕ, zero, suc, ◌+◌, ◌*◌, ◌≤◌, ◌≡◌, refl, ◌∙◌, ap, Option, none, some, List, [], ◌∷◌, ◌++◌, length,
  replicate, length-append, length-replicate, arith,
}
use js_ffi_cross.Base.Result.{Result, ok, ◌>>=◌}
use js_ffi_cross.Text.{Text}
use js_ffi_cross.CType.{
  CType, Fields, end, field, atom, struct, union, array, ref_of, deref_of, Platform, fixed_array,
  element_type,
}
use js_ffi_cross.FfiType.{
  FfiType, Elements, nothing, write_pointer, write_null, FfiTypes, elements_of_field,
  count_elements, describe, times_of, element_or, described_fields, described_element,
  write_elements, write_times, ffi_type_of, with_elements, struct_type, own_ffi_type,
}
use js_ffi_cross.Layout.Repeated.{own_array, unit_of, count_of, NoArrayPointer, fixed_array-own}

-- The values that a struct holds one after another: a fixed-length array is so many elements.
abbrev pub units : Fields → List CType
units end = []
units (field n type offset rest) =
    replicate (count_of (own_array type)) (unit_of type (own_array type)) ++ units rest

elements_of_field_lem : (arr : Option (CType × ℕ)) → elements_of_field arr ≡ count_of arr
elements_of_field_lem none = refl
elements_of_field_lem (some (element, n)) = refl

count_elements_lem :
    (fields : Fields) → NoArrayPointer fields → count_elements fields ≡ length (units fields)
unfolding count_elements
count_elements_lem end h = omega arith
count_elements_lem (field n type offset rest) (plain, others) = omega (
  arith,
  ap elements_of_field (fixed_array-own type plain),
  elements_of_field_lem (own_array type),
  count_elements_lem rest others,
  length-append (replicate (count_of (own_array type)) (unit_of type (own_array type)))
      (units rest),
  length-replicate (count_of (own_array type)) (unit_of type (own_array type)),
)

module _ (ffi_types : FfiTypes) (p : Platform) where
  -- Every value has a description.
  abbrev pub AllTyped : Fields → Type 0
  AllTyped end = Unit
  AllTyped (field n type offset rest) =
      ((ffi_type : FfiType) × (ffi_type_of ffi_types p (unit_of type (own_array type))
          ≡ ok ffi_type))
      × AllTyped rest

  -- The buffer has the description of each value in its slot from an index on, and then the NULL.
  abbrev pub IsDescribed : List CType → ℕ → Elements → Type 0
  IsDescribed [] index (write_null offset nothing) = offset ≡ index * p.sizeof_pointer
  IsDescribed (type ∷ types) index (write_pointer offset ffi_type rest) =
      (offset ≡ index * p.sizeof_pointer)
      × (ffi_type_of ffi_types p type ≡ ok ffi_type)
      × IsDescribed types (index + 1) rest
  IsDescribed _ _ _ = ⊥

  -- Every pointer is written inside a buffer of this size.
  abbrev pub IsWithin : ℕ → Elements → Type 0
  IsWithin size nothing = Unit
  IsWithin size (write_pointer offset ffi_type rest) =
      (offset + p.sizeof_pointer ≤ size) × IsWithin size rest
  IsWithin size (write_null offset rest) = (offset + p.sizeof_pointer ≤ size) × IsWithin size rest

  abbrev element_of : Option (CType × ℕ) → Option (Result FfiType × ℕ)
  element_of none = none
  element_of (some (element, n)) = some (ffi_type_of ffi_types p element, n)

  described_element_lem :
      (type : CType) → described_element ffi_types p type ≡ element_of (fixed_array type)
  unfolding described_element fixed_array ffi_type_of
  described_element_lem (atom a) = refl
  described_element_lem (struct n align fields) = refl
  described_element_lem (union n align fields) = refl
  described_element_lem (array type zero) = refl
  described_element_lem (array type (suc n)) = refl
  described_element_lem (ref_of type) = described_element_lem type
  described_element_lem (deref_of type) = described_element_lem type

  write_times_lem :
      (type : CType) (ffi_type : FfiType) (types : List CType) (n index : ℕ) (rest : Elements)
      → ffi_type_of ffi_types p type ≡ ok ffi_type
      → IsDescribed types (index + n) rest
      → IsDescribed
          (replicate n type ++ types)
          index
          (write_times ffi_types p n ffi_type index rest)
  unfolding write_times
  write_times_lem type ffi_type types zero index rest typed h = ground (arith, h)
  write_times_lem type ffi_type types (suc n) index rest typed h = (
    refl,
    typed,
    write_times_lem type ffi_type types n (index + 1) rest typed (ground (arith, h)),
  )

  -- The round of the second loop for one field, by what is known of an array.
  abbrev write_field : CType → Fields → ℕ → Option (Result FfiType × ℕ) → Result Elements
  write_field type rest index element = do
    ffi_type ← element_or ffi_types p element (ffi_type_of ffi_types p type)
    others ← write_elements ffi_types p rest (index + times_of ffi_types p element)
    ok (write_times ffi_types p (times_of ffi_types p element) ffi_type index others)

  write_elements_step :
      (n : Text) (type : CType) (offset : ℕ) (rest : Fields) (index : ℕ)
      → write_elements ffi_types p (field n type offset rest) index
        ≡ write_field type rest index (element_of (fixed_array type))
  unfolding write_elements described_element described_fields ffi_type_of
  write_elements_step n type offset rest index =
      ap (write_field type rest index) (described_element_lem type)

  write_elements_end :
      (index : ℕ)
      → write_elements ffi_types p end index ≡ ok (write_null (index * p.sizeof_pointer) nothing)
  unfolding write_elements
  write_elements_end index = refl

  write_field_lem :
      (type : CType) (arr : Option (CType × ℕ)) (rest : Fields) (index : ℕ) (ffi_type : FfiType)
      (others : Elements)
      → ffi_type_of ffi_types p (unit_of type arr) ≡ ok ffi_type
      → write_elements ffi_types p rest (index + count_of arr) ≡ ok others
      → write_field type rest index (element_of arr)
        ≡ ok (write_times ffi_types p (count_of arr) ffi_type index others)
  write_field_lem type none rest index ffi_type others typed h = rw (typed, h) refl
  write_field_lem type (some (element, n)) rest index ffi_type others typed h = rw (typed, h) refl

  write_elements_lem :
      (fields : Fields) (index : ℕ)
      → AllTyped fields
      → NoArrayPointer fields
      → (elements : Elements) × (write_elements ffi_types p fields index ≡ ok elements)
        × IsDescribed (units fields) index elements
  write_elements_lem end index h plain =
      (write_null (index * p.sizeof_pointer) nothing, write_elements_end index, refl)
  write_elements_lem (field n type offset rest) index ((ffi_type, typed), others) (this, plain) =
      let arr = own_array type in
      let (further, returns, described) =
        write_elements_lem rest (index + count_of arr) others plain in
      (
        write_times ffi_types p (count_of arr) ffi_type index further,
        write_elements_step n type offset rest index
            ∙ ap (λ a. write_field type rest index (element_of a)) (fixed_array-own type this)
            ∙ write_field_lem type arr rest index ffi_type further typed returns,
        write_times_lem (unit_of type arr) ffi_type (units rest) (count_of arr) index further typed
            described,
      )

  slot_within : (i n size : ℕ) → i * size + size ≤ size * (i + n + 1)
  slot_within i n size = grind arith

  within_lem :
      (types : List CType) (index : ℕ) (elements : Elements)
      → IsDescribed types index elements
      → IsWithin (p.sizeof_pointer * (index + length types + 1)) elements
  within_lem [] index nothing h = elim h [ ]
  within_lem [] index (write_pointer offset ffi_type rest) h = elim h [ ]
  within_lem [] index (write_null offset (write_pointer _ _ _)) h = elim h [ ]
  within_lem [] index (write_null offset (write_null _ _)) h = elim h [ ]
  within_lem (type ∷ types) index nothing h = elim h [ ]
  within_lem (type ∷ types) index (write_null offset _) h = elim h [ ]
  within_lem [] index (write_null offset nothing) h =
      (rw h (slot_within index 0 p.sizeof_pointer), tt)
  within_lem (type ∷ types) index (write_pointer offset ffi_type rest) (at, typed, h) = (
    rw at (slot_within index (suc (length types)) p.sizeof_pointer),
    ground (arith, within_lem types (index + 1) rest h),
  )

  same :
      (size align : ℕ) (fields : Fields)
      → ffi_type_of ffi_types p (union size align fields)
        ≡ ffi_type_of ffi_types p (struct size align fields)
  unfolding ffi_type_of describe own_ffi_type element_type described_fields
  same size align fields = refl

  returned :
      (size align : ℕ) (fields : Fields) (elements : Elements)
      → NoArrayPointer fields
      → write_elements ffi_types p fields 0 ≡ ok elements
      → ffi_type_of ffi_types p (struct size align fields)
        ≡ ok (struct_type (p.sizeof_pointer * (length (units fields) + 1)) elements)
  unfolding ffi_type_of describe own_ffi_type element_type described_fields
  returned size align fields elements plain h =
      ap (with_elements ffi_types p (count_elements fields)) h
      ∙ ap (λ n. ok (struct_type (p.sizeof_pointer * (n + 1)) elements))
          (count_elements_lem fields plain)

  -- A struct is described by an FFI_TYPE struct whose `elements` buffer has one slot for each value
  -- that the struct holds and one more: the slots hold the descriptions of the values, in order, an
  -- array taken apart into its elements (one that is an array again has the description that `Type`
  -- gives an array, a pointer), and then the NULL, all inside the buffer. A union gets the
  -- same description as the struct of its members. Every value has a description,
  -- and no field is a pointer to a fixed-length array.
  pub ffi_type_of-IsDescribed :
      (size align : ℕ) (fields : Fields)
      → AllTyped fields
      → NoArrayPointer fields
      → (elements : Elements) × (ffi_type_of ffi_types p (struct size align fields)
          ≡ ok (struct_type (p.sizeof_pointer * (length (units fields) + 1)) elements))
        × (ffi_type_of ffi_types p (union size align fields)
            ≡ ffi_type_of ffi_types p (struct size align fields))
        × IsDescribed (units fields) 0 elements
        × IsWithin (p.sizeof_pointer * (length (units fields) + 1)) elements
  ffi_type_of-IsDescribed size align fields typed plain =
      let (elements, returns, described) = write_elements_lem fields 0 typed plain in
      (
        elements,
        returned size align fields elements plain returns,
        same size align fields,
        described,
        ground (arith, within_lem (units fields) 0 elements described),
      )
