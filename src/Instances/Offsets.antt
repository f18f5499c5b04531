-- ===== src/Instances/Offsets.antt =====
-- The offsets that `recalc` of lib/ref/struct.js gives to fields of integer types, packed or not.
use mathlib.Core.Path.{subst}
use js_ffi_cross.Base.{
  ℕ, zero, suc, ◌+◌, ◌≤◌, ◌≡◌, refl, ap, Bool, true, false, Option, none, some, arith,
}
use js_ffi_cross.Base.Result.{Result, ok, err, ◌>>=◌, >>=-returns, value_or}
use js_ffi_cross.Text.{Text}
use js_ffi_cross.CType.{Builtin, CType, Fields, end, field, Platform, size, alignment, fixed_array}
use js_ffi_cross.Layout.Struct.{
  StructType, own_alignment, own_size, padded, add_type, place_field, place_fields, final_size,
  recalc, struct_alignment,
}
use js_ffi_cross.Access.Alloc.{IntegerSize, integer_type, size_of}
use js_ffi_cross.Instances.Integers.{IsInteger, width_of}
use js_ffi_cross.Instances.Objects.{Integers, Ascending}

module _ (p : Platform) where
  -- A field is placed at or behind the struct's size so far, and has its own size.
  abbrev Advances : ℕ → ℕ → Result (ℕ × ℕ) → Type 0
  Advances width current (err e) = Unit
  Advances width current (ok (offset, next)) = (current ≤ offset) × (next ≡ offset + width)

  padded-Advances :
      (align : Option ℕ) (width current : ℕ)
      → Advances width current (padded p align current >>= λ offset. ok (offset, offset + width))
  padded-Advances none width current = tt
  padded-Advances (some zero) width current = tt
  padded-Advances (some (suc n)) width current = ground arith

  place_integer :
      (packed : Bool) (name : Option Text) (ffi : Option Builtin) (align : Option ℕ)
      (unsigned : Bool) (k : IntegerSize) (current : ℕ)
      → Advances
          (size_of k)
          current
          (place_field p packed (integer_type name ffi align unsigned k) current)
  unfolding place_field add_type own_size own_alignment size alignment fixed_array
  place_integer true name ffi align unsigned k current = (omega arith, refl)
  place_integer false name ffi align unsigned k current = padded-Advances align (size_of k) current

  place_field-Advances :
      (packed : Bool) {type : CType} (i : IsInteger type) (current : ℕ)
      → Advances (width_of i) current (place_field p packed type current)
  place_field-Advances packed i current =
      rw i.same (place_integer packed i.name i.ffi i.align i.unsigned i.width current)

  place_fields-Ascending :
      (packed : Bool) (fields : Fields) (current : ℕ) (result : Fields × ℕ)
      → place_fields p packed fields current ≡ ok result
      → (ints : Integers result.0) → Ascending result.0 ints current result.1
  unfolding place_fields
  place_fields-Ascending packed end current result e =
      subst (λ r. (ints : Integers r.0) → Ascending r.0 ints current r.1)
        (ap (value_or (end, current)) e) (λ ints. omega arith)
  place_fields-Ascending packed (field n type x rest) current result e =
      let (placed, first, continued) = >>=-returns (place_field p packed type current) _ result e in
      let (others, returned, last) =
        >>=-returns (place_fields p packed rest placed.1)
          (λ others. ok (field n type placed.0 others.0, others.1)) result continued in
      subst (λ r. (ints : Integers r.0) → Ascending r.0 ints current r.1)
        (ap (value_or (field n type placed.0 others.0, others.1)) last)
        (λ ints.
          let advances : Advances (width_of ints.0) current (ok placed) =
            subst (Advances (width_of ints.0) current) first
              (place_field-Advances packed ints.0 current) in
          let up = place_fields-Ascending packed rest placed.1 others returned ints.1 in
          (advances.0, subst (λ lo. Ascending others.0 ints.1 lo others.1) advances.1 up))

  final_size-le : (n align : ℕ) → n ≤ final_size p n align
  unfolding final_size
  final_size-le n align = ground arith

  Ascending-widen :
      (fields : Fields) (ints : Integers fields) (lo hi hi' : ℕ)
      → Ascending fields ints lo hi
      → hi ≤ hi'
      → Ascending fields ints lo hi'
  Ascending-widen end ints lo hi hi' up wide = omega arith
  Ascending-widen (field n type o rest) (i, ints) lo hi hi' (first, others) wide =
      (first, Ascending-widen rest ints (o + width_of i) hi hi' others wide)

  -- A struct type whose layout is up to date has its fields behind one another, inside its size.
  pub recalc-Ascending :
      (s : StructType)
      → recalc p s ≡ ok s
      → (ints : Integers s.fields) → Ascending s.fields ints 0 s.size
  unfolding recalc
  recalc-Ascending s e =
      let align = struct_alignment p s.is_packed 0 s.fields in
      let after : Fields × ℕ → StructType = λ placed. record s {
        fields = placed.0;
        size = final_size p placed.1 align;
        alignment = align;
      } in
      let (placed, returned, last) =
        >>=-returns (place_fields p s.is_packed s.fields 0) (λ placed. ok (after placed)) s e in
      subst (λ t. (ints : Integers t.fields) → Ascending t.fields ints 0 t.size)
        (ap (value_or (after placed)) last)
        (λ ints.
          Ascending-widen placed.0 ints 0 placed.1 (final_size p placed.1 align)
            (place_fields-Ascending s.is_packed s.fields 0 placed returned ints)
            (final_size-le placed.1 align))
