-- ===== src/Layout/Construction.antt =====
-- What `Struct` of lib/ref/struct.js returns, by induction on the fields that it defines.
use mathlib.Core.Path.{subst}
use js_ffi_cross.Base.{ℕ, ◌≡◌, refl, sym, ◌∙◌, ap, Bool, true, false, ◌||◌, ◌≢◌, List, [], ◌∷◌}
use js_ffi_cross.Base.Result.{ok, throw_if, >>=-returns, >>-returns, value_or, field_already_exists}
use js_ffi_cross.Text.{Text}
use js_ffi_cross.CType.{Fields, end, field, Platform}
use js_ffi_cross.CType.Coerce.{TypeSpec, Types, coerce_type}
use js_ffi_cross.Layout.StructLaws.{AllRegular, IsLaidOut, recalc-IsLaidOut}
use js_ffi_cross.Layout.Struct.{
  StructType, reserved, is_among, has_field, add_field, place_field, place_fields, recalc,
  struct_alignment, final_size, define_property, define_all, new_struct,
}
use js_ffi_cross.Layout.Names.{IsDistinct, SameNames, add_field-IsDistinct, IsDistinct-SameNames}

module _ (p : Platform) where
  place_fields-SameNames :
      (packed : Bool) (fields : Fields) (current : ℕ) (result : Fields × ℕ)
      → place_fields p packed fields current ≡ ok result
      → SameNames fields result.0
  unfolding place_fields
  place_fields-SameNames packed end current result e =
      subst (λ r. SameNames end r.0) (ap (value_or (end, current)) e) tt
  place_fields-SameNames packed (field n type x rest) current result e =
      let (placed, first, continued) = >>=-returns (place_field p packed type current) _ result e in
      let (others, returned, last) =
        >>=-returns (place_fields p packed rest placed.1)
          (λ others. ok (field n type placed.0 others.0, others.1)) result continued in
      subst (λ r. SameNames (field n type x rest) r.0)
        (ap (value_or (field n type placed.0 others.0, others.1)) last)
        (refl, refl, place_fields-SameNames packed rest placed.1 others returned)

  -- Placing placed fields changes nothing.
  place_fields_again :
      (packed : Bool) (fields : Fields) (current : ℕ) (result : Fields × ℕ)
      → place_fields p packed fields current ≡ ok result
      → place_fields p packed result.0 current ≡ ok result
  unfolding place_fields
  place_fields_again packed end current result e =
      subst (λ r. place_fields p packed r.0 current ≡ ok r) (ap (value_or (end, current)) e) refl
  place_fields_again packed (field n type x rest) current result e =
      let (placed, first, continued) = >>=-returns (place_field p packed type current) _ result e in
      let (others, returned, last) =
        >>=-returns (place_fields p packed rest placed.1)
          (λ others. ok (field n type placed.0 others.0, others.1)) result continued in
      subst (λ r. place_fields p packed r.0 current ≡ ok r)
        (ap (value_or (field n type placed.0 others.0, others.1)) last)
        (rw (first, place_fields_again packed rest placed.1 others returned) refl)

  struct_alignment-SameNames :
      (packed : Bool) (fields fields' : Fields)
      → SameNames fields fields'
      → (acc : ℕ) → struct_alignment p packed acc fields' ≡ struct_alignment p packed acc fields
  unfolding struct_alignment
  struct_alignment-SameNames packed end end h acc = refl
  struct_alignment-SameNames packed end (field n t x rest) h acc = elim h [ ]
  struct_alignment-SameNames packed (field n t x rest) end h acc = elim h [ ]
  struct_alignment-SameNames packed (field n t x rest) (field n' t' x' rest') (e, f, h) acc =
      rw f (struct_alignment-SameNames packed rest rest' h _)

  abbrev recalculated : StructType → Fields × ℕ → StructType
  recalculated s placed =
      let align = struct_alignment p s.is_packed 0 s.fields in
      record s { fields = placed.0; size = final_size p placed.1 align; alignment = align }

  -- What is kept about a struct type while fields are added.
  abbrev Kept : Bool → StructType → Type 0
  Kept packed s = IsDistinct s.fields × (recalc p s ≡ ok s) × (s.is_packed ≡ packed)

  recalc-Kept :
      (packed : Bool) (s s' : StructType)
      → IsDistinct s.fields
      → s.is_packed ≡ packed
      → recalc p s ≡ ok s'
      → Kept packed s'
  unfolding recalc
  recalc-Kept packed s s' distinct same e =
      let (placed, returned, last) =
        >>=-returns (place_fields p s.is_packed s.fields 0) (λ placed. ok (recalculated s placed))
          s' e in
      let names = place_fields-SameNames s.is_packed s.fields 0 placed returned in
      subst (Kept packed) (ap (value_or (recalculated s placed)) last) (
        IsDistinct-SameNames s.fields placed.0 names distinct,
        rw
            (
              place_fields_again s.is_packed s.fields 0 placed returned,
              struct_alignment-SameNames s.is_packed s.fields placed.0 names 0,
            )
            refl,
        same,
      )

  module _ (types : Types) where
    define_property-Kept :
        (packed : Bool) (name : Text) (spec : TypeSpec) (s s' : StructType)
        → Kept packed s
        → define_property p types name spec s ≡ ok s'
        → Kept packed s'
    unfolding define_property
    define_property-Kept packed name spec s s' (distinct, fixed, same) e =
        let (type, coerced, e1) = >>=-returns (coerce_type types spec) _ s' e in
        let (no_instance, e2) = >>-returns _ _ s' e1 in
        let (sized, e3) = >>-returns _ _ s' e2 in
        let (fresh, e4) = >>-returns _ _ s' e3 in
        let (free, allowed) = passed (is_among name reserved) (has_field name s.fields) fresh in
        recalc-Kept packed (record s { fields = add_field name type s.fields }) s'
          (add_field-IsDistinct name type s.fields allowed free distinct) same e4
      where
        passed :
            (a b : Bool)
            → throw_if (a || b) field_already_exists ≡ ok tt
            → (a ≡ false) × (b ≡ false)
        passed true b h = cc
        passed false true h = cc
        passed false false h = (refl, refl)

    define_all-Kept :
        (packed : Bool) (fields : List (Text × TypeSpec)) (s s' : StructType)
        → Kept packed s
        → define_all p types fields s ≡ ok s'
        → Kept packed s'
    unfolding define_all
    define_all-Kept packed [] s s' h e = subst (Kept packed) (ap (value_or s) e) h
    define_all-Kept packed ((name, spec) ∷ fields) s s' h e =
        let (next, defined, e1) = >>=-returns (define_property p types name spec s) _ s' e in
        define_all-Kept packed fields next s'
          (define_property-Kept packed name spec s next h defined) e1

    abbrev empty : Bool → StructType
    empty packed = record {
      fields = end;
      size = 0;
      alignment = 0;
      is_packed = packed;
      instance_created = false;
    }

    empty-Kept : (packed : Bool) → Kept packed (empty packed)
    unfolding recalc place_fields struct_alignment final_size
    empty-Kept packed = (tt, refl, refl)

    -- A struct type that `Struct` returns has fields of distinct names, none of them reserved, has
    -- the packing that was asked for, and its offsets, size and alignment are up to date: a further
    -- `recalc` leaves them as they are.
    pub new_struct-IsDistinct :
        (fields : List (Text × TypeSpec)) (packed : Bool) (s : StructType)
        → new_struct p types fields packed ≡ ok s
        → IsDistinct s.fields × (recalc p s ≡ ok s) × (s.is_packed ≡ packed)
    unfolding new_struct
    new_struct-IsDistinct fields packed s e =
        define_all-Kept packed fields (empty packed) s (empty-Kept packed) e

    -- A struct type that `Struct` returns, not packed and with a field, is laid out as by a C
    -- compiler: each field at the first multiple of its alignment behind the one before it, the size
    -- the first multiple of the largest alignment behind the last one. Every field has
    -- a regular type, which no pointer to a fixed-length array is.
    pub new_struct-IsLaidOut :
        (fields : List (Text × TypeSpec)) (s : StructType)
        → new_struct p types fields false ≡ ok s
        → s.fields ≢ end
        → AllRegular p s.fields
        → IsLaidOut p s s
    new_struct-IsLaidOut fields s e some_field regular =
        let (distinct, fixed, same) = new_struct-IsDistinct fields false s e in
        let (s', returned, layout) = recalc-IsLaidOut p s same some_field regular in
        subst (IsLaidOut p s) (ap (value_or s') (sym returned ∙ fixed)) layout
