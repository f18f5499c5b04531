-- ===== src/Layout/PackedLaws.antt =====
-- `recalc` of lib/ref/struct.js for packed structs.
use js_ffi_cross.Base.{
  ℕ, zero, suc, ◌+◌, ◌-◌, ◌*◌, ◌%◌, ◌≤◌, ◌<◌, ◌≡◌, ◌≢◌, ◌⊎◌, inl, inr, refl, sym, ◌∙◌, ap, true,
  false, Option, none, some, arith, min,
}
use js_ffi_cross.Base.Result.{ok}
use js_ffi_cross.CType.{CType, Fields, end, field, Platform}
use js_ffi_cross.Layout.Struct.{
  StructType, own_size, field_alignment, struct_alignment, add_type, add_types, place_array,
  place_field, place_fields, final_size, recalc,
}
use js_ffi_cross.Layout.Align.{one_and_rest, pad_lt, pad_aligned}
use js_ffi_cross.Layout.Repeated.{
  own_array, unit_of, count_of, count-positive, points_to_array, NoArrayPointer, fixed_array-own,
}
use js_ffi_cross.Layout.StructLaws.{bytes, final_size-pad}
use js_ffi_cross.Layout.UnionLaws.{AlignmentOfOne, field_alignment-positive}

min_cases : (a b : ℕ) → (min a b ≡ a) ⊎ (min a b ≡ b)
min_cases a b = grind arith

module _ (p : Platform) where
  -- Names and types are kept, every field begins where the one before it ends, and the last one
  -- ends at `hi`.
  abbrev pub IsContiguous : Fields → Fields → ℕ → ℕ → Type 0
  IsContiguous end end lo hi = hi ≡ lo
  IsContiguous (field n type x rest) (field n' type' offset rest') lo hi =
      (n' ≡ n) × (type' ≡ type) × (offset ≡ lo) × IsContiguous rest rest' (lo + bytes p type) hi
  IsContiguous _ _ lo hi = ⊥

  add_packed : (type : CType) (s : ℕ) → add_type p true type s ≡ ok (s, s + own_size p type)
  unfolding add_type
  add_packed type s = refl

  add_packed_more :
      (type : CType) (n s : ℕ) → add_types p n true type s ≡ ok (s + n * own_size p type)
  unfolding add_types
  add_packed_more type zero s = ground arith
  add_packed_more type (suc n) s =
      add_packed_more type n (s + own_size p type) ∙ ap ok (omega arith)

  place_packed :
      (type : CType) (s : ℕ)
      → points_to_array type ≡ false
      → place_field p true type s ≡ ok (s, s + bytes p type)
  unfolding place_field
  place_packed type s h = rw (fixed_array-own type h) (go (own_array type) (count-positive type))
    where
      go :
          (arr : Option (CType × ℕ))
          → 0 < count_of arr
          → place_array p true type arr s ≡ ok (s, s + count_of arr * own_size p (unit_of type arr))
      go none h = add_packed type s ∙ ap ok (ground arith)
      go (some (element, n)) h =
          rw (add_packed_more element (n - 1) (s + own_size p element))
            (ground (arith, one_and_rest n (own_size p element) h))

  place_all_packed :
      (fields : Fields) (lo : ℕ)
      → NoArrayPointer fields
      → (placed : Fields) × (hi : ℕ) × (place_fields p true fields lo ≡ ok (placed, hi))
        × IsContiguous fields placed lo hi
  unfolding place_fields
  place_all_packed end lo h = (end, lo, refl, refl)
  place_all_packed (field n type x rest) lo (plain, others) =
      let (placed, hi, returns, layout) = place_all_packed rest (lo + bytes p type) others in
      (
        field n type lo placed,
        hi,
        rw (place_packed type lo plain) (rw returns),
        (refl, refl, refl, layout),
      )

  -- No field asks for less.
  abbrev pub IsLeast : ℕ → Fields → Type 0
  IsLeast least end = Unit
  IsLeast least (field n type x rest) = (least ≤ field_alignment p type) × IsLeast least rest

  IsLeast-rest :
      (fields : Fields) (acc : ℕ)
      → 0 < acc
      → 0 < p.alignof_pointer
      → (0 < struct_alignment p true acc fields)
        × (struct_alignment p true acc fields ≤ acc)
        × IsLeast (struct_alignment p true acc fields) fields
        × ((struct_alignment p true acc fields ≡ acc)
            ⊎ AlignmentOfOne p fields (struct_alignment p true acc fields))
  unfolding struct_alignment
  IsLeast-rest end acc h pointer = (h, omega arith, tt, inl refl)
  IsLeast-rest (field n type x rest) (suc acc) h pointer =
      let a = field_alignment p type in
      let (positive, below, least, reached) =
        IsLeast-rest rest (min (suc acc) a) (omega (arith, field_alignment-positive p type pointer))
          pointer in
      (
        positive,
        omega arith,
        (omega arith, least),
        elim reached [
          | inl e ↦ elim (min_cases (suc acc) a) [
            | inl f ↦ inl (e ∙ f)
            | inr f ↦ inr (inl (sym (e ∙ f)))
          ]
          | inr later ↦ inr (inr later)
        ],
      )
  IsLeast-rest (field n type x rest) zero h pointer = absurd (omega arith)

  IsLeast-of_all :
      (fields : Fields)
      → fields ≢ end
      → 0 < p.alignof_pointer
      → (0 < struct_alignment p true 0 fields)
        × IsLeast (struct_alignment p true 0 fields) fields
        × AlignmentOfOne p fields (struct_alignment p true 0 fields)
  unfolding struct_alignment
  IsLeast-of_all end some_field pointer = absurd (some_field refl)
  IsLeast-of_all (field n type x rest) some_field pointer =
      let a = field_alignment p type in
      let (positive, below, least, reached) =
        IsLeast-rest rest (min a a) (omega (arith, field_alignment-positive p type pointer))
          pointer in
      (
        positive,
        (omega arith, least),
        elim reached [ inl e ↦ inl (omega (arith, e)) | inr later ↦ inr later ],
      )

  -- `recalc` of a packed struct returns; the first field stands at 0 and every other one where the
  -- one before it ends, the alignment is the least that a field asks for, and the size is the first
  -- multiple of it behind the last field. There is a field, no field is a pointer to a
  -- fixed-length array, and pointers have a positive alignment.
  pub recalc-IsContiguous :
      (s : StructType)
      → s.is_packed ≡ true
      → s.fields ≢ end
      → 0 < p.alignof_pointer
      → NoArrayPointer s.fields
      → (s' : StructType) × (hi : ℕ) × (recalc p s ≡ ok s')
        × IsContiguous s.fields s'.fields 0 hi
        × IsLeast s'.alignment s.fields
        × AlignmentOfOne p s.fields s'.alignment
        × (hi ≤ s'.size)
        × (s'.size < hi + s'.alignment)
        × (s'.size % s'.alignment ≡ 0)
  unfolding recalc
  recalc-IsContiguous s packed some_field pointer plain =
      let (placed, hi, returns, layout) = place_all_packed s.fields 0 plain in
      let align = struct_alignment p true 0 s.fields in
      let (positive, least, reached) = IsLeast-of_all s.fields some_field pointer in
      (
        record s { fields = placed; size = final_size p hi align; alignment = align },
        hi,
        ground (arith, returns),
        layout,
        least,
        reached,
        omega (arith, final_size-pad p hi align positive),
        omega (arith, final_size-pad p hi align positive, pad_lt align hi positive),
        rw (final_size-pad p hi align positive) (pad_aligned align hi positive),
      )
