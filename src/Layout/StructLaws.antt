-- ===== src/Layout/StructLaws.antt =====
-- `recalc` of lib/ref/struct.js, for structs that are not packed, against the layout rules of C.
use native.Mathlib.Nat.{mod-lt, mod-eq_of_lt}
use js_ffi_cross.Base.{
  ◌≢◌, Bool-cases, inl, inr, ℕ, zero, suc, ◌+◌, ◌-◌, ◌*◌, ◌%◌, ◌≤◌, ◌<◌, ◌≡◌, refl, ◌∙◌, ap, max,
  false, Option, none, some, arith, ltb,
}
use js_ffi_cross.Base.Result.{ok}
use js_ffi_cross.CType.{CType, Fields, end, field, Platform}
use js_ffi_cross.Layout.Struct.{
  StructType, own_alignment, own_size, field_alignment, struct_alignment, padded, add_type,
  add_types, place_array, place_field, place_fields, final_size, recalc,
}
use js_ffi_cross.Layout.Repeated.{
  own_array, unit_of, count_of, count-positive, points_to_array, fixed_array-own,
}
use js_ffi_cross.Layout.Align.{pad, pad_lt, pad_aligned, pad_zero, add_mod_zero, one_and_rest}

module _ (p : Platform) where
  abbrev pub unit : CType → CType
  unit type = unit_of type (own_array type)

  -- The bytes that a field occupies.
  abbrev pub bytes : CType → ℕ
  bytes type = count_of (own_array type) * own_size p (unit type)

  -- The unit has a positive alignment, which is the one that the field asks for, and its size is a
  -- multiple of it, as `sizeof` is. The type is no pointer to a fixed-length array.
  pub record IsRegular (type : CType) (align : ℕ) : Type 0 where
    pub no_array_pointer : points_to_array type ≡ false
    pub positive : 0 < align
    pub own : own_alignment p (unit type) ≡ some align
    pub asked : field_alignment p type ≡ align
    pub multiple : own_size p (unit type) % align ≡ 0

  -- `result` has the names and types of `fields`. From `lo` on, every field stands at the first
  -- multiple of its alignment behind the field before it, and the last one ends at `hi`.
  abbrev pub CLayout : Fields → Fields → ℕ → ℕ → Type 0
  CLayout end end lo hi = hi ≡ lo
  CLayout (field n type x rest) (field n' type' offset rest') lo hi =
      (n' ≡ n)
      × (type' ≡ type)
      × ((align : ℕ) × IsRegular type align
          × (offset % align ≡ 0)
          × (lo ≤ offset)
          × (offset < lo + align))
      × CLayout rest rest' (offset + bytes type) hi
  CLayout _ _ lo hi = ⊥

  -- Every field has a regular type; the alignments are given beside them.
  abbrev pub AllRegular : Fields → Type 0
  AllRegular end = Unit
  AllRegular (field n type x rest) = ((align : ℕ) × IsRegular type align) × AllRegular rest

  padded_lem : (align s : ℕ) → 0 < align → padded p (some align) s ≡ ok (s + pad align s)
  padded_lem zero s h = elim h [ ]
  padded_lem (suc n) s h = ground (arith, pad_aligned (suc n) s h)

  module _ (type : CType) (align : ℕ) (positive : 0 < align)
      (own : own_alignment p type ≡ some align) where
    add_type_lem :
        (s : ℕ) → add_type p false type s ≡ ok (s + pad align s, s + pad align s + own_size p type)
    unfolding add_type
    add_type_lem s = rw (own, padded_lem align s positive)

    add_types_lem :
        own_size p type % align ≡ 0
        → (n s : ℕ) → s % align ≡ 0
        → add_types p n false type s ≡ ok (s + n * own_size p type)
    unfolding add_types
    add_types_lem h zero s e = ground arith
    add_types_lem h (suc n) s e =
        let next = s + own_size p type in
        let first : add_type p false type s ≡ ok (s, next) =
          ground (arith, add_type_lem s, pad_zero align s e) in
        let further = add_types_lem h n next (add_mod_zero align s (own_size p type) e h) in
        rw first (further ∙ ap ok (omega arith))

  -- One field: the first aligned offset, and as many units behind it.
  place_field_lem :
      (type : CType) (align s : ℕ)
      → IsRegular type align
      → place_field p false type s ≡ ok (s + pad align s, s + pad align s + bytes type)
  unfolding place_field
  place_field_lem type align s r =
      rw (fixed_array-own type r.no_array_pointer)
        (go (own_array type) r.own r.multiple (count-positive type))
    where
      go :
          (arr : Option (CType × ℕ))
          → own_alignment p (unit_of type arr) ≡ some align
          → own_size p (unit_of type arr) % align ≡ 0
          → 0 < count_of arr
          → place_array p false type arr s
            ≡ ok (s + pad align s, s + pad align s + count_of arr * own_size p (unit_of type arr))
      go none own multiple counted = add_type_lem type align r.positive own s ∙ ap ok (ground arith)
      go (some (element, n)) own multiple counted =
          rw (add_type_lem element align r.positive own s) (
            rw
              (add_types_lem element align r.positive own multiple (n - 1)
                (s + pad align s + own_size p element)
                (add_mod_zero align (s + pad align s) (own_size p element)
                  (pad_aligned align s r.positive) multiple))
              (ground (arith, one_and_rest n (own_size p element) counted)))

  place_fields_lem :
      (fields : Fields) (lo : ℕ)
      → AllRegular fields
      → (placed : Fields) × (hi : ℕ) × (place_fields p false fields lo ≡ ok (placed, hi))
        × CLayout fields placed lo hi
  unfolding place_fields
  place_fields_lem end lo h = (end, lo, refl, refl)
  place_fields_lem (field n type x rest) lo ((align, r), others) =
      let offset = lo + pad align lo in
      let (placed, hi, returns, layout) = place_fields_lem rest (offset + bytes type) others in
      (
        field n type offset placed,
        hi,
        rw (place_field_lem type align lo r) (rw returns),
        (
          refl,
          refl,
          (
            align,
            r,
            pad_aligned align lo r.positive,
            omega arith,
            omega (arith, pad_lt align lo r.positive),
          ),
          layout,
        ),
      )

  -- The largest alignment of a field's unit, or `acc`.
  abbrev pub max_alignment : ℕ → Fields → ℕ
  max_alignment acc end = acc
  max_alignment acc (field n type x rest) = max_alignment (max acc (field_alignment p type)) rest

  struct_alignment_lem :
      (acc : ℕ) (fields : Fields) → struct_alignment p false acc fields ≡ max_alignment acc fields
  unfolding struct_alignment
  struct_alignment_lem acc end = refl
  struct_alignment_lem acc (field n type x rest) =
      struct_alignment_lem (max acc (field_alignment p type)) rest

  max_alignment-le : (acc : ℕ) (fields : Fields) → acc ≤ max_alignment acc fields
  max_alignment-le acc end = omega arith
  max_alignment-le acc (field n type x rest) =
      omega (arith, max_alignment-le (max acc (field_alignment p type)) rest)

  pub final_size-pad :
      (size align : ℕ) → 0 < align → final_size p size align ≡ size + pad align size
  unfolding final_size
  final_size-pad size align h = elim (Bool-cases (ltb 0 (size % align))) [
    | inl left ↦
        ground (
          arith,
          mod-eq_of_lt {n = align - size % align} {m = align} (ground (arith, mod-lt size h)),
        )
    | inr even ↦ ground (arith, pad_zero align size (ground arith))
  ]

  -- The struct without its fields' offsets: what a layout leaves in `size` and `alignment`.
  pub record IsLaidOut (s s' : StructType) : Type 0 where
    pub hi : ℕ
    pub layout : CLayout s.fields s'.fields 0 hi
    pub largest : s'.alignment ≡ max_alignment 0 s.fields
    pub large_enough : hi ≤ s'.size
    pub no_larger : s'.size < hi + s'.alignment
    pub aligned : s'.size % s'.alignment ≡ 0
    pub same_packing : s'.is_packed ≡ s.is_packed
    pub same_instance : s'.instance_created ≡ s.instance_created

  max_alignment-positive :
      (fields : Fields) → fields ≢ end → AllRegular fields → 0 < max_alignment 0 fields
  max_alignment-positive end h r = absurd (h refl)
  max_alignment-positive (field n type x rest) h ((align, r), others) =
      omega (arith, max_alignment-le (max 0 (field_alignment p type)) rest, r.positive, r.asked)

  -- `recalc` of a struct that is not packed returns, and lays the fields out as a C compiler does:
  -- in order, each at the first multiple of its alignment behind the one before it, an array as so
  -- many elements without gaps; the struct has the largest alignment of a field, and its size is the
  -- first multiple of that behind the last field. There is a field, and every field has a regular
  -- type, which no pointer to a fixed-length array is.
  pub recalc-IsLaidOut :
      (s : StructType)
      → s.is_packed ≡ false
      → s.fields ≢ end
      → AllRegular s.fields
      → (s' : StructType) × (recalc p s ≡ ok s') × IsLaidOut s s'
  unfolding recalc
  recalc-IsLaidOut s unpacked some_field regular =
      let (placed, hi, returns, layout) = place_fields_lem s.fields 0 regular in
      let align = max_alignment 0 s.fields in
      let positive = max_alignment-positive s.fields some_field regular in
      let total = hi + pad align hi in
      (
        record s { fields = placed; size = total; alignment = align },
        ground (arith, returns, struct_alignment_lem 0 s.fields, final_size-pad hi align positive),
        record {
          hi = hi;
          layout = layout;
          largest = refl;
          large_enough = omega arith;
          no_larger = omega (arith, pad_lt align hi positive);
          aligned = pad_aligned align hi positive;
          same_packing = refl;
          same_instance = refl;
        },
      )
