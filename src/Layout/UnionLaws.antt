-- ===== src/Layout/UnionLaws.antt =====
-- `recalc` of lib/ref/union.js: size and alignment.
use js_ffi_cross.Base.{
  ℕ, zero, suc, ◌+◌, ◌%◌, ◌≤◌, ◌<◌, ◌≡◌, ◌≢◌, refl, max, arith, ◌⊎◌, inl, inr, Option, none, some,
  sym, ◌∙◌,
}
use js_ffi_cross.CType.{CType, Fields, end, field, Platform, alignment}
use js_ffi_cross.Layout.Struct.{field_alignment, own_size, truthy_or}
use js_ffi_cross.Layout.Union.{UnionType, measure, recalc}
use js_ffi_cross.Layout.Align.{pad_lt, pad_aligned}
use js_ffi_cross.Layout.StructLaws.{final_size-pad}

max_cases : (a b : ℕ) → (max a b ≡ a) ⊎ (max a b ≡ b)
max_cases a b = grind arith

truthy_or-positive : (o : Option ℕ) (n : ℕ) → 0 < n → 0 < truthy_or o n
truthy_or-positive none n h = h
truthy_or-positive (some zero) n h = h
truthy_or-positive (some (suc m)) n h = omega arith

module _ (p : Platform) where
  -- Every member's size and alignment are at most these.
  abbrev pub AllWithin : Fields → ℕ → ℕ → Type 0
  AllWithin end size align = Unit
  AllWithin (field n type x rest) size align =
      (own_size p type ≤ size) × (field_alignment p type ≤ align) × AllWithin rest size align

  -- Some member has this size, and some member this alignment.
  abbrev pub SizeOfOne : Fields → ℕ → Type 0
  SizeOfOne end size = ⊥
  SizeOfOne (field n type x rest) size = (own_size p type ≡ size) ⊎ SizeOfOne rest size

  abbrev pub AlignmentOfOne : Fields → ℕ → Type 0
  AlignmentOfOne end align = ⊥
  AlignmentOfOne (field n type x rest) align =
      (field_alignment p type ≡ align) ⊎ AlignmentOfOne rest align

  measure_grows :
      (fields : Fields) (align size : ℕ)
      → (align ≤ (measure p fields align size).0) × (size ≤ (measure p fields align size).1)
  unfolding measure
  measure_grows end align size = omega arith
  measure_grows (field n type x rest) align size =
      omega (
        arith,
        measure_grows rest (max align (field_alignment p type)) (max size (own_size p type)),
      )

  measure-AllWithin :
      (fields : Fields) (align size : ℕ)
      → AllWithin fields (measure p fields align size).1 (measure p fields align size).0
  unfolding measure
  measure-AllWithin end align size = tt
  measure-AllWithin (field n type x rest) align size =
      let grows =
        measure_grows rest (max align (field_alignment p type)) (max size (own_size p type)) in
      (
        omega (arith, grows.1),
        omega (arith, grows.0),
        measure-AllWithin rest (max align (field_alignment p type)) (max size (own_size p type)),
      )

  measure_size :
      (fields : Fields) (align size : ℕ)
      → ((measure p fields align size).1 ≡ size) ⊎ SizeOfOne fields (measure p fields align size).1
  unfolding measure
  measure_size end align size = inl refl
  measure_size (field n type x rest) align size =
      elim (measure_size rest (max align (field_alignment p type)) (max size (own_size p type))) [
        | inl e ↦ elim (max_cases size (own_size p type)) [
          | inl f ↦ inl (e ∙ f)
          | inr f ↦ inr (inl (sym (e ∙ f)))
        ]
        | inr later ↦ inr (inr later)
      ]

  measure_alignment :
      (fields : Fields) (align size : ℕ)
      → ((measure p fields align size).0 ≡ align)
        ⊎ AlignmentOfOne fields (measure p fields align size).0
  unfolding measure
  measure_alignment end align size = inl refl
  measure_alignment (field n type x rest) align size =
      elim (measure_alignment rest (max align (field_alignment p type))
        (max size (own_size p type))) [
          | inl e ↦ elim (max_cases align (field_alignment p type)) [
            | inl f ↦ inl (e ∙ f)
            | inr f ↦ inr (inl (sym (e ∙ f)))
          ]
          | inr later ↦ inr (inr later)
        ]

  pub field_alignment-positive : (type : CType) → 0 < p.alignof_pointer → 0 < field_alignment p type
  unfolding field_alignment
  field_alignment-positive type h =
      ground (arith, truthy_or-positive (alignment p type) p.alignof_pointer h)

  -- The bounds are reached: a zero bound by any member.
  reached_size :
      (fields : Fields) (size align : ℕ)
      → fields ≢ end
      → AllWithin fields size align
      → (size ≡ 0) ⊎ SizeOfOne fields size
      → SizeOfOne fields size
  reached_size end size align h w d = absurd (h refl)
  reached_size (field n type x rest) size align h w (inl e) = inl (omega (arith, w.0))
  reached_size (field n type x rest) size align h w (inr one) = one

  reached_alignment :
      (fields : Fields) (size align : ℕ)
      → 0 < p.alignof_pointer
      → fields ≢ end
      → AllWithin fields size align
      → (align ≡ 0) ⊎ AlignmentOfOne fields align
      → (0 < align) × AlignmentOfOne fields align
  reached_alignment end size align pointer h w d = absurd (h refl)
  reached_alignment (field n type x rest) size align pointer h w (inl e) =
      absurd (omega (arith, w.1, field_alignment-positive type pointer))
  reached_alignment (field n type x rest) size align pointer h w (inr one) =
      (omega (arith, w.1, field_alignment-positive type pointer), one)

  -- A union's size holds every member and is the first multiple of its alignment behind the largest
  -- one; its alignment is the largest of a member. There is a member, and pointers have a positive
  -- alignment.
  pub recalc_union :
      (u : UnionType)
      → u.fields ≢ end
      → 0 < p.alignof_pointer
      → (largest : ℕ) × SizeOfOne u.fields largest
        × AllWithin u.fields largest (recalc p u).alignment
        × AlignmentOfOne u.fields (recalc p u).alignment
        × (largest ≤ (recalc p u).size)
        × ((recalc p u).size < largest + (recalc p u).alignment)
        × ((recalc p u).size % (recalc p u).alignment ≡ 0)
        × ((recalc p u).fields ≡ u.fields)
  unfolding recalc
  recalc_union u some_member pointer =
      let within = measure-AllWithin u.fields 0 0 in
      let (align, largest) = measure p u.fields 0 0 in
      let (positive, of_one) =
        reached_alignment u.fields largest align pointer some_member within
          (measure_alignment u.fields 0 0) in
      (
        largest,
        reached_size u.fields largest align some_member within (measure_size u.fields 0 0),
        within,
        of_one,
        omega (arith, final_size-pad p largest align positive),
        omega (arith, final_size-pad p largest align positive, pad_lt align largest positive),
        rw (final_size-pad p largest align positive) (pad_aligned align largest positive),
        refl,
      )
