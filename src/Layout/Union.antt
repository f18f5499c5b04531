-- ===== src/Layout/Union.antt =====
-- `Union`, `defineProperty` and `recalc` of lib/ref/union.js.
use js_ffi_cross.Base.{ℕ, max, Bool, false, ◌||◌, List, [], ◌∷◌}
use js_ffi_cross.Base.Result.{
  Result, ok, ◌>>=◌, ◌>>◌, throw_if, instance_already_created, field_already_exists,
}
use js_ffi_cross.Text.{Text, codes}
use js_ffi_cross.CType.{CType, Fields, end, field, union, Platform}
use js_ffi_cross.CType.Coerce.{Types, TypeSpec, coerce_type}
use js_ffi_cross.Layout.Struct.{
  add_field, field_alignment, final_size, has_field, is_among, own_size,
}

pub record UnionType : Type 0 where
  pub fields : Fields
  pub size : ℕ
  pub alignment : ℕ
  pub instance_created : Bool

abbrev pub as_type : UnionType → CType
as_type u = union u.size u.alignment u.fields

-- The names on `proto` and on Object.prototype, which no field may have.
abbrev pub reserved : List Text
reserved =
    codes "ref.buffer"
    ∷ codes "refOverride"
    ∷ codes "constructor"
    ∷ codes "toString"
    ∷ codes "toLocaleString"
    ∷ codes "valueOf"
    ∷ codes "hasOwnProperty"
    ∷ codes "isPrototypeOf"
    ∷ codes "propertyIsEnumerable"
    ∷ codes "__proto__"
    ∷ codes "__defineGetter__"
    ∷ codes "__defineSetter__"
    ∷ codes "__lookupGetter__"
    ∷ codes "__lookupSetter__"
    ∷ []

module _ (p : Platform) where
  -- The loop of `recalc`: the alignment and the size so far.
  unfoldable pub measure : Fields → ℕ → ℕ → ℕ × ℕ
  unfolding field_alignment own_size
  measure end align size = (align, size)
  measure (field n type offset rest) align size =
      measure rest (max align (field_alignment p type)) (max size (own_size p type))

  unfoldable pub recalc : UnionType → UnionType
  unfolding measure final_size
  recalc u =
      let (align, size) = measure u.fields 0 0 in
      record u { size = final_size p size align; alignment = align }

  module _ (types : Types) where
    unfoldable pub define_property : Text → TypeSpec → UnionType → Result UnionType
    unfolding coerce_type is_among has_field add_field recalc
    define_property name spec u = do
      type ← coerce_type types spec
      throw_if u.instance_created instance_already_created
      throw_if (is_among name reserved || has_field name u.fields) field_already_exists
      ok (recalc (record u { fields = add_field name type u.fields }))

    unfoldable pub define_all : List (Text × TypeSpec) → UnionType → Result UnionType
    unfolding define_property
    define_all [] u = ok u
    define_all ((name, spec) ∷ rest) u = do u' ← define_property name spec u; define_all rest u'

    unfoldable pub new_union : List (Text × TypeSpec) → Result UnionType
    unfolding define_all
    new_union fields =
        define_all fields
          (record { fields = end; size = 0; alignment = 0; instance_created = false })
