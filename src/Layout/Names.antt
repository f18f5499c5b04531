-- ===== src/Layout/Names.antt =====
-- The names of the fields that `defineProperty` of lib/ref/struct.js lets through.
use js_ffi_cross.Base.{◌≡◌, refl, ◌∙◌, arith, false, ◌||◌}
use js_ffi_cross.Text.Laws.{text_eq_sym}
use js_ffi_cross.Text.{Text, text_eq}
use js_ffi_cross.CType.{CType, Fields, end, field}
use js_ffi_cross.Layout.Struct.{reserved, is_among, has_field, add_field}

-- No two fields have one name, and none has a reserved one.
abbrev pub IsDistinct : Fields → Type 0
IsDistinct end = Unit
IsDistinct (field n type offset rest) =
    (has_field n rest ≡ false) × (is_among n reserved ≡ false) × IsDistinct rest

has_field-add_field :
    (n name : Text) (type : CType) (fields : Fields)
    → has_field n (add_field name type fields) ≡ (has_field n fields || text_eq name n)
unfolding has_field add_field
has_field-add_field n name type end = ground arith
has_field-add_field n name type (field k t offset rest) =
    ground (arith, has_field-add_field n name type rest)

pub add_field-IsDistinct :
    (name : Text) (type : CType) (fields : Fields)
    → has_field name fields ≡ false
    → is_among name reserved ≡ false
    → IsDistinct fields
    → IsDistinct (add_field name type fields)
unfolding has_field add_field
add_field-IsDistinct name type end fresh free h = (refl, free, tt)
add_field-IsDistinct name type (field n t offset rest) fresh free (alone, allowed, others) =
    let other : text_eq n name ≡ false = ground arith in
    let further : has_field name rest ≡ false = ground arith in
    (
      has_field-add_field n name type rest ∙ ground (arith, text_eq_sym name n),
      allowed,
      add_field-IsDistinct name type rest further free others,
    )

-- The fields' names are those of the fields before.
abbrev pub SameNames : Fields → Fields → Type 0
SameNames end end = Unit
SameNames (field n t x rest) (field n' t' x' rest') = (n' ≡ n) × (t' ≡ t) × SameNames rest rest'
SameNames _ _ = ⊥

has_field-SameNames :
    (name : Text) (fields fields' : Fields)
    → SameNames fields fields'
    → has_field name fields' ≡ has_field name fields
unfolding has_field
has_field-SameNames name end end h = refl
has_field-SameNames name end (field n t x rest) h = elim h [ ]
has_field-SameNames name (field n t x rest) end h = elim h [ ]
has_field-SameNames name (field n t x rest) (field n' t' x' rest') (e, f, h) =
    rw (e, has_field-SameNames name rest rest' h) refl

pub IsDistinct-SameNames :
    (fields fields' : Fields) → SameNames fields fields' → IsDistinct fields → IsDistinct fields'
IsDistinct-SameNames end end h d = tt
IsDistinct-SameNames end (field n t x rest) h d = elim h [ ]
IsDistinct-SameNames (field n t x rest) end h d = elim h [ ]
IsDistinct-SameNames (field n t x rest) (field n' t' x' rest') (e, f, h) (alone, allowed, others) =
    (
      rw e (has_field-SameNames n rest rest' h ∙ alone),
      rw e allowed,
      IsDistinct-SameNames rest rest' h others,
    )
