-- ===== src/CType/Coerce.antt =====
-- `refType`, `derefType` and `coerceType` of lib/ref/ref.js.
use js_ffi_cross.Base.{ℕ, zero, suc, ◌-◌, Option, none, some, List, [], ◌∷◌, ◌==◌, if◌then◌else◌}
use js_ffi_cross.Base.Result.{
  Result, ok, err, ◌>>=◌, throw_if, ◌>>◌, no_proper_type, deref_of_indirection_one,
}
use js_ffi_cross.CType.{CType, ref_of, deref_of, indirection}
use js_ffi_cross.Text.{Text, codes, text_eq, strip_spaces, to_lower_case, strip_stars, count_stars}

-- What a caller passes where a type is expected: a text, a type object, or anything else.
pub data TypeSpec : Type 0 where
  named : Text → TypeSpec
  typed : CType → TypeSpec
  other : TypeSpec

abbrev pub Types : Type 0
Types = List (Text × CType)

-- `types[name]`. The table's own keys alone are modelled.
unfoldable pub lookup : Text → Types → Option CType
lookup name [] = none
lookup name ((key, type) ∷ types) = if text_eq key name then some type else lookup name types

abbrev pub found : Option CType → Result CType
found none = err no_proper_type
found (some type) = ok type

-- `Object.getPrototypeOf(type).indirection`; `none` is `undefined`.
unfoldable pub prototype : CType → Option CType
prototype (ref_of type) = some type
prototype (deref_of type) = some type
prototype _ = none

-- The prototype serves where its indirection is one less; else a fresh clone does.
abbrev pub or_slow : CType → Option CType → CType
or_slow type none = deref_of type
or_slow type (some proto) =
    if indirection proto == (indirection type - 1) then proto else deref_of type

-- `derefType` of a type object.
unfoldable pub deref_type : CType → Result CType
unfolding prototype
deref_type type =
    throw_if (indirection type == 1) deref_of_indirection_one >> ok (or_slow type (prototype type))

-- `refType` of a type object, so many times.
unfoldable pub ref_times : ℕ → CType → CType
ref_times zero type = type
ref_times (suc n) type = ref_times n (ref_of type)

module _ (types : Types) where
  -- A name that is no key as it stands, after its spaces and capitals are gone.
  unfoldable pub coerce_stripped : Text → Result CType
  coerce_stripped name =
      if text_eq name (codes "pointer")
      then (do void ← found (lookup (codes "void") types); ok (ref_of void))
      else if text_eq name (codes "string")
      then found (lookup (codes "CString") types)
      else (do
        type ← found (lookup (strip_stars name) types)
        ok (ref_times (count_stars name) type))

  abbrev pub or_else : Option CType → Result CType → Result CType
  or_else none rest = rest
  or_else (some type) rest = ok type

  -- Every value of the model's `CType` has a `size` and an `indirection`.
  unfoldable pub coerce_type : TypeSpec → Result CType
  unfolding coerce_stripped
  coerce_type (named name) =
      or_else (lookup name types) (coerce_stripped (to_lower_case (strip_spaces name)))
  coerce_type (typed type) = ok type
  coerce_type other = err no_proper_type

  unfoldable pub ref_type : TypeSpec → Result CType
  unfolding coerce_type
  ref_type spec = do type ← coerce_type spec; ok (ref_of type)
