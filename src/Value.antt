-- ===== src/Value.antt =====
-- The JavaScript values that pass through `get` and `set` of types. A Number that is no integer is
-- given by its 64 bits. A Buffer carries the `type` that was put on it, and an instance of a struct,
-- union or array type its type and its backing buffer.
use js_ffi_cross.Base.{ℕ, Option}
use js_ffi_cross.Scalar.{Scalar}
use js_ffi_cross.Memory.{Buffer}
use js_ffi_cross.Text.{Text}
use js_ffi_cross.CType.{CType}
use js_ffi_cross.CType.Coerce.{TypeSpec}

mutual
  pub data Value : Type 0 where
    scalar : Scalar → Value
    double : ℕ → Value
    text : Text → Value
    reference : Buffer → Option TypeSpec → Value
    instance_of : CType → Buffer → Value
    object : Properties → Value
    elements : Values → Value
    other_object : ℕ → Value

  -- The enumerable properties of an object that is no instance, in the order of enumeration.
  pub data Properties : Type 0 where
    no_property : Properties
    property : Text → Value → Properties → Properties

  -- The elements of an Array.
  pub data Values : Type 0 where
    no_value : Values
    value : Value → Values → Values

-- A Buffer with its `type` property; `none` is `undefined`.
pub record TypedBuffer : Type 0 where
  pub view : Buffer
  pub type : Option TypeSpec
