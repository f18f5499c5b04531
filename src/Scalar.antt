-- ===== src/Scalar.antt =====
-- The JavaScript primitives that pass through the integer codecs of lib/ref/buffer.js and the
-- getters and setters of lib/ref/ref.js. Numbers are integral or NaN; a fraction, an infinity and a
-- string are not modelled.
use js_ffi_cross.Base.{ℕ, ℤ, pos, Bool, true, false, Option, none, some}
use js_ffi_cross.Base.Result.{Result, ok, err, bigint_to_number, number_to_bigint, bad_bigint_index}
use js_ffi_cross.Word.{to_uint32}

pub data Scalar : Type 0 where
  undefined null nan : Scalar
  boolean : Bool → Scalar
  number : ℤ → Scalar
  bigint : ℤ → Scalar

abbrev pub of_bool : Bool → ℤ
of_bool true = pos 1
of_bool false = pos 0

-- `+value`; `none` is NaN.
abbrev pub unary_plus : Scalar → Result (Option ℤ)
unary_plus undefined = ok none
unary_plus null = ok (some (pos 0))
unary_plus nan = ok none
unary_plus (boolean b) = ok (some (of_bool b))
unary_plus (number n) = ok (some n)
unary_plus (bigint n) = err bigint_to_number

-- The bits that `&` and `>>>` see; NaN counts as 0.
abbrev pub word : Option ℤ → ℕ
word none = 0
word (some n) = to_uint32 n

-- ToBigInt, which DataView's setters and `BigInt.asUintN` apply.
abbrev pub to_bigint : Scalar → Result ℤ
to_bigint (boolean b) = ok (of_bool b)
to_bigint (bigint n) = ok n
to_bigint _ = err number_to_bigint

-- `BigInt(value)`: an integral Number is taken too.
abbrev pub bigint_of : Scalar → Result ℤ
bigint_of (number n) = ok n
bigint_of nan = err bad_bigint_index
bigint_of value = to_bigint value
