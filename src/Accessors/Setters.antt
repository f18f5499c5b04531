-- ===== src/Accessors/Setters.antt =====
-- `setFunctionsGenerate`, and the setters of `bool` and `char` in `overrideGetSetFunctions`.
use js_ffi_cross.Base.{
  ℕ, ◌-◌, ◌^◌, ℤ, pos, negsuc, Bool, true, false, Option, none, some, List, [], ◌∷◌, ltb, ◌==◌,
  if◌then◌else◌,
}
use js_ffi_cross.Base.Result.{
  Result, ok, err, ◌>>=◌, bigint_to_number, number_to_bigint, bad_bigint_index, not_a_function,
}
use js_ffi_cross.Word.{signed32}
use js_ffi_cross.Scalar.{Scalar, nan, number, bigint, unary_plus, word, bigint_of}
use js_ffi_cross.Memory.{Memory, Buffer}
use js_ffi_cross.Codec.Write
use js_ffi_cross.Accessors.Endian.{
  Endian, Setter, write_uint16, write_uint32, write_big_uint64, write_int16, write_int32,
  write_big_int64,
}

unfoldable pub write_function_number : Endian → Bool → ℕ → Option Setter
write_function_number e unsigned size =
    if size == 1
    then some (
        if unsigned then (λ m b v o. Write.write_uint8 m b v o false) else λ m b v o.
        Write.write_int8 m b v o false)
    else if size == 2
    then some (if unsigned then write_uint16 e else write_int16 e)
    else if size == 4
    then some (if unsigned then write_uint32 e else write_int32 e)
    else none

unfoldable pub write_function_bigint : Endian → Bool → ℕ → Option Setter
write_function_bigint e unsigned size =
    if size == 8 then some (if unsigned then write_big_uint64 e else write_big_int64 e) else none

abbrev pub call : Option Setter → Setter
call none m buf val offset = err not_a_function
call (some f) m buf val offset = f m buf val offset

-- `BigInt.asUintN(val, 32)` and `BigInt.asIntN(val, 32)`: the language reads `val` as the number of
-- bits, by ToIndex, and 32 as the BigInt, by ToBigInt.
abbrev pub as_n : Scalar → Result ℤ
as_n (bigint n) = err bigint_to_number
as_n (number (negsuc n)) = err bad_bigint_index
as_n (number (pos n)) = if ltb (2 ^ 53 - 1) n then err bad_bigint_index else err number_to_bigint
as_n _ = err number_to_bigint

pub record SetFunctions : Type 0 where
  pub set : Setter
  pub set_numeric : Setter
  pub set_number : Setter
  pub set_bigint : Setter

abbrev numeric : Setter → Setter → Setter
numeric by_bigint by_number m buf (bigint n) offset = by_bigint m buf (bigint n) offset
numeric by_bigint by_number m buf val offset = by_number m buf val offset

unfoldable pub set_functions_generate : Endian → Bool → Bool → ℕ → SetFunctions
set_functions_generate e max_size_is_8 unsigned size =
    let write_number = write_function_number e unsigned size in
    let write_bigint = write_function_bigint e unsigned size in
    let set_number : Setter = elim write_number [
      | some f ↦ f
      | none ↦
          λ m buf val offset. (bigint_of val >>= λ n. call write_bigint m buf (bigint n) offset)
    ] in
    let set_bigint : Setter = elim write_bigint [
      | some f ↦ f
      | none ↦ λ m buf val offset. (as_n val >>= λ n. call write_number m buf (bigint n) offset)
    ] in
    record {
      set = if max_size_is_8 then set_bigint else set_number;
      set_numeric = numeric set_bigint set_number;
      set_number = set_number;
      set_bigint = set_bigint;
    }

-- `val | 0`
abbrev or_zero : Scalar → Result Scalar
or_zero val = do v ← unary_plus val; ok (number (signed32 (word v)))

unfoldable pub set_bool : SetFunctions → Setter
set_bool old m buf val offset = do v ← or_zero val; old.set m buf v offset

-- `val.charCodeAt(0)` of a string given by its code units.
abbrev char_code_at_zero : List ℕ → Scalar
char_code_at_zero [] = nan
char_code_at_zero (c ∷ rest) = number (pos c)

unfoldable pub set_char : Bool → Memory → Buffer → List ℕ → ℤ → Result (Memory × ℕ)
set_char true m buf val offset = Write.write_uint8 m buf (char_code_at_zero val) offset false
set_char false m buf val offset = Write.write_int8 m buf (char_code_at_zero val) offset false
