-- ===== src/Accessors/Getters.antt =====
-- `getFunctionsGenerate`, and the getters of `bool` and `char` in `overrideGetSetFunctions`.
use js_ffi_cross.Base.{
  ℕ, zero, suc, ◌+◌, ◌*◌, ◌/◌, ◌%◌, ◌^◌, ℤ, pos, negsuc, Bool, true, false, Option, none, some,
  List, [], ◌∷◌, ltb, ◌==◌, if◌then◌else◌, negate,
}
use js_ffi_cross.Base.Result.{Result, ok, err, ◌>>=◌, not_a_function}
use js_ffi_cross.Scalar.{Scalar, boolean, number, bigint, bigint_of}
use js_ffi_cross.Memory.{Memory, Buffer}
use js_ffi_cross.Codec.Read
use js_ffi_cross.Accessors.Endian.{
  Endian, Getter, read_uint16, read_uint32, read_big_uint64, read_int16, read_int32, read_big_int64,
}

-- `buffer["readUInt" + size * 8]` and `buffer["readInt" + size * 8]`; `none` is `undefined`.
unfoldable pub read_function_number : Endian → Bool → ℕ → Option Getter
read_function_number e unsigned size =
    if size == 1
    then some (
        if unsigned then (λ m b o. Read.read_uint8 m b o false) else λ m b o.
        Read.read_int8 m b o false)
    else if size == 2
    then some (if unsigned then read_uint16 e else read_int16 e)
    else if size == 4
    then some (if unsigned then read_uint32 e else read_int32 e)
    else none

-- `buffer["readBigUInt" + size * 8]` and `buffer["readBigInt" + size * 8]`.
unfoldable pub read_function_bigint : Endian → Bool → ℕ → Option Getter
read_function_bigint e unsigned size =
    if size == 8 then some (if unsigned then read_big_uint64 e else read_big_int64 e) else none

-- The call of a function that may be `undefined`.
abbrev pub call : Option Getter → Getter
call none m buf offset = err not_a_function
call (some f) m buf offset = f m buf offset

-- `Number(n)` of a BigInt: the nearest double, ties to even. It is exact up to 53 bits; a longer
-- number is cut to 53 by halving, at most `fuel` times, and 12 halvings serve 64 bits.
half_even : ℕ → ℕ → ℕ
half_even n unit =
    let q = n / unit in
    let r = n % unit in
    if ltb unit (2 * r)
    then (q + 1) * unit
    else if (2 * r == unit)
    then (q + q % 2) * unit
    else q * unit

round_from : ℕ → ℕ → ℕ → ℕ
unfolding half_even
round_from zero n unit = half_even n unit
round_from (suc fuel) n unit =
    let longer = round_from fuel n (unit * 2) in
    if ltb (n / unit) (2 ^ 53) then half_even n unit else longer

unfoldable pub number_of_bigint : ℤ → ℤ
unfolding round_from
number_of_bigint (pos n) = pos (round_from 12 n 1)
number_of_bigint (negsuc n) = negate (pos (round_from 12 (suc n) 1))

abbrev pub to_number : Scalar → Scalar
to_number (bigint n) = number (number_of_bigint n)
to_number value = value

pub record GetFunctions : Type 0 where
  pub get : Getter
  pub get_number : Getter
  pub get_bigint : Getter

-- `max_size_is_8` asks for BigInts.
unfoldable pub get_functions_generate : Endian → Bool → Bool → ℕ → GetFunctions
get_functions_generate e max_size_is_8 unsigned size =
    let read_number = read_function_number e unsigned size in
    let read_bigint = read_function_bigint e unsigned size in
    let get_number : Getter = elim read_number [
      | some f ↦ f
      | none ↦ λ m buf offset. (call read_bigint m buf offset >>= λ v. ok (to_number v))
    ] in
    let get_bigint : Getter = elim read_bigint [
      | some f ↦ f
      | none ↦ λ m buf offset.
          (call read_number m buf offset >>= λ v. (bigint_of v >>= λ n. ok (bigint n)))
    ] in
    record {
      get = if max_size_is_8 then get_bigint else get_number;
      get_number = get_number;
      get_bigint = get_bigint;
    }

-- `getFunctionOld(buf, offset) !== 0`
abbrev is_not_zero : Scalar → Bool
is_not_zero (number (pos zero)) = false
is_not_zero _ = true

unfoldable pub get_bool : GetFunctions → Getter
get_bool old m buf offset = do value ← old.get m buf offset; ok (boolean (is_not_zero value))

-- `String.fromCodePoint(charCode)`: a string of one code unit, for a byte.
abbrev code_of : Scalar → List ℕ
code_of (number (pos c)) = c ∷ []
code_of _ = []

unfoldable pub get_char : Memory → Buffer → ℤ → Result (List ℕ)
get_char m buf offset = do code ← Read.read_uint8 m buf offset false; ok (code_of code)
