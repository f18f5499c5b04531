-- ===== src/Examples/Numbers.antt =====
-- The accessors of numbers on a memory whose byte at each address is the address's low byte.
use js_ffi_cross.Base.{◌%◌, ◌≡◌, refl, arith, pos, negsuc, true, false, [], ◌∷◌}
use js_ffi_cross.Base.Result.{ok, err, value_out_of_bounds}
use js_ffi_cross.Scalar.{number, bigint}
use js_ffi_cross.Memory.{Memory, Buffer, IsBytes}
use js_ffi_cross.Codec.Positional.{load, store}
use js_ffi_cross.Codec.ReadLaws.{Reads, Reads64}
use js_ffi_cross.Codec.WriteLaws.{Writes, Writes64}
use js_ffi_cross.Accessors.Endian.{le, be}
use js_ffi_cross.Accessors.Getters.{get_functions_generate, get_char}
use js_ffi_cross.Accessors.Setters.{set_functions_generate, set_char}
use js_ffi_cross.Accessors.Positional.{
  two, four, get_number-positional, get_bigint-positional, set_number-positional,
  set_bigint-positional,
}
use js_ffi_cross.Accessors.RoundTrip.{RoundTrips, get-set_number, get-set_bigint}
use js_ffi_cross.Accessors.Special.{Throws, set_bigint-Throws, char_not_writable}

abbrev ramp : Memory
ramp q = q % 256

ramp-IsBytes : IsBytes ramp
ramp-IsBytes q = omega arith

abbrev buf : Buffer
buf = record { address = 32; length = 16; room = 16 }

get-set_number_example :
    RoundTrips
      ((set_functions_generate le false false 2).set ramp buf (number (negsuc 1)) (pos 2))
      (λ after. (get_functions_generate le false false 2).get after buf (pos 2))
      ramp
      34
      2
      4
      (number (negsuc 1))
get-set_number_example =
    get-set_number le false ramp buf (negsuc 1) (pos 2) two ramp-IsBytes refl (omega arith)

get-set_bigint_example :
    RoundTrips
      ((set_functions_generate be true false 8).set ramp buf (bigint (negsuc 4)) (pos 8))
      (λ after. (get_functions_generate be true false 8).get after buf (pos 8))
      ramp
      40
      8
      16
      (bigint (negsuc 4))
get-set_bigint_example =
    get-set_bigint be false ramp buf (negsuc 4) (pos 8) (omega arith) refl (omega arith)

get_number-positional_example :
    Reads true 4
      (load be 4 ramp)
      buf
      3
      ((get_functions_generate be false true 4).get ramp buf (pos 3))
get_number-positional_example = get_number-positional ramp buf (pos 3) be true four ramp-IsBytes

get_bigint-positional_example :
    Reads64 false
      (load le 8 ramp)
      buf
      9
      ((get_functions_generate le true false 8).get ramp buf (pos 9))
get_bigint-positional_example = get_bigint-positional ramp buf (pos 9) le false (omega arith)

set_number-positional_example :
    Writes false 4
      (store le 4 ramp)
      buf
      (negsuc 69)
      12
      ((set_functions_generate le false false 4).set ramp buf (number (negsuc 69)) (pos 12))
set_number-positional_example = set_number-positional ramp buf (negsuc 69) (pos 12) le false four

set_bigint-positional_example :
    Writes64 true
      (store be 8 ramp)
      buf
      (pos 1000)
      0
      ((set_functions_generate be true true 8).set ramp buf (bigint (pos 1000)) (pos 0))
set_bigint-positional_example =
    set_bigint-positional ramp buf (pos 1000) (pos 0) be true (omega arith)

set_bigint-Throws_example :
    Throws ((set_functions_generate le false false 4).set_bigint ramp buf (bigint (pos 5)) (pos 0))
set_bigint-Throws_example = set_bigint-Throws le false false four ramp buf (bigint (pos 5)) (pos 0)

abbrev high : Buffer
high = record { address = 200; length = 4; room = 4 }

char_not_writable_example :
    (get_char ramp high (pos 1) ≡ ok (201 ∷ []))
    × (set_char false ramp high (201 ∷ []) (pos 1) ≡ err value_out_of_bounds)
char_not_writable_example =
    char_not_writable ramp high (pos 1) 201 [] refl (omega arith) (omega arith)
