-- ===== src/Examples/Foreigns.antt =====
-- Calls of foreign functions on the example machine.
use js_ffi_cross.Base.{
  suc, ◌<◌, ◌≤◌, ◌≡◌, refl, arith, pos, negsuc, true, false, none, List, [], ◌∷◌,
}
use js_ffi_cross.Base.Result.{ok}
use js_ffi_cross.Scalar.{number, bigint}
use js_ffi_cross.Memory.{Buffer}
use js_ffi_cross.CType.{CType, ref_of, size}
use js_ffi_cross.Value.{Value, scalar}
use js_ffi_cross.Accessors.Positional.{two, four}
use js_ffi_cross.World.{World}
use js_ffi_cross.FfiType.{builtin, nothing}
use js_ffi_cross.Access.{value_size}
use js_ffi_cross.Access.Alloc.{narrow, eight, integer_type}
use js_ffi_cross.Foreign.{Libffi, Proxy, result_size, call_proxy}
use js_ffi_cross.Callbacks.{read_arguments}
use js_ffi_cross.Callbacks.Arguments.{integer-IsDirect, read_arguments-Marshalled}
use js_ffi_cross.Foreign.Bounds.{result_size-fits}
use js_ffi_cross.Foreign.Marshal.{AllMarshal, Placed, Marshalled, Writes}
use js_ffi_cross.Foreign.Integers.{integer-Marshals}
use js_ffi_cross.Foreign.Calls.{written, args_list, call_proxy-Marshalled, call_and_read, ready}
use js_ffi_cross.CType.{ffi_int32}
use js_ffi_cross.Examples.Machine.{machine, no_composite, ramp_world, small_buffer}

-- A library whose functions do nothing, where a `long` has eight bytes.
abbrev pub lp64 : Libffi
lp64 = record {
  sizeof_long = 8;
  ffi_arg_size = 8;
  is_function = λ v. false;
  call = λ cif f result args w. (ok tt, w);
}

abbrev short : CType
short = integer_type none none none false (narrow two)

abbrev int : CType
int = integer_type none none none false (narrow four)

abbrev long : CType
long = integer_type none none none false eight

result_size-fits_example :
    (8 ≤ result_size machine no_composite [] lp64 short)
    × (value_size machine no_composite [] short ≤ result_size machine no_composite [] lp64 short)
result_size-fits_example = result_size-fits machine no_composite [] lp64 short refl (omega arith)

int_size : (4 ≤ size machine.platform (ref_of int)) × (size machine.platform (ref_of int) < 8)
unfolding size
int_size = omega arith

abbrev proxy : Proxy
proxy = record {
  cif = record {
    fixed_args = none;
    num_args = 2;
    rtn_type = builtin ffi_int32;
    arg_bytes = 16;
    arg_types = nothing;
    abi = 2;
  };
  func_ptr = small_buffer;
  return_type = int;
  arg_types = short ∷ long ∷ [];
  result_size = 8;
  args_array_size = 16;
}

abbrev args : List Value
args = scalar (number (negsuc 1)) ∷ scalar (bigint (pos 7)) ∷ []

args-AllMarshal : AllMarshal machine no_composite [] proxy.arg_types args
args-AllMarshal = (
  integer-Marshals machine no_composite [] false (narrow two) (negsuc 1) none none none refl,
  (integer-Marshals machine no_composite [] false eight (pos 7) none none none refl, tt),
)

args-Placed :
    Placed machine no_composite []
      (ready machine no_composite [] lp64 proxy ramp_world).allocated
      proxy.arg_types
unfolding value_size size
args-Placed = (omega arith, (λ q taken. ground arith), (omega arith, (λ q taken. ground arith), tt))

call_proxy-Marshalled_example :
    (w' : World) × Marshalled machine no_composite [] w' 4160 0 (short ∷ long ∷ []) args
    × (call_proxy machine no_composite [] lp64 proxy args ramp_world
        ≡ call_and_read machine no_composite [] lp64 proxy ramp_world w')
call_proxy-Marshalled_example =
    call_proxy-Marshalled machine no_composite [] lp64 proxy ramp_world args args-AllMarshal
      (λ q. omega arith) refl (omega arith) (omega arith, omega arith) args-Placed

-- A library for which every value is a function.
abbrev callable : Libffi
callable = record lp64 { is_function = λ v. true }

-- The largest `long` and one.
abbrev too_large : Value
too_large = scalar (bigint (pos 9223372036854775808))

-- The arguments that the proxy writes.
proxied :
    Writes machine no_composite [] suc
      (args_list machine no_composite [] lp64 proxy ramp_world)
      0
      (short ∷ long ∷ [])
      args
      (ready machine no_composite [] lp64 proxy ramp_world)
proxied =
    written machine no_composite [] lp64 proxy ramp_world args args-AllMarshal (λ q. omega arith)
      refl (omega arith) (omega arith, omega arith) args-Placed

abbrev params : Buffer
params = record { address = 4160; length = 16; room = 16 }

read_arguments-Marshalled_example :
    read_arguments machine no_composite [] params 0 (short ∷ long ∷ []) proxied.after
    ≡ (ok args, proxied.after)
read_arguments-Marshalled_example =
    read_arguments-Marshalled machine no_composite [] params proxied.after proxied.is_bytes
      (λ a n. omega arith) 0 (short ∷ long ∷ []) args refl
      (
        integer-IsDirect machine no_composite [] none none none false (narrow two),
        (integer-IsDirect machine no_composite [] none none none false eight, tt),
      )
      (omega arith) (omega arith) proxied.marshalled
