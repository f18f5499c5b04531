-- ===== src/Examples/Machine.antt =====
-- A machine for the examples: eight-byte pointers, little-endian, and texts whose code points are
-- their bytes.
use js_ffi_cross.Base.{◌+◌, ◌*◌, ◌%◌, [], length}
use js_ffi_cross.Base.Result.{ok, not_a_function}
use js_ffi_cross.Scalar.{undefined}
use js_ffi_cross.Memory.{Buffer}
use js_ffi_cross.Value.{other_object, double, no_property}
use js_ffi_cross.Accessors.Endian.{le}
use js_ffi_cross.World.{World, Host, raise}
use js_ffi_cross.Access.{Composite}

abbrev pub machine : Host
machine = record {
  platform = record { sizeof_pointer = 8; alignof_pointer = 8 };
  endian = le;
  place = λ allocated n. 4096 + 64 * length allocated;
  room = λ a n. n;
  to_scalar = λ v. undefined;
  encode = λ t. t;
  encode_within = λ n t. t;
  decode = λ bytes. bytes;
  float_of_bits = λ is_double bits. double bits;
  bits_of_float = λ is_double v. ok 0;
  read_object = λ m a. ok (other_object a);
  array_own = λ type store. no_property;
  array_inherited = λ type store. no_property;
  max_length = 100;
}

-- No struct, union or array types.
abbrev pub no_composite : Composite
no_composite = record {
  get = λ type buf o. raise not_a_function;
  set = λ type buf value o. raise not_a_function;
}

-- A byte at each address that is the address's low one, with nothing allocated.
abbrev pub ramp_world : World
ramp_world = record { memory = λ q. q % 256; allocated = [] }

abbrev pub small_buffer : Buffer
small_buffer = record { address = 32; length = 16; room = 16 }
