-- ===== src/Foreign/Integers.antt =====
-- Integers as arguments of lib/_foreign_function.js: `alloc` stores them in their own bytes.
use js_ffi_cross.Base.{
  ℕ, ◌+◌, ◌^◌, ◌<◌, ◌≡◌, refl, ap, ◌∙◌, ℤ, pos, Bool, true, false, Option, arith, if◌then◌else◌,
}
use js_ffi_cross.Base.Result.{ok}
use js_ffi_cross.Memory.{Memory, Buffer, IsBytes}
use js_ffi_cross.Text.{Text}
use js_ffi_cross.CType.{Builtin, CType, size}
use js_ffi_cross.CType.Coerce.{Types}
use js_ffi_cross.Value.{scalar}
use js_ffi_cross.World.{World, Host, within}
use js_ffi_cross.Codec.Positional.{load, store, load-store, load_within, store_outside}
use js_ffi_cross.Codec.WriteLaws.{out_of_range, pattern_of}
use js_ffi_cross.Accessors.Endian.{Endian}
use js_ffi_cross.Accessors.Getters.{get_functions_generate}
use js_ffi_cross.Accessors.Setters.{set_functions_generate}
use js_ffi_cross.Accessors.Positional.{
  get_number-positional, get_bigint-positional, set_number-positional, set_bigint-positional,
}
use js_ffi_cross.Accessors.RoundTrip.{
  store-IsBytes, as_int-pattern_of, as_int-pattern_of_eight, pattern_of-lt,
}
use js_ffi_cross.Access.{Composite, accessor, accessor_get, as_scalar, value_size}
use js_ffi_cross.Access.Direct.{get_direct}
use js_ffi_cross.Access.Alloc.{
  IntegerSize, narrow, eight, size_of, is_eight, integer_value, integer_type, alloc_returns,
}
use js_ffi_cross.Foreign.Marshal.{Marshals}

module _ (e : Endian) (unsigned : Bool) (v : ℤ) where
  set_lem :
      (k : IntegerSize) (m : Memory) (buf : Buffer)
      → buf.length ≡ size_of k
      → buf.room ≡ size_of k
      → out_of_range unsigned (size_of k) v ≡ false
      → (set_functions_generate e (is_eight k) unsigned (size_of k)).set m buf
          (integer_value k v)
          (pos 0)
        ≡ ok (store e (size_of k) m (buf.address + 0) (pattern_of (size_of k) v), 0 + size_of k)
  set_lem (narrow n) m buf long roomy range =
      ground (arith, set_number-positional m buf v (pos 0) e unsigned n)
  set_lem eight m buf long roomy range =
      ground (arith, set_bigint-positional m buf v (pos 0) e unsigned (omega arith))

  get_lem :
      (k : IntegerSize) (m : Memory) (buf : Buffer)
      → buf.length ≡ size_of k
      → buf.room ≡ size_of k
      → IsBytes m
      → out_of_range unsigned (size_of k) v ≡ false
      → load e (size_of k) m (buf.address + 0) ≡ pattern_of (size_of k) v
      → (get_functions_generate e (is_eight k) unsigned (size_of k)).get m buf (pos 0)
        ≡ ok (integer_value k v)
  get_lem (narrow n) m buf long roomy is_bytes range stored = ground (
    arith,
    get_number-positional m buf (pos 0) e unsigned n is_bytes,
    as_int-pattern_of unsigned n v range,
  )
  get_lem eight m buf long roomy is_bytes range stored = ground (
    arith,
    get_bigint-positional m buf (pos 0) e unsigned (omega arith),
    as_int-pattern_of_eight unsigned v range,
  )

  pattern-lt : (k : IntegerSize) → pattern_of (size_of k) v < 256 ^ size_of k
  pattern-lt (narrow n) = pattern_of-lt n v
  pattern-lt eight = ground arith

module _ (host : Host) (composite : Composite) (types : Types) (unsigned : Bool) (k : IntegerSize)
    (v : ℤ) (name : Option Text) (ffi : Option Builtin) (align : Option ℕ) where
  abbrev type : CType
  type = integer_type name ffi align unsigned k

  abbrev fresh : World → ℕ
  fresh w = host.place w.allocated (size_of k)

  abbrev view : World → Buffer
  view w = record { address = fresh w; length = size_of k; room = size_of k }

  abbrev cleared : World → Memory
  cleared w q = if within (fresh w) (size_of k) q then 0 else w.memory q

  after : World → Memory
  after w = store host.endian (size_of k) (cleared w) (fresh w + 0) (pattern_of (size_of k) v)

  cleared-IsBytes : (w : World) → IsBytes w.memory → IsBytes (cleared w)
  cleared-IsBytes w is_bytes q = ground (arith, is_bytes q)

  after_frame :
      (w : World) (q : ℕ) → within (fresh w) (size_of k) q ≡ false → after w q ≡ w.memory q
  unfolding after
  after_frame w q outside =
      let same : fresh w + 0 ≡ fresh w = omega arith in
      store_outside host.endian (size_of k) (cleared w) (fresh w + 0) (pattern_of (size_of k) v) q
        (rw same outside)
      ∙ rw outside

  after_load :
      (w w' : World)
      → ((q : ℕ) → within (fresh w) (size_of k) q ≡ true → w'.memory q ≡ after w q)
      → load host.endian (size_of k) w'.memory (fresh w + 0) ≡ pattern_of (size_of k) v
  unfolding after
  after_load w w' same =
      load_within host.endian (size_of k) w'.memory (after w) (fresh w + 0)
        (λ q low high. same q (ground arith))
      ∙ load-store host.endian (size_of k) (cleared w) (fresh w + 0) (pattern_of (size_of k) v)
          (pattern-lt host.endian unsigned v k)

  pub integer-Marshals :
      out_of_range unsigned (size_of k) v ≡ false
      → Marshals host composite types type (scalar (integer_value k v))
  unfolding after value_size size accessor accessor_get
  integer-Marshals range = record {
    after = after;
    returns = λ w is_bytes.
        alloc_returns host composite types unsigned k v w name ffi align (after w)
          (set_lem host.endian unsigned v k (cleared w) (view w) refl refl range);
    is_bytes = λ w is_bytes.
        store-IsBytes host.endian (size_of k) (cleared w) (fresh w + 0) (pattern_of (size_of k) v)
          (cleared-IsBytes w is_bytes);
    frame = λ w is_bytes q outside. after_frame w q outside;
    reads = λ w w' is_bytes is_bytes' same.
        get_direct host composite types type refl (view w) (pos 0) w'
        ∙ ap (λ r. (as_scalar host r, w'))
            (get_lem host.endian unsigned v k w'.memory (view w) refl refl is_bytes' range
              (after_load w w' same));
  }
