-- ===== src/Instances/Integers.antt =====
-- Fields of integer types in the instances of lib/ref/struct.js and lib/ref/union.js: what is read and
-- written at one field, against the positional description of the bytes.
use js_ffi_cross.Base.{
  ℕ, ◌+◌, ◌^◌, ◌≤◌, ◌<◌, ◌≡◌, refl, ap, ◌∙◌, ℤ, pos, Bool, false, Option, some, arith,
}
use js_ffi_cross.Base.Result.{ok}
use js_ffi_cross.Word.{to_uint32}
use js_ffi_cross.Text.{Text}
use js_ffi_cross.Memory.{Memory, Buffer, IsBytes, IsView}
use js_ffi_cross.CType.{Builtin, CType}
use js_ffi_cross.CType.Coerce.{Types, typed}
use js_ffi_cross.Value.{Value, TypedBuffer, scalar}
use js_ffi_cross.World.{World, Host, stored}
use js_ffi_cross.Codec.Positional.{load, store, load-store}
use js_ffi_cross.Codec.ReadLaws.{as_int}
use js_ffi_cross.Codec.WriteLaws.{out_of_range, pattern_of}
use js_ffi_cross.Accessors.Getters.{get_functions_generate}
use js_ffi_cross.Accessors.Setters.{set_functions_generate}
use js_ffi_cross.Accessors.Positional.{
  bytes, get_number-positional, get_bigint-positional, set_number-positional, set_bigint-positional,
}
use js_ffi_cross.Accessors.RoundTrip.{
  store-IsBytes, as_int-pattern_of, as_int-pattern_of_eight, pattern_of-lt,
}
use js_ffi_cross.Access.{Composite, accessor, accessor_get, accessor_set, as_scalar, get, set}
use js_ffi_cross.Access.Direct.{set_direct, get_direct_as}
use js_ffi_cross.Access.Alloc.{
  IntegerSize, narrow, eight, size_of, is_eight, integer_value, integer_type,
}

-- The integer that stands at an address.
abbrev pub integer_at : Host → Bool → IntegerSize → Memory → ℕ → ℤ
integer_at host unsigned k m a = as_int unsigned (size_of k) (load host.endian (size_of k) m a)

module _ (host : Host) (unsigned : Bool) (k : IntegerSize) where
  abbrev pub put_integer : Memory → ℕ → ℤ → Memory
  put_integer m a v = store host.endian (size_of k) m a (pattern_of (size_of k) v)

  pub put_integer-IsBytes : (m : Memory) (a : ℕ) (v : ℤ) → IsBytes m → IsBytes (put_integer m a v)
  put_integer-IsBytes m a v h =
      store-IsBytes host.endian (size_of k) m a (pattern_of (size_of k) v) h

pub integer_at-put_integer :
    (host : Host) (unsigned : Bool) (k : IntegerSize) (m : Memory) (a : ℕ) (v : ℤ)
    → out_of_range unsigned (size_of k) v ≡ false
    → integer_at host unsigned k (put_integer host unsigned k m a v) a ≡ v
integer_at-put_integer host unsigned (narrow n) m a v range =
    ap (as_int unsigned (bytes n))
      (load-store host.endian (bytes n) m a (pattern_of (bytes n) v) (pattern_of-lt n v))
    ∙ as_int-pattern_of unsigned n v range
integer_at-put_integer host unsigned eight m a v range =
    ap (as_int unsigned 8) (load-store host.endian 8 m a (pattern_of 8 v) (ground arith))
    ∙ as_int-pattern_of_eight unsigned v range

module _ (host : Host) (unsigned : Bool) (buf : Buffer) (o : ℕ) (small : o < 2 ^ 32)
    (m : Memory) where
  pub getter_at :
      (k : IntegerSize)
      → o + size_of k ≤ buf.length
      → IsView buf
      → IsBytes m
      → (get_functions_generate host.endian (is_eight k) unsigned (size_of k)).get m buf (pos o)
        ≡ ok (integer_value k (integer_at host unsigned k m (buf.address + o)))
  getter_at (narrow n) fits view is_bytes =
      let same : to_uint32 (pos o) ≡ o = omega arith in
      ground (arith, get_number-positional m buf (pos o) host.endian unsigned n is_bytes)
  getter_at eight fits view is_bytes =
      let same : to_uint32 (pos o) ≡ o = omega arith in
      ground (arith, get_bigint-positional m buf (pos o) host.endian unsigned view)

  setter_at :
      (k : IntegerSize) (v : ℤ)
      → o + size_of k ≤ buf.length
      → IsView buf
      → out_of_range unsigned (size_of k) v ≡ false
      → (set_functions_generate host.endian (is_eight k) unsigned (size_of k)).set m buf
          (integer_value k v)
          (pos o)
        ≡ ok (put_integer host unsigned k m (buf.address + o) v, o + size_of k)
  setter_at (narrow n) v fits view range =
      let same : to_uint32 (pos o) ≡ o = omega arith in
      ground (arith, set_number-positional m buf v (pos o) host.endian unsigned n)
  setter_at eight v fits view range =
      let same : to_uint32 (pos o) ≡ o = omega arith in
      ground (arith, set_bigint-positional m buf v (pos o) host.endian unsigned view)

-- A type as `createCType` makes it for integers that are Numbers up to four bytes and BigInts of eight.
pub record IsInteger (type : CType) : Type 0 where
  pub unsigned : Bool
  pub width : IntegerSize
  pub name : Option Text
  pub ffi : Option Builtin
  pub align : Option ℕ
  pub same : type ≡ integer_type name ffi align unsigned width

module _ {type : CType} (i : IsInteger type) where
  abbrev pub width_of : ℕ
  width_of = size_of i.width

  abbrev pub InRange : ℤ → Type 0
  InRange v = out_of_range i.unsigned width_of v ≡ false

  abbrev pub value_of : ℤ → Value
  value_of v = scalar (integer_value i.width v)

module _ (host : Host) {type : CType} (i : IsInteger type) where
  -- The integer that stands in memory for a field of this type, and the memory that it is put in.
  abbrev pub standing : Memory → ℕ → ℤ
  standing m a = integer_at host i.unsigned i.width m a

  abbrev pub putting : Memory → ℕ → ℤ → Memory
  putting m a v = put_integer host i.unsigned i.width m a v

module _ (host : Host) (composite : Composite) (types : Types) {type : CType}
    (i : IsInteger type) where
  module _ (buf : TypedBuffer) (o : ℕ) (small : o < 2 ^ 32)
      (fits : o + width_of i ≤ buf.view.length) (view : IsView buf.view) where
    pub get_integer :
        (w : World)
        → IsBytes w.memory
        → get host composite types buf (pos o) (some (typed type)) w
          ≡ (ok (value_of i (standing host i w.memory (buf.view.address + o))), w)
    unfolding accessor accessor_get
    get_integer w is_bytes =
        let plain = integer_type i.name i.ffi i.align i.unsigned i.width in
        rw i.same (
          get_direct_as host composite types plain refl buf (pos o) w
          ∙ ap (λ r. (as_scalar host r, w))
              (getter_at host i.unsigned buf.view o small w.memory i.width fits view is_bytes))

    pub set_integer :
        (w : World) (v : ℤ)
        → InRange i v
        → set host composite types buf (value_of i v) (pos o) (some (typed type)) w
          ≡ (ok tt, record w { memory = putting host i w.memory (buf.view.address + o) v })
    unfolding accessor accessor_set
    set_integer w v range =
        let plain = integer_type i.name i.ffi i.align i.unsigned i.width in
        rw i.same (
          set_direct host composite types plain refl buf (value_of i v) (pos o) w
          ∙ ap (λ r. stored r w)
              (setter_at host i.unsigned buf.view o small w.memory i.width v fits view range))
