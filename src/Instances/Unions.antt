-- ===== src/Instances/Unions.antt =====
-- Members of an instance of a union type of lib/ref/union.js, which share their bytes.
use js_ffi_cross.Base.{ℕ, ◌+◌, ◌^◌, ◌≤◌, ◌<◌, ◌≡◌, ap, ◌∙◌, ℤ, some, arith, false}
use js_ffi_cross.Base.Result.{ok}
use js_ffi_cross.Text.{Text}
use js_ffi_cross.Memory.{Buffer, IsBytes, IsView}
use js_ffi_cross.CType.{CType, Fields, union}
use js_ffi_cross.CType.Coerce.{Types, typed}
use js_ffi_cross.Value.{TypedBuffer}
use js_ffi_cross.World.{World, Host, within}
use js_ffi_cross.Codec.Positional.{load, load-store, store_outside}
use js_ffi_cross.Codec.ReadLaws.{as_int}
use js_ffi_cross.Codec.WriteLaws.{pattern_of}
use js_ffi_cross.Accessors.RoundTrip.{pattern_of-lt}
use js_ffi_cross.Access.{Composite}
use js_ffi_cross.Access.Alloc.{IntegerSize, narrow, eight, size_of}
use js_ffi_cross.Instances.{find_field, get_field, set_field, get_member, set_member}
use js_ffi_cross.Instances.Integers.{
  IsInteger, width_of, InRange, value_of, putting, get_integer, set_integer, put_integer-IsBytes,
}

pattern_lt : (k : IntegerSize) (v : ℤ) → pattern_of (size_of k) v < 256 ^ size_of k
pattern_lt (narrow n) v = pattern_of-lt n v
pattern_lt eight v = ground arith

module _ (host : Host) (composite : Composite) (types : Types) (size align : ℕ) (all : Fields)
    (buf : Buffer) (view : IsView buf) (w : World) (is_bytes : IsBytes w.memory) where
  abbrev type : CType
  type = union size align all

  abbrev with_type : TypedBuffer
  with_type = record { view = buf; type = some (typed type) }

  -- A member of the union, of an integer type that fits the buffer.
  pub record IsMember (n : Text) (member : CType) (i : IsInteger member) : Type 0 where
    pub offset : ℕ
    pub found : find_field n all ≡ some (member, offset)
    pub fits : width_of i ≤ buf.length

  -- An integer in range, assigned to a member of a union instance of an integer type, is read from
  -- every member of an integer type of the same width as the integer with the same two's complement
  -- in that type; no byte behind the member changes. The buffer has room for the members and lies in
  -- its ArrayBuffer, and the memory holds bytes. Integer types are here those of one, two or four
  -- bytes whose values are Numbers and those of eight bytes, whose values are BigInts, not `bool` and
  -- `char`; a `long`, `size_t` or the like of four bytes, whose setter throws, is none of them.
  pub get_field-set_field :
      (n m : Text) (first second : CType) (i : IsInteger first) (j : IsInteger second)
      → IsMember n first i
      → IsMember m second j
      → width_of j ≡ width_of i
      → (v : ℤ) → InRange i v
      → (w' : World) × (set_field host composite types type buf n (value_of i v) w ≡ (ok tt, w'))
        × (get_field host composite types type buf m w'
            ≡ (ok (value_of j (as_int j.unsigned (width_of j) (pattern_of (width_of i) v))), w'))
        × ((q : ℕ) → within buf.address (width_of i) q ≡ false → w'.memory q ≡ w.memory q)
  unfolding get_field set_field
  get_field-set_field n m first second i j a b alike v range =
      let after = putting host i w.memory (buf.address + 0) v in
      let after_bytes =
        put_integer-IsBytes host i.unsigned i.width w.memory (buf.address + 0) v is_bytes in
      let w' : World = record w { memory = after } in
      let stands : load host.endian (width_of j) after (buf.address + 0)
          ≡ pattern_of (width_of i) v =
        rw alike (
          load-store host.endian (width_of i) w.memory (buf.address + 0) (pattern_of (width_of i) v)
            (pattern_lt i.width v)) in
      (
        w',
        ap (λ f. set_member host composite types type buf f (value_of i v) w) a.found
            ∙ set_integer host composite types i with_type 0 (omega arith) (omega (arith, a.fits))
                view w v range,
        ap (λ f. get_member host composite types type buf f w') b.found
            ∙ get_integer host composite types j with_type 0 (omega arith) (omega (arith, b.fits))
                view w' after_bytes
            ∙ ap (λ x. (ok (value_of j (as_int j.unsigned (width_of j) x)), w')) stands,
        λ q outside.
            store_outside host.endian (width_of i) w.memory (buf.address + 0)
              (pattern_of (width_of i) v) q (ground arith),
      )
