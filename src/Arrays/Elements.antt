-- ===== src/Arrays/Elements.antt =====
-- The elements of array instances of lib/ref/array.js, for integer types.
use js_ffi_cross.Base.{
  ℕ, ◌+◌, ◌*◌, ◌%◌, ◌^◌, ◌≤◌, ◌<◌, ◌≡◌, refl, ap, ◌∙◌, ℤ, pos, Bool, false, Option, none, some,
  arith, ltb, leb, ◌&&◌, if◌then◌else◌,
}
use js_ffi_cross.Base.Result.{ok}
use js_ffi_cross.Text.{Text}
use js_ffi_cross.Memory.{Memory, Buffer, IsBytes, IsView}
use js_ffi_cross.CType.{Builtin, CType, size}
use js_ffi_cross.CType.Coerce.{Types, typed}
use js_ffi_cross.Scalar.{Scalar}
use js_ffi_cross.Value.{TypedBuffer, scalar}
use js_ffi_cross.World.{World, Host, then_run, lift, stored}
use js_ffi_cross.Codec.WriteLaws.{out_of_range}
use js_ffi_cross.Accessors.Getters.{get_functions_generate}
use js_ffi_cross.Accessors.Setters.{set_functions_generate}
use js_ffi_cross.Accessors.RoundTrip.{RoundTrips, get-set_number, get-set_bigint}
use js_ffi_cross.Access.{Composite, accessor, accessor_get, accessor_set, as_scalar, get, set}
use js_ffi_cross.Access.Direct.{set_direct, get_direct_as}
use js_ffi_cross.Access.Alloc.{
  IntegerSize, narrow, eight, size_of, is_eight, integer_value, integer_type,
}
use js_ffi_cross.Arrays.{ArrayObject, reaching, getter, setter}

element_trip :
    (host : Host) (unsigned : Bool) (v : ℤ) (k : IntegerSize) (m : Memory) (buf : Buffer) (o : ℕ)
    → o < 2 ^ 32
    → o + size_of k ≤ buf.length
    → IsView buf
    → IsBytes m
    → out_of_range unsigned (size_of k) v ≡ false
    → RoundTrips
        ((set_functions_generate host.endian (is_eight k) unsigned (size_of k)).set m buf
          (integer_value k v)
          (pos o))
        (λ after.
          (get_functions_generate host.endian (is_eight k) unsigned (size_of k)).get after buf
            (pos o))
        m
        (buf.address + o % 2 ^ 32)
        (size_of k)
        (o % 2 ^ 32 + size_of k)
        (integer_value k v)
element_trip host unsigned v (narrow n) m buf o small fits view is_bytes range =
    get-set_number host.endian unsigned m buf v (pos o) n is_bytes range (omega arith)
element_trip host unsigned v eight m buf o small fits view is_bytes range =
    get-set_bigint host.endian unsigned m buf v (pos o) view range (omega arith)

module _ (host : Host) (composite : Composite) (types : Types) (unsigned : Bool) (k : IntegerSize)
    (name : Option Text) (ffi : Option Builtin) (align : Option ℕ) (fixed count : ℕ) (buf : Buffer)
    (w : World) where
  abbrev array : ArrayObject
  array = record {
    type = record { element = integer_type name ffi align unsigned k; fixed_length = fixed };
    length = count;
    buffer = buf;
  }

  abbrev offset : ℕ → ℕ
  offset index = size_of k * index

  abbrev element : CType
  element = integer_type name ffi align unsigned k

  abbrev untyped : Buffer → TypedBuffer
  untyped view = record { view = view; type = none }

  reaching_lem : (end : ℕ) → end ≤ buf.length → reaching host composite types buf end ≡ ok buf
  unfolding reaching
  reaching_lem end fits = ground arith

  setter_lem :
      (index : ℕ) (val : Scalar) (w : World)
      → offset index + size_of k ≤ buf.length
      → setter host composite types array index (scalar val) w
        ≡ stored
            ((set_functions_generate host.endian (is_eight k) unsigned (size_of k)).set w.memory buf
              val
              (pos (offset index)))
            w
  unfolding setter size accessor accessor_set
  setter_lem index val w fits =
      ap
        (λ r. then_run (lift r w) (λ view.
          set host composite types (untyped view) (scalar val) (pos (offset index))
            (some (typed element))))
        (reaching_lem (offset index + size_of k) fits)
      ∙ set_direct host composite types element refl (untyped buf) (scalar val) (pos (offset index))
          w

  getter_lem :
      (index : ℕ) (val : Scalar) (w : World)
      → offset index + size_of k ≤ buf.length
      → (get_functions_generate host.endian (is_eight k) unsigned (size_of k)).get w.memory buf
          (pos (offset index))
        ≡ ok val
      → getter host composite types array index w ≡ (ok (scalar val), w)
  unfolding getter size accessor accessor_get
  getter_lem index val w fits reads =
      ap
        (λ r. then_run (lift r w) (λ view.
          get host composite types (untyped view) (pos (offset index)) (some (typed element))))
        (reaching_lem (offset index + size_of k) fits)
      ∙ get_direct_as host composite types element refl (untyped buf) (pos (offset index)) w
      ∙ ap (λ r. (as_scalar host r, w)) reads

  element_frame :
      (after : Memory) (o : ℕ)
      → o % 2 ^ 32 ≡ o
      → ((q : ℕ)
          → after q ≡ (
              if leb (buf.address + o % 2 ^ 32) q && ltb q (buf.address + o % 2 ^ 32 + size_of k)
              then after q
              else w.memory q))
      → (q : ℕ) → (leb (buf.address + o) q && ltb q (buf.address + o + size_of k)) ≡ false
      → after q ≡ w.memory q
  element_frame after o same frame q outside = frame q ∙ rw (same, outside)

  -- An integer in the range of the element type, an integer type, put in an array instance at an
  -- index whose bytes are in its buffer, is read back at that index, and no byte outside of that
  -- element changes. The buffer lies in its ArrayBuffer, the element begins below 2^32, and the
  -- memory holds bytes. Integer types are here those of one, two or four bytes whose values are
  -- Numbers and those of eight bytes, whose values are BigInts, not `bool` and `char`; a `long`,
  -- `size_t` or the like of four bytes, whose setter throws, is none of them.
  pub getter-setter :
      (index : ℕ) (v : ℤ)
      → offset index < 2 ^ 32
      → offset index + size_of k ≤ buf.length
      → IsView buf
      → IsBytes w.memory
      → out_of_range unsigned (size_of k) v ≡ false
      → (w' : World) × (setter host composite types array index (scalar (integer_value k v)) w
          ≡ (ok tt, w'))
        × (getter host composite types array index w' ≡ (ok (scalar (integer_value k v)), w'))
        × ((q : ℕ)
            → (leb (buf.address + offset index) q && ltb q (buf.address + offset index + size_of k))
              ≡ false
            → w'.memory q ≡ w.memory q)
  getter-setter index v small fits view is_bytes range =
      let o = offset index in
      let trip = element_trip host unsigned v k w.memory buf o small fits view is_bytes range in
      let same : o % 2 ^ 32 ≡ o = omega arith in
      (
        record w { memory = trip.after },
        setter_lem index (integer_value k v) w fits ∙ ap (λ r. stored r w) trip.returns,
        getter_lem index (integer_value k v) (record w { memory = trip.after }) fits trip.reads,
        element_frame trip.after o same trip.frame,
      )
