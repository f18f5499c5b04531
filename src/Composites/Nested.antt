-- ===== src/Composites/Nested.antt =====
-- Structs inside of structs of lib/ref/struct.js: the instance of the inner one is a view of the outer
-- one's bytes.
use js_ffi_cross.Base.{
  ℕ, suc, ◌+◌, ◌^◌, ◌≤◌, ◌<◌, ◌≡◌, refl, ap, ◌∙◌, ℤ, pos, Bool, false, some, arith, ltb,
}
use js_ffi_cross.Base.Result.{ok}
use js_ffi_cross.Text.{Text}
use js_ffi_cross.Memory.{Buffer, IsBytes, IsView}
use js_ffi_cross.CType.{CType, Fields, struct, size}
use js_ffi_cross.CType.Coerce.{Types, typed}
use js_ffi_cross.Value.{instance_of}
use js_ffi_cross.World.{World, Host, within}
use js_ffi_cross.Codec.Positional.{store_outside}
use js_ffi_cross.Codec.WriteLaws.{pattern_of}
use js_ffi_cross.Access.{Composite, accessor}
use js_ffi_cross.Access.Direct.{get_direct_as}
use js_ffi_cross.Instances.{
  find_field, from_offset, get_instance, new_instance, get_field, set_field, get_member,
}
use js_ffi_cross.Instances.Integers.{
  IsInteger, width_of, InRange, value_of, putting, put_integer-IsBytes, integer_at-put_integer,
}
use js_ffi_cross.Instances.Loops.{Placed, get_field_lem, set_field_lem}
use js_ffi_cross.Instances.Copy.{from_offset_lem}
use js_ffi_cross.Composites.{composite, get_composite}

module _ (host : Host) (types : Types) (same : CType → CType → Bool) (fuel : ℕ)
    (outer_size outer_align : ℕ) (outer_fields : Fields) (buf : Buffer) (is_view : IsView buf)
    (name : Text) (inner_size inner_align : ℕ) (inner_fields : Fields) (o : ℕ)
    (found : find_field name outer_fields ≡ some (struct inner_size inner_align inner_fields, o))
    (fits : o + inner_size ≤ buf.length) where
  abbrev outer : CType
  outer = struct outer_size outer_align outer_fields

  abbrev inner : CType
  inner = struct inner_size inner_align inner_fields

  abbrev view : Buffer
  view = from_offset buf (pos o)

  abbrev at_once : Composite
  at_once = composite host types same (suc fuel)

  -- The field is the inner struct, as a view; nothing is read.
  nested_instance :
      (w : World) → get_field host at_once types outer buf name w ≡ (ok (instance_of inner view), w)
  unfolding get_field composite get_composite get_instance new_instance size accessor
  nested_instance w =
      let f = from_offset_lem buf o (omega arith) in
      let enough : ltb view.length inner_size ≡ false = ground (arith, f.length) in
      ap (λ m. get_member host at_once types outer buf m w) found
      ∙ get_direct_as host at_once types inner refl
          (record { view = buf; type = some (typed outer) }) (pos o) w
      ∙ rw enough refl

  -- An integer in range, assigned to a field of an integer type in the struct that is a field of a
  -- struct, is there when the inner struct is taken out of the outer one again, and no byte changes
  -- outside of the inner field, which lies at the sum of the offsets. The inner struct fits the outer
  -- one's buffer and the field the inner struct, the buffer lies in its ArrayBuffer, the inner field
  -- begins below 2^32, and the memory holds bytes. Integer types are here those of one, two or four
  -- bytes whose values are Numbers and those of eight bytes, whose values are BigInts, not `bool` and
  -- `char`; a `long`, `size_t` or the like of four bytes, whose setter throws, is none of them.
  pub nested_set_field :
      (n : Text) (member : CType) (x : ℕ) (i : IsInteger member)
      → find_field n inner_fields ≡ some (member, x)
      → x + width_of i ≤ inner_size
      → x < 2 ^ 32
      → (v : ℤ) (w : World) → InRange i v
      → IsBytes w.memory
      → (w' : World) × (get_field host at_once types outer buf name w
          ≡ (ok (instance_of inner view), w))
        × (set_field host at_once types inner view n (value_of i v) w ≡ (ok tt, w'))
        × (get_field host at_once types outer buf name w' ≡ (ok (instance_of inner view), w'))
        × (get_field host at_once types inner view n w' ≡ (ok (value_of i v), w'))
        × ((q : ℕ) → within (buf.address + o + x) (width_of i) q ≡ false → w'.memory q ≡ w.memory q)
  nested_set_field n member x i placed inside small v w range is_bytes =
      let f = from_offset_lem buf o (omega arith) in
      let view_is : IsView view = omega (arith, f.length, f.room) in
      let p : Placed host at_once types inner_size inner_align inner_fields view view_is n member x
          i =
        record { found = placed; small = small; fits = omega (arith, f.length) } in
      let after = putting host i w.memory (view.address + x) v in
      let w' : World = record w { memory = after } in
      let after_bytes =
        put_integer-IsBytes host i.unsigned i.width w.memory (view.address + x) v is_bytes in
      (
        w',
        nested_instance w,
        set_field_lem host at_once types inner_size inner_align inner_fields view view_is n member x
            i p w v range,
        nested_instance w',
        get_field_lem host at_once types inner_size inner_align inner_fields view view_is n member x
              i p w' after_bytes
            ∙ ap (λ y. (ok (value_of i y), w'))
                (integer_at-put_integer host i.unsigned i.width w.memory (view.address + x) v
                  range),
        λ q outside.
            store_outside host.endian (width_of i) w.memory (view.address + x)
              (pattern_of (width_of i) v) q (rw f.address outside),
      )
