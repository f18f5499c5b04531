-- ===== src/Examples/Accesses.antt =====
-- The accessors of memory on the example machine.
use js_ffi_cross.Base.{
  ℕ, ◌+◌, ◌≤◌, ◌≡◌, ◌≢◌, ◌⊎◌, refl, arith, pos, negsuc, true, false, none, some, [], inl,
}
use js_ffi_cross.Codec.Positional.{load}
use js_ffi_cross.Accessors.Endian.{le}
use js_ffi_cross.Base.Result.{ok}
use js_ffi_cross.Scalar.{number}
use js_ffi_cross.Memory.{Buffer}
use js_ffi_cross.Text.{Text, codes}
use js_ffi_cross.CType.{CType, integer}
use js_ffi_cross.CType.Coerce.{typed}
use js_ffi_cross.Value.{TypedBuffer, scalar, text, reference}
use js_ffi_cross.Accessors.Positional.{two, four}
use js_ffi_cross.World.{World, within}
use js_ffi_cross.Pointers.{reinterpret_until_zeros}
use js_ffi_cross.Pointers.Scan.{EndsAt, reinterpret_until_zeros-EndsAt}
use js_ffi_cross.Access.{
  accessor_set, get, alloc, ref, deref, get_c_string, set_c_string, value_size, get_type,
}
use js_ffi_cross.Access.Alloc.{narrow, integer_type, get-alloc}
use js_ffi_cross.Access.Deref.{deref-ref}
use js_ffi_cross.Access.Frame.{accessor_set-frame}
use js_ffi_cross.Access.Strings.{IsEncoded, get_c_string-set_c_string}
use js_ffi_cross.Base.{leb, ltb, ◌&&◌}
use js_ffi_cross.Arrays.{ArrayObject, getter, setter}
use js_ffi_cross.Arrays.Elements.{getter-setter}
use js_ffi_cross.Examples.Machine.{machine, no_composite, ramp_world, small_buffer}

reinterpret_until_zeros-EndsAt_example :
    (view : Buffer) × (reinterpret_until_zeros machine small_buffer 2 (pos 4) ramp_world
      ≡ (ok view, ramp_world))
    × (view.address ≡ 36)
    × EndsAt machine 100 2 ramp_world.memory 36 0 view.length
    × ((load le 2 ramp_world.memory (36 + view.length) ≡ 0)
        ⊎ (◌≢◌ {A = ℕ} 2 1 × (100 ≤ view.length)))
reinterpret_until_zeros-EndsAt_example =
    reinterpret_until_zeros-EndsAt machine small_buffer 2 (pos 4) ramp_world refl (omega arith)
      (λ n. omega arith) (λ e. absurd (omega arith))

abbrev greeting : Text
greeting = codes "hi"

greeting-IsEncoded : IsEncoded machine greeting
greeting-IsEncoded = record { no_nul = omega arith; written = refl; decoded = refl }

get_c_string-set_c_string_example :
    (w' : World) × (set_c_string machine small_buffer (text greeting) (pos 8) ramp_world
      ≡ (ok tt, w'))
    × (get_c_string machine small_buffer (pos 8) w' ≡ (ok (text greeting), w'))
    × ((q : ℕ)
        → within 40 8 q ≡ false
        → within 4096 3 q ≡ false
        → w'.memory q ≡ ramp_world.memory q)
get_c_string-set_c_string_example =
    get_c_string-set_c_string machine greeting greeting-IsEncoded small_buffer 8 ramp_world
      (omega arith) (omega arith) (omega arith) (inl (omega arith)) (λ n. omega arith)

abbrev short : CType
short = integer_type none none none false (narrow two)

abbrev short_buffer : TypedBuffer
short_buffer = record { view = small_buffer; type = some (typed short) }

short-get_type : get_type machine no_composite [] short_buffer ≡ ok short
unfolding get_type
short-get_type = refl

short-fits : value_size machine no_composite [] short ≤ value_size machine no_composite [] short
short-fits = omega arith

deref-ref_example :
    (w' : World) × (p : TypedBuffer) × (ref machine no_composite [] short_buffer ramp_world
      ≡ (ok p, w'))
    × (deref machine no_composite [] p w' ≡ (
      ok (
          reference
            (record {
              address = 32;
              length = value_size machine no_composite [] short;
              room = value_size machine no_composite [] short;
            })
            (some (typed short))),
      w',
    ))
    × ((q : ℕ) → within 4096 8 q ≡ false → w'.memory q ≡ ramp_world.memory q)
deref-ref_example =
    deref-ref machine no_composite [] short (omega arith) short_buffer ramp_world short-get_type
      (omega arith) (omega arith) short-fits

accessor_set-frame_example :
    (accessor_set machine
        (integer false true 4)
        small_buffer
        (scalar (number (pos 7)))
        (pos 12)
        ramp_world).1.memory
      50
    ≡ 50
accessor_set-frame_example =
    accessor_set-frame machine small_buffer (scalar (number (pos 7))) (pos 12) ramp_world 50
      (integer false true 4) (cc) refl

get-alloc_example :
    (w' : World) × (alloc machine no_composite []
        (typed short)
        (some (scalar (number (negsuc 1))))
        ramp_world
      ≡ (
        ok (record {
          view = record { address = 4096; length = 2; room = 2 };
          type = some (typed short);
        }),
        w',
      ))
    × (get machine no_composite []
          (record {
            view = record { address = 4096; length = 2; room = 2 };
            type = some (typed short);
          })
          (pos 0)
          none
          w'
        ≡ (ok (scalar (number (negsuc 1))), w'))
    × ((q : ℕ) → within 4096 2 q ≡ false → w'.memory q ≡ ramp_world.memory q)
get-alloc_example =
    get-alloc machine no_composite [] false (narrow two) (negsuc 1) ramp_world none none none
      (λ q. omega arith) refl

-- An array of four-byte integers on the buffer.
abbrev ints : ArrayObject
ints = record {
  type = record { element = integer_type none none none false (narrow four); fixed_length = 0 };
  length = 4;
  buffer = small_buffer;
}

getter-setter_example :
    (w' : World) × (setter machine no_composite [] ints 2 (scalar (number (negsuc 5))) ramp_world
      ≡ (ok tt, w'))
    × (getter machine no_composite [] ints 2 w' ≡ (ok (scalar (number (negsuc 5))), w'))
    × ((q : ℕ) → (leb 40 q && ltb q 44) ≡ false → w'.memory q ≡ ramp_world.memory q)
getter-setter_example =
    getter-setter machine no_composite [] false (narrow four) none none none 0 4 small_buffer
      ramp_world 2 (negsuc 5) (omega arith) (omega arith) (omega arith) (λ q. omega arith) refl
