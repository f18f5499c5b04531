-- ===== src/Instances/Copy.antt =====
-- `set` of the struct types of lib/ref/struct.js: the copy of an instance's bytes against the
-- constructor, which assigns field by field.
use js_ffi_cross.Base.{
  ℕ, ◌+◌, ◌-◌, ◌^◌, ◌≤◌, ◌≡◌, inl, inr, refl, ap, ℤ, pos, Bool, true, false, List, arith,
  if◌then◌else◌, ltb, Bool-cases,
}
use js_ffi_cross.Base.Result.{ok}
use js_ffi_cross.Text.{Text}
use js_ffi_cross.Memory.{Memory, Buffer, IsBytes, IsView}
use js_ffi_cross.CType.{CType, size}
use js_ffi_cross.CType.Coerce.{Types, TypeSpec}
use js_ffi_cross.Value.{Value, Properties, object, instance_of}
use js_ffi_cross.World.{World, Host, pure, then_run, within}
use js_ffi_cross.Layout.Struct.{StructType, new_struct, as_type}
use js_ffi_cross.Layout.Construction.{new_struct-IsDistinct}
use js_ffi_cross.Access.{Composite}
use js_ffi_cross.Arrays.{min}
use js_ffi_cross.Instances.{from_offset, copy_buffer, set_struct, to_object}
use js_ffi_cross.Instances.Objects.{Integers, AllInRange, Holds, SameBytes, Holds-moved}
use js_ffi_cross.Instances.Offsets.{recalc-Ascending}
use js_ffi_cross.Instances.RoundTrip.{Backs, properties, to_object-Holds, new_instance_on}

-- The view of a buffer from an offset inside of it.
pub record IsFrom (buf : Buffer) (o : ℕ) (view : Buffer) : Type 0 where
  pub address : view.address ≡ buf.address + o
  pub length : view.length ≡ buf.length - o
  pub room : view.room ≡ buf.room - o

pub from_offset_lem :
    (buf : Buffer) (o : ℕ) → o ≤ buf.length → IsFrom buf o (from_offset buf (pos o))
from_offset_lem buf o inside = elim (Bool-cases (ltb 0 o)) [
  | inl positive ↦
      rw positive (record { address = ground arith; length = ground arith; room = ground arith })
  | inr at_start ↦
      rw at_start (record { address = ground arith; length = ground arith; room = ground arith })
]

module _ (source target : Buffer) (o n : ℕ) (long : n ≤ source.length)
    (fits : o + n ≤ target.length) (w : World) where
  abbrev copied : Memory
  copied q =
      if within (target.address + o) n q
      then w.memory (source.address + (q - (target.address + o)))
      else w.memory q

  pub copy_buffer_lem :
      copy_buffer source target (pos o) n w ≡ (ok tt, record w { memory = copied })
  unfolding copy_buffer
  copy_buffer_lem =
      let count : min (min n source.length) (target.length - o) ≡ n = ground arith in rw count refl

  copied-SameBytes : SameBytes 0 n copied (target.address + o) w.memory source.address
  copied-SameBytes j low high =
      let there : target.address + o + j - (target.address + o) ≡ j = omega arith in
      let inside : within (target.address + o) n (target.address + o + j) ≡ true = ground arith in
      rw (inside, there) refl

module _ (host : Host) (composite : Composite) (types : Types) (fields : List (Text × TypeSpec))
    (packed : Bool) (s : StructType) (made : new_struct host.platform types fields packed ≡ ok s)
    (ints : Integers s.fields) (small : s.size ≤ 2 ^ 32) (same : CType → CType → Bool)
    (source target : Buffer) (o : ℕ) (vs : List ℤ) (range : AllInRange s.fields ints vs)
    (w : World) where
  abbrev type : CType
  type = as_type s

  abbrev view : Buffer
  view = from_offset target (pos o)

  abbrev props : Properties
  props = properties host composite types fields packed s made ints small vs range

  -- `set` has returned, the struct at the offset is the object, and nothing outside has changed.
  pub record IsWritten (value : Value) : Type 0 where
    pub after : World
    pub returns : set_struct host composite types same type target value (pos o) w ≡ (ok tt, after)
    pub reads : to_object host composite types type view after ≡ (ok props, after)
    pub frame : (q : ℕ) → within (target.address + o) s.size q ≡ false → after.memory q ≡ w.memory q

  copy-IsWritten :
      same type type ≡ true
      → s.size ≤ source.length
      → o + s.size ≤ target.length
      → IsView target
      → IsBytes w.memory
      → Holds host s.fields ints vs w.memory source.address
      → IsWritten (instance_of type source)
  unfolding set_struct size
  copy-IsWritten one long fits is_view is_bytes holds =
      let m = copied source target o s.size long fits w in
      let (distinct, fixed, pack) =
        new_struct-IsDistinct host.platform types fields packed s made in
      let f = from_offset_lem target o (omega arith) in
      let moved =
        Holds-moved host s.fields ints vs 0 s.size w.memory m source.address (target.address + o)
          (recalc-Ascending host.platform s fixed ints)
          (copied-SameBytes source target o s.size long fits w) holds in
      record {
        after = record w { memory = m };
        returns = rw one (copy_buffer_lem source target o s.size long fits w);
        reads =
            to_object-Holds host composite types fields packed s made ints small view vs
              (record w { memory = m }) (omega (arith, f.length, f.room)) (rw f.address moved)
              (λ q.
                ground (arith, is_bytes q, is_bytes (source.address + (q - (target.address + o)))));
        frame = λ q outside. rw outside refl;
      }

  assign-IsWritten :
      o + s.size ≤ target.length → IsView target → IsBytes w.memory → IsWritten (object props)
  unfolding set_struct
  assign-IsWritten fits is_view is_bytes =
      let f = from_offset_lem target o (omega arith) in
      let backs : (s.size ≤ view.length) × IsView view = omega (arith, f.length, f.room) in
      let (w', returned, filled) =
        new_instance_on host composite types fields packed s made ints small vs range view backs w
          is_bytes in
      record {
        after = w';
        returns = ap (λ r. then_run r (λ done. pure tt)) returned;
        reads =
            to_object-Holds host composite types fields packed s made ints small view vs w' backs
              filled.holds filled.is_bytes;
        frame = λ q outside. filled.frame q (ground (arith, f.address));
      }

  -- `set` of a struct type that `Struct` returned, whose fields are of integer types, with an
  -- instance of that type, whose bytes it copies, is equivalent to `set` with the object that
  -- `toObject` makes of the instance, which goes through the constructor: both return, from both the
  -- struct at the offset reads as that object, and neither changes a byte outside of the struct. Both
  -- buffers have room for the struct and lie in their ArrayBuffers, the fields of the instance hold
  -- integers in range, the struct is at most 2^32 bytes long, and the memory holds bytes. Integer
  -- types are here those of one, two or four bytes whose values are Numbers and those of eight bytes,
  -- whose values are BigInts, not `bool` and `char`; a `long`, `size_t` or the like of four bytes,
  -- whose setter throws, is none of them.
  pub set_struct-copy_assign :
      same type type ≡ true
      → Backs host composite types fields packed s made ints small source
      → o + s.size ≤ target.length
      → IsView target
      → IsBytes w.memory
      → Holds host s.fields ints vs w.memory source.address
      → (to_object host composite types type source w ≡ (ok props, w))
        × IsWritten (instance_of type source)
        × IsWritten (object props)
  set_struct-copy_assign one backs fits is_view is_bytes holds = (
    to_object-Holds host composite types fields packed s made ints small source vs w backs holds
        is_bytes,
    copy-IsWritten one backs.0 fits is_view is_bytes holds,
    assign-IsWritten fits is_view is_bytes,
  )
