-- ===== src/Instances/RoundTrip.antt =====
-- Instances of the struct types that `Struct` of lib/ref/struct.js returns, made from an object and
-- turned into an object.
use js_ffi_cross.Base.{
  ℕ, ◌+◌, ◌^◌, ◌≤◌, ◌<◌, ◌≡◌, ◌⊎◌, refl, ap, ◌∙◌, ℤ, Bool, false, none, some, List, ◌∷◌, arith,
  if◌then◌else◌, ltb,
}
use js_ffi_cross.Base.Result.{ok}
use js_ffi_cross.Text.{Text}
use js_ffi_cross.Memory.{Buffer, IsBytes, IsView}
use js_ffi_cross.CType.{size}
use js_ffi_cross.CType.Coerce.{Types, TypeSpec}
use js_ffi_cross.Value.{Properties, object, instance_of}
use js_ffi_cross.World.{World, Host, pure, then_run, within}
use js_ffi_cross.Layout.Struct.{StructType, new_struct, as_type}
use js_ffi_cross.Layout.Construction.{new_struct-IsDistinct}
use js_ffi_cross.Access.{Composite}
use js_ffi_cross.Instances.{new_instance, to_object}
use js_ffi_cross.Instances.Objects.{Integers, AllInRange, properties_of, Holds, IsDistinct-Found}
use js_ffi_cross.Instances.Offsets.{recalc-Ascending}
use js_ffi_cross.Instances.Loops.{Assigned, assign_all-Assigned, to_properties-Holds}

module _ (host : Host) (composite : Composite) (types : Types) (fields : List (Text × TypeSpec))
    (packed : Bool) (s : StructType) (made : new_struct host.platform types fields packed ≡ ok s)
    (ints : Integers s.fields) (small : s.size ≤ 2 ^ 32) where
  -- A buffer that can back an instance.
  abbrev pub Backs : Buffer → Type 0
  Backs buf = (s.size ≤ buf.length) × IsView buf

  pub to_object-Holds :
      (buf : Buffer) (vs : List ℤ) (w : World)
      → Backs buf
      → Holds host s.fields ints vs w.memory buf.address
      → IsBytes w.memory
      → to_object host composite types (as_type s) buf w ≡ (ok (properties_of s.fields ints vs), w)
  unfolding to_object
  to_object-Holds buf vs w (long, view) holds is_bytes =
      let (distinct, fixed, same) =
        new_struct-IsDistinct host.platform types fields packed s made in
      to_properties-Holds host composite types s.size s.alignment s.fields buf view s.fields ints vs
        0 s.size w (recalc-Ascending host.platform s fixed ints) holds
        (IsDistinct-Found s.fields distinct) long small is_bytes

  module _ (vs : List ℤ) (range : AllInRange s.fields ints vs) where
    abbrev pub properties : Properties
    properties = properties_of s.fields ints vs

    assigned_lem :
        (buf : Buffer) (backs : Backs buf) (w : World)
        → IsBytes w.memory
        → Assigned host composite types s.size s.alignment s.fields buf backs.1 s.fields ints vs 0
            s.size w
    assigned_lem buf (long, view) w is_bytes =
        let (distinct, fixed, same) =
          new_struct-IsDistinct host.platform types fields packed s made in
        assign_all-Assigned host composite types s.size s.alignment s.fields buf view s.fields ints
          vs 0 s.size w (recalc-Ascending host.platform s fixed ints) range
          (IsDistinct-Found s.fields distinct) long small is_bytes

    -- The fields hold the values, and no byte outside of the struct has changed.
    pub record IsFilled (buf : Buffer) (w w' : World) : Type 0 where
      pub is_bytes : IsBytes w'.memory
      pub holds : Holds host s.fields ints vs w'.memory buf.address
      pub frame :
          (q : ℕ) → (q < buf.address) ⊎ (buf.address + s.size ≤ q) → w'.memory q ≡ w.memory q

    filled_lem :
        (buf : Buffer) (backs : Backs buf) (w : World) (is_bytes : IsBytes w.memory)
        → IsFilled buf w (record w { memory = (assigned_lem buf backs w is_bytes).after })
    filled_lem buf backs w is_bytes =
        let a = assigned_lem buf backs w is_bytes in
        record {
          is_bytes = a.is_bytes;
          holds = a.holds;
          frame = λ q outside. a.frame q (omega arith);
        }

    pub new_instance_on :
        (buf : Buffer)
        → Backs buf
        → (w : World) → IsBytes w.memory
        → (w' : World) × (new_instance host composite types
              (as_type s)
              (some buf)
              (some (object properties))
              w
            ≡ (ok (instance_of (as_type s) buf), w'))
          × IsFilled buf w w'
    unfolding new_instance size
    new_instance_on buf backs w is_bytes =
        let a = assigned_lem buf backs w is_bytes in
        let enough : ltb buf.length s.size ≡ false = ground arith in
        (
          record w { memory = a.after },
          rw enough
              (ap (λ r. then_run r (λ store. pure (instance_of (as_type s) store))) a.returns),
          filled_lem buf backs w is_bytes,
        )

    module _ (w : World) where
      abbrev pub store : Buffer
      store = record { address = host.place w.allocated s.size; length = s.size; room = s.size }

      abbrev cleared : World
      cleared = record {
        memory = λ q. if within store.address s.size q then 0 else w.memory q;
        allocated = (store.address, s.size) ∷ w.allocated;
      }

      -- An object with an integer in range for every field of a struct type that `Struct` returned,
      -- packed or not, whose fields are of integer types: `new` with the object makes an instance in
      -- a new buffer of the type's size, `toObject` of the instance is the object again, and no byte
      -- outside of that buffer changes. The object has its properties in the order of the fields, the
      -- struct is at most 2^32 bytes long, and the memory holds bytes. Integer types are here those
      -- of one, two or four bytes whose values are Numbers and those of eight bytes, whose values are
      -- BigInts, not `bool` and `char`; a `long`, `size_t` or the like of four bytes, whose setter
      -- throws, is none of them.
      pub to_object-new_instance :
          IsBytes w.memory
          → (w' : World) × (new_instance host composite types
                (as_type s)
                none
                (some (object properties))
                w
              ≡ (ok (instance_of (as_type s) store), w'))
            × (to_object host composite types (as_type s) store w' ≡ (ok properties, w'))
            × ((q : ℕ) → within store.address s.size q ≡ false → w'.memory q ≡ w.memory q)
      unfolding new_instance size
      to_object-new_instance is_bytes =
          let clear : IsBytes cleared.memory = λ q. ground (arith, is_bytes q) in
          let backs : Backs store = omega arith in
          let a = assigned_lem store backs cleared clear in
          let filled = filled_lem store backs cleared clear in
          let w' : World = record cleared { memory = a.after } in
          (
            w',
            ap (λ r. then_run r (λ store. pure (instance_of (as_type s) store))) a.returns,
            to_object-Holds store vs w' backs filled.holds filled.is_bytes,
            λ q outside. filled.frame q (ground arith) ∙ rw outside refl,
          )
