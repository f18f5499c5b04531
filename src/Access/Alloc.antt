-- ===== src/Access/Alloc.antt =====
-- `alloc` of lib/ref/ref.js with an integer, then `get` of the buffer that it returns.
use js_ffi_cross.Base.{
  ℕ, ◌+◌, ◌≡◌, refl, ap, ◌∙◌, ℤ, pos, Bool, true, false, Option, none, some, ◌∷◌, arith,
  if◌then◌else◌,
}
use js_ffi_cross.Base.Result.{ok}
use js_ffi_cross.Scalar.{Scalar, number, bigint}
use js_ffi_cross.Memory.{Memory, Buffer, IsBytes}
use js_ffi_cross.Text.{Text}
use js_ffi_cross.CType.{Builtin, CType, integer, atom, size}
use js_ffi_cross.CType.Coerce.{Types, typed}
use js_ffi_cross.Value.{scalar, TypedBuffer}
use js_ffi_cross.World.{World, Host, stored, within}
use js_ffi_cross.Codec.WriteLaws.{out_of_range}
use js_ffi_cross.Accessors.Getters.{get_functions_generate}
use js_ffi_cross.Accessors.Setters.{set_functions_generate}
use js_ffi_cross.Accessors.Positional.{Narrow, bytes}
use js_ffi_cross.Accessors.RoundTrip.{RoundTrips, get-set_number, get-set_bigint}
use js_ffi_cross.Access.Direct.{alloc_direct, get_direct}
use js_ffi_cross.Access.{Composite, accessor, accessor_get, accessor_set, get, alloc, as_scalar}

-- The sizes of integers: those of Numbers, and eight bytes.
pub data IntegerSize : Type 0 where
  narrow : Narrow → IntegerSize
  eight : IntegerSize

abbrev pub size_of : IntegerSize → ℕ
size_of (narrow k) = bytes k
size_of eight = 8

abbrev pub is_eight : IntegerSize → Bool
is_eight (narrow k) = false
is_eight eight = true

-- The value of the type that stands for an integer: a Number or a BigInt.
abbrev pub integer_value : IntegerSize → ℤ → Scalar
integer_value (narrow k) v = number v
integer_value eight v = bigint v

-- A type as `createCType` makes it for an integer of a size, with BigInts for values if it has eight
-- bytes and Numbers if not: all integer types but those that `max_size_is_8` names where they have four.
abbrev pub integer_type : Option Text → Option Builtin → Option ℕ → Bool → IntegerSize → CType
integer_type name ffi alignment unsigned k = atom (record {
  name = name;
  size = size_of k;
  alignment = alignment;
  indirection = 1;
  ffi_type = ffi;
  accessor = integer (is_eight k) unsigned (size_of k);
})

module _ (host : Host) (unsigned : Bool) (v : ℤ) where
  trip_lem :
      (k : IntegerSize) (m : Memory) (buf : Buffer)
      → buf.length ≡ size_of k
      → buf.room ≡ size_of k
      → IsBytes m
      → out_of_range unsigned (size_of k) v ≡ false
      → RoundTrips
          ((set_functions_generate host.endian (is_eight k) unsigned (size_of k)).set m buf
            (integer_value k v)
            (pos 0))
          (λ after.
            (get_functions_generate host.endian (is_eight k) unsigned (size_of k)).get after buf
              (pos 0))
          m
          (buf.address + 0)
          (size_of k)
          (0 + size_of k)
          (integer_value k v)
  trip_lem (narrow n) m buf long roomy is_bytes range =
      get-set_number host.endian unsigned m buf v (pos 0) n is_bytes range (omega arith)
  trip_lem eight m buf long roomy is_bytes range =
      get-set_bigint host.endian unsigned m buf v (pos 0) (omega arith) range (omega arith)

module _ (host : Host) (composite : Composite) (types : Types) (unsigned : Bool) (k : IntegerSize)
    (v : ℤ) (w : World) (name : Option Text) (ffi : Option Builtin) (align : Option ℕ) where
  abbrev type : CType
  type = integer_type name ffi align unsigned k

  abbrev view : Buffer
  view = record {
    address = host.place w.allocated (size_of k);
    length = size_of k;
    room = size_of k;
  }

  abbrev buf : TypedBuffer
  buf = record { view = view; type = some (typed type) }

  abbrev before : World
  before = record {
    memory = λ q. if within view.address (size_of k) q then 0 else w.memory q;
    allocated = (view.address, size_of k) ∷ w.allocated;
  }

  -- The world when the setter has returned.
  abbrev filled : Memory → World
  filled after = record { memory = after; allocated = before.allocated }

  pub alloc_returns :
      (after : Memory)
      → (set_functions_generate host.endian (is_eight k) unsigned (size_of k)).set before.memory
          view
          (integer_value k v)
          (pos 0)
        ≡ ok (after, 0 + size_of k)
      → alloc host composite types (typed type) (some (scalar (integer_value k v))) w
        ≡ (ok buf, filled after)
  unfolding accessor accessor_set size
  alloc_returns after returns =
      alloc_direct host composite types type refl (scalar (integer_value k v)) w (filled after)
        (ap (λ r. stored r before) returns)

  get_returns :
      (after : Memory)
      → (get_functions_generate host.endian (is_eight k) unsigned (size_of k)).get after view
          (pos 0)
        ≡ ok (integer_value k v)
      → get host composite types buf (pos 0) none (filled after)
        ≡ (ok (scalar (integer_value k v)), filled after)
  unfolding accessor accessor_get
  get_returns after reads =
      get_direct host composite types type refl view (pos 0) (filled after)
      ∙ ap (λ r. (as_scalar host r, filled after)) reads

  pub allocated_frame :
      (after : Memory)
      → ((q : ℕ)
          → after q
            ≡ (if within (view.address + 0) (size_of k) q then after q else before.memory q))
      → (q : ℕ) → within view.address (size_of k) q ≡ false
      → after q ≡ w.memory q
  allocated_frame after frame q outside =
      let same : view.address + 0 ≡ view.address = omega arith in frame q ∙ rw (same, outside)

  -- `alloc(type, value)` of an integer type with an integer in its range: a buffer of the type's size
  -- and type, from which `get` with no type named reads the value. Memory changes at most in the
  -- buffer's bytes. The memory holds bytes. Integer types are here those of one, two or four bytes
  -- whose values are Numbers and those of eight bytes, whose values are BigInts, not `bool` and
  -- `char`; a `long`, `size_t` or the like of four bytes, whose setter throws, is none of them.
  pub get-alloc :
      IsBytes w.memory
      → out_of_range unsigned (size_of k) v ≡ false
      → (w' : World) × (alloc host composite types
            (typed type)
            (some (scalar (integer_value k v)))
            w
          ≡ (ok buf, w'))
        × (get host composite types buf (pos 0) none w' ≡ (ok (scalar (integer_value k v)), w'))
        × ((q : ℕ) → within view.address (size_of k) q ≡ false → w'.memory q ≡ w.memory q)
  get-alloc is_bytes range =
      let trip =
        trip_lem host unsigned v k before.memory view refl refl (λ q. ground (arith, is_bytes q))
          range in
      (
        filled trip.after,
        alloc_returns trip.after trip.returns,
        get_returns trip.after trip.reads,
        λ q outside. allocated_frame trip.after trip.frame q outside,
      )
