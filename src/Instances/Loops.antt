-- ===== src/Instances/Loops.antt =====
-- The loops over the fields of a struct instance of lib/ref/struct.js, for fields of integer types.
use js_ffi_cross.Base.{
  ℕ, ◌+◌, ◌^◌, ◌≤◌, ◌<◌, ◌≡◌, ◌⊎◌, inl, refl, ap, ◌∙◌, ℤ, some, List, [], ◌∷◌, arith,
}
use js_ffi_cross.Base.Result.{ok}
use js_ffi_cross.Text.{Text}
use js_ffi_cross.Memory.{Memory, Buffer, IsBytes, IsView}
use js_ffi_cross.CType.{CType, Fields, end, field, struct}
use js_ffi_cross.CType.Coerce.{Types, typed}
use js_ffi_cross.Value.{TypedBuffer}
use js_ffi_cross.World.{World, Host, pure, then_run}
use js_ffi_cross.Codec.Positional.{store_outside}
use js_ffi_cross.Codec.WriteLaws.{pattern_of}
use js_ffi_cross.Accessors.Positional.{one, two, four}
use js_ffi_cross.Access.{Composite}
use js_ffi_cross.Access.Alloc.{IntegerSize, narrow, eight, size_of}
use js_ffi_cross.Instances.{
  find_field, get_field, set_field, get_member, set_member, assign_all, to_properties,
}
use js_ffi_cross.Instances.Integers.{
  IsInteger, width_of, InRange, value_of, standing, putting, get_integer, set_integer,
  put_integer-IsBytes, integer_at-put_integer,
}
use js_ffi_cross.Instances.Objects.{
  Integers, Ascending, Ascending-le, AllInRange, properties_of, Found, Holds, standing_moved,
}

size_of-positive : (k : IntegerSize) → 0 < size_of k
size_of-positive (narrow one) = omega arith
size_of-positive (narrow two) = omega arith
size_of-positive (narrow four) = omega arith
size_of-positive eight = omega arith

module _ (host : Host) (composite : Composite) (types : Types) (size align : ℕ) (all : Fields)
    (buf : Buffer) (view : IsView buf) where
  abbrev type : CType
  type = struct size align all

  abbrev with_type : TypedBuffer
  with_type = record { view = buf; type = some (typed type) }

  -- An address before or behind the bytes from `lo` to `hi`.
  abbrev pub Outside : ℕ → ℕ → ℕ → Type 0
  Outside lo hi q = (q < buf.address + lo) ⊎ (buf.address + hi ≤ q)

  -- One field in its place.
  pub record Placed (n : Text) (member : CType) (o : ℕ) (i : IsInteger member) : Type 0 where
    pub found : find_field n all ≡ some (member, o)
    pub small : o < 2 ^ 32
    pub fits : o + width_of i ≤ buf.length

  module _ (n : Text) (member : CType) (o : ℕ) (i : IsInteger member)
      (p : Placed n member o i) where
    pub get_field_lem :
        (w : World)
        → IsBytes w.memory
        → get_field host composite types type buf n w
          ≡ (ok (value_of i (standing host i w.memory (buf.address + o))), w)
    unfolding get_field
    get_field_lem w is_bytes =
        ap (λ f. get_member host composite types type buf f w) p.found
        ∙ get_integer host composite types i with_type o p.small p.fits view w is_bytes

    pub set_field_lem :
        (w : World) (v : ℤ)
        → InRange i v
        → set_field host composite types type buf n (value_of i v) w
          ≡ (ok tt, record w { memory = putting host i w.memory (buf.address + o) v })
    unfolding set_field
    set_field_lem w v range =
        ap (λ f. set_member host composite types type buf f (value_of i v) w) p.found
        ∙ set_integer host composite types i with_type o p.small p.fits view w v range

    putting-Outside :
        (m : Memory) (v : ℤ) (q : ℕ)
        → Outside o (o + width_of i) q
        → putting host i m (buf.address + o) v q ≡ m q
    putting-Outside m v q outside =
        store_outside host.endian (width_of i) m (buf.address + o) (pattern_of (width_of i) v) q
          (ground arith)

  placed_lem :
      (n : Text) (member : CType) (o lo hi : ℕ) (rest : Fields) (i : IsInteger member)
      (ints : Integers rest)
      → find_field n all ≡ some (member, o)
      → Ascending rest ints (o + width_of i) hi
      → hi ≤ buf.length
      → hi ≤ 2 ^ 32
      → Placed n member o i
  placed_lem n member o lo hi rest i ints found others fits small =
      let up = Ascending-le rest ints (o + width_of i) hi others in
      let positive = size_of-positive i.width in
      record { found = found; small = omega arith; fits = omega arith }

  -- What the loop over an object's properties leaves.
  pub record Assigned (fields : Fields) (ints : Integers fields) (vs : List ℤ) (lo hi : ℕ)
      (w : World) : Type 0 where
    pub after : Memory
    pub returns :
        assign_all host composite types type buf (properties_of fields ints vs) w
        ≡ (ok buf, record w { memory = after })
    pub is_bytes : IsBytes after
    pub holds : Holds host fields ints vs after buf.address
    pub frame : (q : ℕ) → Outside lo hi q → after q ≡ w.memory q

  pub assign_all-Assigned :
      (fields : Fields) (ints : Integers fields) (vs : List ℤ) (lo hi : ℕ) (w : World)
      → Ascending fields ints lo hi
      → AllInRange fields ints vs
      → Found all fields
      → hi ≤ buf.length
      → hi ≤ 2 ^ 32
      → IsBytes w.memory
      → Assigned fields ints vs lo hi w
  unfolding assign_all
  assign_all-Assigned end ints [] lo hi w up range found fits small is_bytes = record {
    after = w.memory;
    returns = refl;
    is_bytes = is_bytes;
    holds = tt;
    frame = λ q outside. refl;
  }
  assign_all-Assigned end ints (v ∷ vs) lo hi w up range found fits small is_bytes = absurd range
  assign_all-Assigned (field n member o rest) (i, ints) [] lo hi w up range found fits small
        is_bytes =
      absurd range
  assign_all-Assigned (field n member o rest) (i, ints) (v ∷ vs) lo hi w (first, others)
        (in_range, ranges) (here, there) fits small is_bytes =
      let up = Ascending-le rest ints (o + width_of i) hi others in
      let placed = placed_lem n member o lo hi rest i ints here others fits small in
      let m1 = putting host i w.memory (buf.address + o) v in
      let bytes1 : IsBytes m1 =
        put_integer-IsBytes host i.unsigned i.width w.memory (buf.address + o) v is_bytes in
      let next =
        assign_all-Assigned rest ints vs (o + width_of i) hi (record w { memory = m1 }) others
          ranges there fits small bytes1 in
      record {
        after = next.after;
        returns =
            ap
              (λ r. then_run (then_run r (λ done. pure buf)) (λ store'.
                assign_all host composite types type store' (properties_of rest ints vs)))
              (set_field_lem n member o i placed w v in_range)
            ∙ next.returns;
        is_bytes = next.is_bytes;
        holds = (
          standing_moved host i next.after m1 (buf.address + o) (buf.address + o)
                (λ j low. next.frame (buf.address + o + j) (inl (omega arith)))
              ∙ integer_at-put_integer host i.unsigned i.width w.memory (buf.address + o) v
                  in_range,
          next.holds,
        );
        frame = λ q outside.
            next.frame q (omega arith)
            ∙ putting-Outside n member o i placed w.memory v q (omega arith);
      }

  pub to_properties-Holds :
      (fields : Fields) (ints : Integers fields) (vs : List ℤ) (lo hi : ℕ) (w : World)
      → Ascending fields ints lo hi
      → Holds host fields ints vs w.memory buf.address
      → Found all fields
      → hi ≤ buf.length
      → hi ≤ 2 ^ 32
      → IsBytes w.memory
      → to_properties host composite types type buf fields w
        ≡ (ok (properties_of fields ints vs), w)
  unfolding to_properties
  to_properties-Holds end ints [] lo hi w up holds found fits small is_bytes = refl
  to_properties-Holds end ints (v ∷ vs) lo hi w up holds found fits small is_bytes = absurd holds
  to_properties-Holds (field n member o rest) (i, ints) [] lo hi w up holds found fits small
        is_bytes =
      absurd holds
  to_properties-Holds (field n member o rest) (i, ints) (v ∷ vs) lo hi w (first, others)
        (stands, holds) (here, there) fits small is_bytes =
      let placed = placed_lem n member o lo hi rest i ints here others fits small in
      let next =
        to_properties-Holds rest ints vs (o + width_of i) hi w others holds there fits small
          is_bytes in
      rw (get_field_lem n member o i placed w is_bytes) (rw stands (rw next refl))
