-- ===== src/Foreign/Marshal.antt =====
-- The loop of lib/_foreign_function.js that writes the arguments: what stands in memory behind it.
use js_ffi_cross.Base.{
  ℕ, ◌+◌, ◌*◌, ◌^◌, ◌<◌, ◌≡◌, ◌≢◌, refl, ap, ◌∙◌, pos, Bool, true, false, ◌||◌, none, some, List,
  [], ◌∷◌, length, arith,
}
use js_ffi_cross.Base.Result.{ok}
use js_ffi_cross.Memory.{Memory, Buffer, IsBytes}
use js_ffi_cross.CType.{CType}
use js_ffi_cross.CType.Coerce.{Types, typed}
use js_ffi_cross.Value.{Value, TypedBuffer, reference}
use js_ffi_cross.World.{World, Host, then_run, within, pointer_size, load_pointer, store_pointer}
use js_ffi_cross.Codec.Positional.{store_outside}
use js_ffi_cross.Accessors.RoundTrip.{store-IsBytes}
use js_ffi_cross.Pointers.{write_pointer}
use js_ffi_cross.Pointers.Words.{IsMapped, load-store_pointer, write_pointer_lem}
use js_ffi_cross.Access.{Composite, alloc, get, value_size}
use js_ffi_cross.Foreign.{write_argument, write_arguments}

-- A byte of a buffer that was given out.
abbrev pub taken : List (ℕ × ℕ) → ℕ → Bool
taken [] q = false
taken ((a, n) ∷ allocated) q = within a n q || taken allocated q

module _ (host : Host) (composite : Composite) (types : Types) where
  abbrev pub bytes : CType → ℕ
  bytes type = value_size host composite types type

  abbrev pub fresh : List (ℕ × ℕ) → CType → ℕ
  fresh allocated type = host.place allocated (bytes type)

  -- The buffer of a type's size at an address.
  abbrev pub buffer_at : ℕ → CType → TypedBuffer
  buffer_at a type = record {
    view = record { address = a; length = bytes type; room = bytes type };
    type = some (typed type);
  }

  -- `alloc` stores the value in the fresh buffer alone, and it is read as long as the bytes stand.
  pub record Marshals (type : CType) (val : Value) : Type 0 where
    pub after : World → Memory
    pub returns :
        (w : World)
        → IsBytes w.memory
        → alloc host composite types (typed type) (some val) w ≡ (
          ok (buffer_at (fresh w.allocated type) type),
          record {
            memory = after w;
            allocated = (fresh w.allocated type, bytes type) ∷ w.allocated;
          },
        )
    pub is_bytes : (w : World) → IsBytes w.memory → IsBytes (after w)
    pub frame :
        (w : World)
        → IsBytes w.memory
        → (q : ℕ) → within (fresh w.allocated type) (bytes type) q ≡ false
        → after w q ≡ w.memory q
    pub reads :
        (w w' : World)
        → IsBytes w.memory
        → IsBytes w'.memory
        → ((q : ℕ)
            → within (fresh w.allocated type) (bytes type) q ≡ true
            → w'.memory q ≡ after w q)
        → get host composite types (buffer_at (fresh w.allocated type) type) (pos 0) none w'
          ≡ (ok val, w')

  -- Each value can be marshalled as its type, and there are as many of both.
  abbrev pub AllMarshal : List CType → List Value → Type 0
  AllMarshal [] [] = Unit
  AllMarshal (type ∷ rest) (val ∷ vals) = Marshals type val × AllMarshal rest vals
  AllMarshal _ _ = ⊥

  -- The buffers of values of the types, allocated one after another, are mapped and lie apart from
  -- what was given out before.
  abbrev pub Placed : List (ℕ × ℕ) → List CType → Type 0
  Placed allocated [] = Unit
  Placed allocated (type ∷ rest) =
      IsMapped host (fresh allocated type) (bytes type)
      × ((q : ℕ) → taken allocated q ≡ true → within (fresh allocated type) (bytes type) q ≡ false)
      × Placed ((fresh allocated type, bytes type) ∷ allocated) rest

  abbrev pub slot : ℕ → ℕ → ℕ
  slot base index = base + index * pointer_size host

  -- The word in each slot from an index on is not NULL and points to where `get` reads the value.
  abbrev pub Marshalled : World → ℕ → ℕ → List CType → List Value → Type 0
  Marshalled w base index [] vals = Unit
  Marshalled w base index (type ∷ rest) [] = Unit
  Marshalled w base index (type ∷ rest) (val ∷ vals) =
      (load_pointer host w.memory (slot base index) ≢ 0)
      × (get host composite types (buffer_at (load_pointer host w.memory (slot base index)) type)
            (pos 0) none w
          ≡ (ok val, w))
      × Marshalled w base (index + 1) rest vals

  -- The loop's run from an index on.
  pub record Writes (number : ℕ → ℕ) (args_list : Buffer) (index : ℕ) (arg_types : List CType)
      (vals : List Value) (w : World) : Type 0 where
    pub after : World
    pub returns :
        write_arguments host composite types number args_list index arg_types vals w
        ≡ (ok tt, after)
    pub marshalled : Marshalled after args_list.address index arg_types vals
    pub is_bytes : IsBytes after.memory
    pub frame :
        (q : ℕ)
        → taken w.allocated q ≡ true
        → within (slot args_list.address index) (length arg_types * pointer_size host) q ≡ false
        → after.memory q ≡ w.memory q

  pub next_slot : (n : ℕ) → (n + 1) * pointer_size host ≡ n * pointer_size host + pointer_size host
  next_slot n = grind arith

  module _ (args_list : Buffer) (index : ℕ) (type : CType) (val : Value) (w : World)
      (marshals : Marshals type val) (is_bytes : IsBytes w.memory) where
    abbrev a : ℕ
    a = fresh w.allocated type

    abbrev allocated : World
    allocated = record { memory = marshals.after w; allocated = (a, bytes type) ∷ w.allocated }

    abbrev here : ℕ
    here = slot args_list.address index

    -- The world after one argument.
    pub pointing : World
    pointing = store_pointer host here a allocated

    pub write_argument_lem :
        index * pointer_size host < 2 ^ 32
        → here ≢ 0
        → here < 2 ^ (8 * pointer_size host)
        → write_argument host composite types args_list index type val w ≡ (ok tt, pointing)
    unfolding write_argument pointing
    write_argument_lem small present mapped =
        let val_ptr = buffer_at a type in
        ap
          (λ r. then_run r (λ p.
            write_pointer host args_list (reference p.view p.type)
              (pos (index * pointer_size host))))
          (marshals.returns w is_bytes)
        ∙ write_pointer_lem host args_list val_ptr.view val_ptr.type (index * pointer_size host)
            allocated small present mapped

    pub pointing-IsBytes : IsBytes pointing.memory
    unfolding pointing
    pointing-IsBytes =
        store-IsBytes host.endian (pointer_size host) allocated.memory here a
          (marshals.is_bytes w is_bytes)

    pub pointing_outside :
        (q : ℕ) → within here (pointer_size host) q ≡ false → pointing.memory q ≡ marshals.after w q
    unfolding pointing
    pointing_outside q outside =
        store_outside host.endian (pointer_size host) allocated.memory here a q outside

    pub pointing_points :
        a < 2 ^ (8 * pointer_size host) → load_pointer host pointing.memory here ≡ a
    unfolding pointing
    pointing_points mapped = load-store_pointer host here a allocated mapped

    pub pointing_taken :
        (q : ℕ) → taken pointing.allocated q ≡ (within a (bytes type) q || taken w.allocated q)
    unfolding pointing
    pointing_taken q = refl

    pub pointing-Placed :
        (rest : List CType)
        → Placed ((a, bytes type) ∷ w.allocated) rest
        → Placed pointing.allocated rest
    unfolding pointing
    pointing-Placed rest h = h
