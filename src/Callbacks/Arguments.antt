-- ===== src/Callbacks/Arguments.antt =====
-- The arguments that the callback of lib/callback.js reads, against those that the proxy of
-- lib/_foreign_function.js writes.
use js_ffi_cross.Base.{
  ℕ, suc, ◌+◌, ◌*◌, ◌^◌, ◌≤◌, ◌<◌, ◌≡◌, ◌≢◌, refl, sym, ap, ◌∙◌, pos, Bool, Option, none, some,
  List, [], ◌∷◌, length, arith,
}
use js_ffi_cross.Base.Result.{Result, ok}
use js_ffi_cross.Memory.{Buffer, IsBytes}
use js_ffi_cross.Text.{Text}
use js_ffi_cross.CType.{CType, Builtin, indirection, size}
use js_ffi_cross.CType.Coerce.{Types, typed}
use js_ffi_cross.Value.{Value, TypedBuffer, scalar}
use js_ffi_cross.World.{World, Host, pure, then_run, pointer_size, load_pointer}
use js_ffi_cross.Pointers.{read_pointer}
use js_ffi_cross.Pointers.Words.{read_pointer_lem}
use js_ffi_cross.Access.{Composite, get, deref, accessor, accessor_get, as_scalar}
use js_ffi_cross.Access.Direct.{value_size_direct, get_direct}
use js_ffi_cross.Access.Alloc.{IntegerSize, size_of, integer_value, integer_type}
use js_ffi_cross.Instances.Integers.{integer_at, getter_at}
use js_ffi_cross.Foreign.Marshal.{Marshalled, buffer_at, slot, next_slot}
use js_ffi_cross.Callbacks.{read_arguments}

-- Types whose values are passed as they are, and read in the same way however many bytes the
-- ArrayBuffer behind a value's own has.
pub record IsDirect (host : Host) (composite : Composite) (types : Types) (type : CType)
    : Type 0 where
  pub direct : indirection type ≡ 1
  pub indifferent :
      (a room : ℕ) (w : World)
      → IsBytes w.memory
      → size host.platform type ≤ room
      → get host composite types
          (record {
            view = record { address = a; length = size host.platform type; room = room };
            type = some (typed type);
          })
          (pos 0)
          none
          w
        ≡ get host composite types
            (record {
              view = record {
                address = a;
                length = size host.platform type;
                room = size host.platform type;
              };
              type = some (typed type);
            })
            (pos 0)
            none
            w

-- Integer types are such types.
module _ (host : Host) (composite : Composite) (types : Types) (name : Option Text)
    (ffi : Option Builtin) (align : Option ℕ) (unsigned : Bool) (k : IntegerSize) where
  abbrev integer : CType
  integer = integer_type name ffi align unsigned k

  read_integer :
      (a room : ℕ) (w : World)
      → IsBytes w.memory
      → size_of k ≤ room
      → get host composite types
          (record {
            view = record { address = a; length = size_of k; room = room };
            type = some (typed integer);
          })
          (pos 0)
          none
          w
        ≡ (ok (scalar (integer_value k (integer_at host unsigned k w.memory (a + 0)))), w)
  unfolding accessor accessor_get
  read_integer a room w is_bytes long =
      let view : Buffer = record { address = a; length = size_of k; room = room } in
      get_direct host composite types integer refl view (pos 0) w
      ∙ ap (λ r. (as_scalar host r, w))
          (getter_at host unsigned view 0 (omega arith) w.memory k (omega arith) long is_bytes)

  pub integer-IsDirect : IsDirect host composite types integer
  unfolding size
  integer-IsDirect = record {
    direct = refl;
    indifferent = λ a room w is_bytes long.
        read_integer a room w is_bytes long
        ∙ sym (read_integer a (size_of k) w is_bytes (omega arith));
  }

abbrev pub AllDirect : Host → Composite → Types → List CType → Type 0
AllDirect host composite types [] = Unit
AllDirect host composite types (type ∷ rest) =
    IsDirect host composite types type × AllDirect host composite types rest

module _ (host : Host) (composite : Composite) (types : Types) (params : Buffer) (w : World)
    (is_bytes : IsBytes w.memory) (roomy : (a n : ℕ) → n ≤ host.room a n) where
  abbrev word : ℕ
  word = pointer_size host

  abbrev of_type : CType → Buffer → TypedBuffer
  of_type type view = record { view = view; type = some (typed type) }

  deref_as_get :
      (buf : TypedBuffer)
      → deref host composite types buf w ≡ get host composite types buf (pos 0) none w
  unfolding deref
  deref_as_get buf = refl

  abbrev pointed : ℕ → ℕ
  pointed index = load_pointer host w.memory (slot host composite types params.address index)

  add_slots : (i k : ℕ) → (i + k) * word ≡ i * word + k * word
  add_slots i k = grind arith

  -- One argument, and what follows it.
  read_argument :
      (index : ℕ) (type : CType) (val : Value)
      → IsDirect host composite types type
      → params.address ≢ 0
      → params.address + index * word < 2 ^ (8 * word)
      → pointed index ≢ 0
      → get host composite types
          (buffer_at host composite types (pointed index) type)
          (pos 0)
          none
          w
        ≡ (ok val, w)
      → (next : Value → World → Result (List Value) × World)
      → then_run
          (read_pointer host params (pos (index * word)) (size host.platform type) w)
          (λ view w1. then_run (deref host composite types (of_type type view) w1) next)
        ≡ next val w
  read_argument index type val direct mapped fits present reads next =
      let p = pointed index in
      let n = size host.platform type in
      let long : n ≤ host.room p n = omega (arith, roomy p n) in
      ap
        (λ r.
          then_run r (λ view w1. then_run (deref host composite types (of_type type view) w1) next))
        (read_pointer_lem host params (index * word) n p w (omega arith, omega arith) refl present
          long)
      ∙ ap (λ r. then_run r next)
          (deref_as_get (of_type type (record { address = p; length = n; room = host.room p n }))
            ∙ direct.indifferent p (host.room p n) w is_bytes long
            ∙ ap
                (λ l.
                  get host composite types
                    (of_type type (record { address = p; length = l; room = l })) (pos 0) none w)
                (sym (value_size_direct host composite types type direct.direct))
            ∙ reads)

  -- If the word in each slot of the array of arguments is not NULL and points to where `get` reads a
  -- value, as the proxy of a foreign function leaves the array, then a callback that is given that
  -- array reads those values, as many as it has argument types, and changes nothing. The types have
  -- an indirection of 1 and are read in the same way however long the ArrayBuffer is, as integer types
  -- are; the memory holds bytes, the array is mapped, and the native module's ArrayBuffers are at least
  -- as long as asked for.
  pub read_arguments-Marshalled :
      (index : ℕ) (arg_types : List CType) (vals : List Value)
      → length vals ≡ length arg_types
      → AllDirect host composite types arg_types
      → params.address ≢ 0
      → params.address + (index + length arg_types) * word < 2 ^ (8 * word)
      → Marshalled host composite types w params.address index arg_types vals
      → read_arguments host composite types params index arg_types w ≡ (ok vals, w)
  unfolding read_arguments
  read_arguments-Marshalled index [] [] same direct mapped fits marshalled = refl
  read_arguments-Marshalled index [] (v ∷ vals) same direct mapped fits marshalled =
      absurd (omega arith)
  read_arguments-Marshalled index (t ∷ rest) [] same direct mapped fits marshalled =
      absurd (omega arith)
  read_arguments-Marshalled index (t ∷ rest) (v ∷ vals) same (direct, others) mapped fits
        (present, reads, later) =
      read_argument index t v direct mapped (omega (arith, add_slots index (suc (length rest))))
        present reads
        (λ val w1.
          then_run (read_arguments host composite types params (index + 1) rest w1)
            (λ values. pure (val ∷ values)))
      ∙ ap (λ r. then_run r (λ values. pure (v ∷ values)))
          (read_arguments-Marshalled (index + 1) rest vals (omega arith) others mapped
            (omega (
              arith,
              add_slots index (suc (length rest)),
              add_slots (index + 1) (length rest),
              next_slot host composite types index,
              next_slot host composite types (length rest),
            ))
            later)
