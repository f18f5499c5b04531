-- ===== src/Foreign/Calls.antt =====
-- The synchronous call of the proxy of lib/_foreign_function.js, up to the native `ffi_call`.
use js_ffi_cross.Base.{
  ℕ, suc, ◌+◌, ◌*◌, ◌^◌, ◌<◌, ◌≡◌, refl, ap, ◌∙◌, true, some, List, [], ◌∷◌, length, arith, ◌==◌,
  if◌then◌else◌,
}
use js_ffi_cross.Base.Result.{Result}
use js_ffi_cross.Memory.{Buffer, IsBytes}
use js_ffi_cross.CType.{CType}
use js_ffi_cross.CType.Coerce.{Types, typed}
use js_ffi_cross.Value.{Value}
use js_ffi_cross.World.{World, Host, then_run, within, pointer_size}
use js_ffi_cross.Access.{Composite, deref}
use js_ffi_cross.Foreign.{Libffi, Proxy, write_arguments, call_proxy, ffi_call}
use js_ffi_cross.Pointers.Words.{IsMapped}
use js_ffi_cross.Foreign.Marshal.{
  taken, AllMarshal, Placed, Marshalled, Writes, next_slot, pointing, pointing-IsBytes,
  pointing-Placed, pointing_taken,
}
use js_ffi_cross.Foreign.Arguments.{round}

module _ (host : Host) (composite : Composite) (types : Types) where
  abbrev word : ℕ
  word = pointer_size host

  pub length-AllMarshal :
      (arg_types : List CType) (vals : List Value)
      → AllMarshal host composite types arg_types vals
      → length vals ≡ length arg_types
  length-AllMarshal [] [] h = refl
  length-AllMarshal [] (v ∷ vals) h = absurd h
  length-AllMarshal (t ∷ rest) [] h = absurd h
  length-AllMarshal (t ∷ rest) (v ∷ vals) (first, h) = omega (arith, length-AllMarshal rest vals h)

  add_slots : (i k : ℕ) → (i + k) * word ≡ i * word + k * word
  add_slots i k = grind arith

  -- All rounds: every slot is one of the bytes of a buffer that was given out.
  pub write_arguments-Writes :
      (number : ℕ → ℕ) (args_list : Buffer) (index : ℕ) (arg_types : List CType) (vals : List Value)
      (w : World)
      → AllMarshal host composite types arg_types vals
      → IsBytes w.memory
      → Placed host composite types w.allocated arg_types
      → (index + length arg_types) * word < 2 ^ 32
      → IsMapped host args_list.address ((index + length arg_types) * word)
      → ((q : ℕ)
          → within (args_list.address + index * word) (length arg_types * word) q ≡ true
          → taken w.allocated q ≡ true)
      → Writes host composite types number args_list index arg_types vals w
  unfolding write_arguments
  write_arguments-Writes number args_list index [] [] w marshals is_bytes placed fits (base, mapped)
        own =
      record {
        after = w;
        returns = refl;
        marshalled = tt;
        is_bytes = is_bytes;
        frame = λ q given outside. refl;
      }
  write_arguments-Writes number args_list index [] (v ∷ vals) w marshals is_bytes placed fits
        (base, mapped) own =
      absurd marshals
  write_arguments-Writes number args_list index (t ∷ rest) [] w marshals is_bytes placed fits
        (base, mapped) own =
      absurd marshals
  write_arguments-Writes number args_list index (t ∷ rest) (v ∷ vals) w (marshals, others) is_bytes
        (placed, apart, later) fits (base, mapped) own =
      let first = pointing host composite types args_list index t v w marshals is_bytes in
      round host composite types number args_list index t rest v vals w marshals is_bytes
        (omega (
          arith,
          add_slots index (suc (length rest)),
          add_slots (index + 1) (length rest),
          next_slot host composite types index,
          next_slot host composite types (length rest),
        ))
        (omega arith)
        (omega (
          arith,
          add_slots index (suc (length rest)),
          add_slots (index + 1) (length rest),
          next_slot host composite types index,
          next_slot host composite types (length rest),
        ))
        placed (λ q inside. own q (ground (arith, next_slot host composite types (length rest))))
        apart
        (λ q inside. own q (
          ground (
            arith,
            next_slot host composite types index,
            next_slot host composite types (length rest),
          )))
        (write_arguments-Writes number args_list (index + 1) rest vals first others
          (pointing-IsBytes host composite types args_list index t v w marshals is_bytes)
          (pointing-Placed host composite types args_list index t v w marshals is_bytes rest later)
          (omega (
            arith,
            add_slots index (suc (length rest)),
            add_slots (index + 1) (length rest),
            next_slot host composite types index,
            next_slot host composite types (length rest),
          ))
          (
            base,
            omega (
              arith,
              add_slots index (suc (length rest)),
              add_slots (index + 1) (length rest),
              next_slot host composite types index,
              next_slot host composite types (length rest),
            ),
          )
          (λ q inside.
            pointing_taken host composite types args_list index t v w marshals is_bytes q
            ∙ ground (
              arith,
              own q,
              next_slot host composite types index,
              next_slot host composite types (length rest),
            )))

  module _ (libffi : Libffi) (proxy : Proxy) (w : World) where
    abbrev pub result : Buffer
    result = record {
      address = host.place w.allocated proxy.result_size;
      length = proxy.result_size;
      room = proxy.result_size;
    }

    -- The world with the result's storage, and then with the array of arguments.
    abbrev pub stored : World
    stored = record {
      memory = λ q. if within result.address proxy.result_size q then 0 else w.memory q;
      allocated = (result.address, proxy.result_size) ∷ w.allocated;
    }

    abbrev pub args_list : Buffer
    args_list = record {
      address = host.place stored.allocated proxy.args_array_size;
      length = proxy.args_array_size;
      room = proxy.args_array_size;
    }

    abbrev pub ready : World
    ready = record {
      memory = λ q. if within args_list.address proxy.args_array_size q then 0 else stored.memory q;
      allocated = (args_list.address, proxy.args_array_size) ∷ stored.allocated;
    }

    -- What the proxy does once the arguments are written.
    abbrev pub call_and_read : World → Result Value × World
    call_and_read w' =
        then_run (ffi_call host composite types libffi proxy.cif proxy.func_ptr result args_list w')
          (λ done.
            deref host composite types
              (record { view = result; type = some (typed proxy.return_type) }))

    pub call_proxy_lem :
        (args : List Value)
        → length args ≡ length proxy.arg_types
        → call_proxy host composite types libffi proxy args w
          ≡ then_run
              (write_arguments host composite types suc args_list 0 proxy.arg_types args ready)
              (λ done. call_and_read)
    unfolding call_proxy
    call_proxy_lem args same =
        let equal : (length args == length proxy.arg_types) ≡ true = ground arith in rw equal

    pub ready-IsBytes : IsBytes w.memory → IsBytes ready.memory
    ready-IsBytes is_bytes q = ground (arith, is_bytes q)

    -- The loop of a call, from the world with both buffers.
    pub written :
        (args : List Value)
        → AllMarshal host composite types proxy.arg_types args
        → IsBytes w.memory
        → proxy.args_array_size ≡ length proxy.arg_types * word
        → proxy.args_array_size < 2 ^ 32
        → IsMapped host args_list.address proxy.args_array_size
        → Placed host composite types ready.allocated proxy.arg_types
        → Writes host composite types suc args_list 0 proxy.arg_types args ready
    written args marshals is_bytes sized small (base, mapped) placed =
        let no_offset : 0 * word ≡ 0 = omega arith in
        write_arguments-Writes suc args_list 0 proxy.arg_types args ready marshals
          (ready-IsBytes is_bytes) placed (omega (arith, add_slots 0 (length proxy.arg_types)))
          (base, omega (arith, add_slots 0 (length proxy.arg_types)))
          (λ q inside. ground (arith, no_offset))

    -- A call of the proxy with as many arguments as it has types, each of which can be marshalled as
    -- its type, comes to the native `ffi_call` in a world where the word in each slot of the array of
    -- arguments is not NULL and points to where `get` reads the argument as its type, and returns
    -- what `deref` then reads from the storage of the result, or what either of the two throws. The
    -- memory holds bytes; the array is mapped, not at NULL, below 2^32 bytes long and has a slot for
    -- each type; the buffers of the arguments are mapped and lie apart from those given out before.
    pub call_proxy-Marshalled :
        (args : List Value)
        → AllMarshal host composite types proxy.arg_types args
        → IsBytes w.memory
        → proxy.args_array_size ≡ length proxy.arg_types * word
        → proxy.args_array_size < 2 ^ 32
        → IsMapped host args_list.address proxy.args_array_size
        → Placed host composite types ready.allocated proxy.arg_types
        → (w' : World) × Marshalled host composite types w' args_list.address 0 proxy.arg_types args
          × (call_proxy host composite types libffi proxy args w ≡ call_and_read w')
    call_proxy-Marshalled args marshals is_bytes sized small mapped placed =
        let run = written args marshals is_bytes sized small mapped placed in
        (
          run.after,
          run.marshalled,
          call_proxy_lem args (length-AllMarshal proxy.arg_types args marshals)
              ∙ ap (λ r. then_run r (λ done. call_and_read)) run.returns,
        )
