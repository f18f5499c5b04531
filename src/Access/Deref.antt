-- ===== src/Access/Deref.antt =====
-- `ref` and `deref` of lib/ref/ref.js, one after the other.
use js_ffi_cross.Base.{
  ℕ, ◌+◌, ◌*◌, ◌^◌, ◌≤◌, ◌<◌, ◌≡◌, ◌≢◌, ap, ◌∙◌, pos, some, ◌∷◌, arith, ◌==◌, false, if◌then◌else◌,
}
use js_ffi_cross.Base.Result.{ok}
use js_ffi_cross.Memory.{Buffer}
use js_ffi_cross.CType.{CType, ref_of, indirection}
use js_ffi_cross.CType.Coerce.{Types, typed, ref_type, deref_type}
use js_ffi_cross.Value.{Value, TypedBuffer, reference}
use js_ffi_cross.Codec.Positional.{store_outside}
use js_ffi_cross.World.{
  World, Host, Action, pure, lift, then_run, within, pointer_size, load_pointer, store_pointer,
}
use js_ffi_cross.Pointers.{read_pointer}
use js_ffi_cross.Pointers.Words.{IsMapped, load-store_pointer, write_pointer_lem, read_pointer_lem}
use js_ffi_cross.Access.{Composite, get_type, pointed_size, value_size, set, alloc, ref, deref}

-- The pointer's target is the type that `refType` was given.
deref_type-ref_of : (type : CType) → indirection type ≢ 0 → deref_type (ref_of type) ≡ ok type
unfolding deref_type
deref_type-ref_of type pointed = ground arith

module _ (host : Host) (composite : Composite) (types : Types) (type : CType)
    (proper : indirection type ≢ 0) where
  value_size-ref_of : value_size host composite types (ref_of type) ≡ pointer_size host
  unfolding value_size
  value_size-ref_of = ground arith

  pointed_size-ref_of :
      pointed_size host composite types (ref_of type) ≡ value_size host composite types type
  unfolding value_size pointed_size
  pointed_size-ref_of = ground arith

  module _ (buf : TypedBuffer) (w : World) where
    abbrev view : Buffer
    view = buf.view

    abbrev fresh : ℕ
    fresh = host.place w.allocated (pointer_size host)

    abbrev pointer : TypedBuffer
    pointer = record {
      view = record { address = fresh; length = pointer_size host; room = pointer_size host };
      type = some (typed (ref_of type));
    }

    -- The worlds after the pointer is allocated, and after the address is in it.
    cleared : World
    cleared = record {
      memory = λ q. if within fresh (pointer_size host) q then 0 else w.memory q;
      allocated = (fresh, pointer_size host) ∷ w.allocated;
    }

    pointing : World
    unfolding cleared
    pointing = store_pointer host fresh view.address cleared

    set_lem :
        IsMapped host fresh (pointer_size host)
        → set host composite types pointer
            (reference view (some (typed type)))
            (pos 0)
            (some (typed (ref_of type)))
            cleared
          ≡ (ok tt, pointing)
    unfolding set pointing
    set_lem mapped =
        let not_zero : (indirection type + 1 == 0) ≡ false = ground arith in
        let not_one : (indirection type + 1 == 1) ≡ false = ground arith in
        let same : fresh + 0 ≡ fresh = omega arith in
        rw (not_zero, not_one)
          (write_pointer_lem host pointer.view view (some (typed type)) 0 cleared (omega arith)
              (rw same mapped.0) (omega arith)
            ∙ ap (λ a. (ok tt, store_pointer host a view.address cleared)) same)

    alloc_lem :
        IsMapped host fresh (pointer_size host)
        → alloc host composite types
            (typed (ref_of type))
            (some (reference view (some (typed type))))
            w
          ≡ (ok pointer, pointing)
    unfolding alloc cleared
    alloc_lem mapped =
        rw value_size-ref_of (ap (λ r. then_run r (λ done. pure pointer)) (set_lem mapped))

    ref_returns :
        get_type host composite types buf ≡ ok type
        → IsMapped host fresh (pointer_size host)
        → ref host composite types buf w ≡ (ok pointer, pointing)
    unfolding ref ref_type
    ref_returns own mapped = rw own (alloc_lem mapped)

    loads_address :
        view.address < 2 ^ (8 * pointer_size host)
        → load_pointer host pointing.memory fresh ≡ view.address
    unfolding pointing
    loads_address fits = load-store_pointer host fresh view.address cleared fits

    -- What `get` does with the view that it read.
    abbrev typed_as_target : Buffer → Action Value
    typed_as_target pointed w' =
        then_run (lift (deref_type (ref_of type)) w')
          (λ t. pure (reference pointed (some (typed t))))

    deref_lem :
        deref host composite types pointer pointing
        ≡ then_run
            (read_pointer host pointer.view
              (pos 0)
              (pointed_size host composite types (ref_of type))
              pointing)
            typed_as_target
    unfolding deref
    deref_lem =
        let not_zero : (indirection type + 1 == 0) ≡ false = ground arith in
        let not_one : (indirection type + 1 == 1) ≡ false = ground arith in rw (not_zero, not_one)

    abbrev n : ℕ
    n = value_size host composite types type

    deref_returns :
        IsMapped host fresh (pointer_size host)
        → IsMapped host view.address 0
        → n ≤ host.room view.address n
        → deref host composite types pointer pointing ≡ (
          ok (
              reference
                (record { address = view.address; length = n; room = host.room view.address n })
                (some (typed type))),
          pointing,
        )
    deref_returns mapped target roomy =
        let same : fresh + 0 ≡ fresh = omega arith in
        let pointed : Buffer = record {
          address = view.address;
          length = n;
          room = host.room view.address n;
        } in
        deref_lem
        ∙ ap (λ k. then_run (read_pointer host pointer.view (pos 0) k pointing) typed_as_target)
            pointed_size-ref_of
        ∙ ap (λ r. then_run r typed_as_target)
            (read_pointer_lem host pointer.view 0 n view.address pointing
              (rw same (mapped.0, omega arith)) (rw same (loads_address (omega arith))) target.0
              roomy)
        ∙ ap (λ r. then_run (lift r pointing) (λ t. pure (reference pointed (some (typed t)))))
            (deref_type-ref_of type proper)

    pointing_frame :
        (q : ℕ) → within fresh (pointer_size host) q ≡ false → pointing.memory q ≡ w.memory q
    unfolding pointing
    pointing_frame q outside =
        store_outside host.endian (pointer_size host) cleared.memory fresh view.address q outside
        ∙ rw outside

    -- `ref` of a Buffer with a type, then `deref`: a Buffer at the same address, with the same type
    -- and the size of a value of that type, and memory changes at most in the bytes of the freshly
    -- allocated pointer. The type's indirection is not 0; the pointer and what it points to are
    -- mapped, and the native module's ArrayBuffer has room for the value.
    pub deref-ref :
        get_type host composite types buf ≡ ok type
        → IsMapped host fresh (pointer_size host)
        → IsMapped host view.address 0
        → n ≤ host.room view.address n
        → (w' : World) × (p : TypedBuffer) × (ref host composite types buf w ≡ (ok p, w'))
          × (deref host composite types p w' ≡ (
            ok (
                reference
                  (record { address = view.address; length = n; room = host.room view.address n })
                  (some (typed type))),
            w',
          ))
          × ((q : ℕ) → within fresh (pointer_size host) q ≡ false → w'.memory q ≡ w.memory q)
    deref-ref own mapped target roomy = (
      pointing,
      pointer,
      ref_returns own mapped,
      deref_returns mapped target roomy,
      pointing_frame,
    )
