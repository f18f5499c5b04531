-- ===== src/Access/Direct.antt =====
-- `get`, `set` and `alloc` of lib/ref/ref.js at a type of indirection 1, whose own accessors they call.
use js_ffi_cross.Base.{ℕ, ◌≡◌, ℤ, pos, some, none, ◌∷◌, ap, ◌∙◌, if◌then◌else◌}
use js_ffi_cross.Base.Result.{ok}
use js_ffi_cross.Memory.{Buffer}
use js_ffi_cross.CType.{CType, indirection, size}
use js_ffi_cross.CType.Coerce.{Types, typed}
use js_ffi_cross.Value.{Value, TypedBuffer}
use js_ffi_cross.World.{World, Host, pure, then_run, within}
use js_ffi_cross.Access.{
  Composite, accessor, by_accessor_get, by_accessor_set, get, set, alloc, value_size,
}

module _ (host : Host) (composite : Composite) (types : Types) (type : CType)
    (direct : indirection type ≡ 1) where
  pub set_direct :
      (buf : TypedBuffer) (value : Value) (o : ℤ) (w : World)
      → set host composite types buf value o (some (typed type)) w
        ≡ by_accessor_set host composite types (accessor type) type buf.view value o w
  unfolding set
  set_direct buf value o w = rw direct

  pub get_direct :
      (view : Buffer) (o : ℤ) (w : World)
      → get host composite types (record { view = view; type = some (typed type) }) o none w
        ≡ by_accessor_get host composite types (accessor type) type view o w
  unfolding get
  get_direct view o w = rw direct

  pub get_direct_as :
      (buf : TypedBuffer) (o : ℤ) (w : World)
      → get host composite types buf o (some (typed type)) w
        ≡ by_accessor_get host composite types (accessor type) type buf.view o w
  unfolding get
  get_direct_as buf o w = rw direct

  pub value_size_direct : value_size host composite types type ≡ size host.platform type
  unfolding value_size
  value_size_direct = rw direct

  module _ (value : Value) (w : World) where
    abbrev n : ℕ
    n = size host.platform type

    abbrev view : Buffer
    view = record { address = host.place w.allocated n; length = n; room = n }

    -- The world when `set` is called.
    abbrev pub cleared : World
    cleared = record {
      memory = λ q. if within view.address n q then 0 else w.memory q;
      allocated = (view.address, n) ∷ w.allocated;
    }

    pub alloc_direct :
        (w' : World)
        → by_accessor_set host composite types (accessor type) type view value (pos 0) cleared
          ≡ (ok tt, w')
        → alloc host composite types (typed type) (some value) w
          ≡ (ok (record { view = view; type = some (typed type) }), w')
    unfolding alloc
    alloc_direct w' set_returns =
        let buf : TypedBuffer = record { view = view; type = some (typed type) } in
        rw value_size_direct (
          ap (λ r. then_run r (λ done. pure buf))
            (set_direct buf value (pos 0) cleared ∙ set_returns))
