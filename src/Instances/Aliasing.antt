-- ===== src/Instances/Aliasing.antt =====
-- The store of an instance that the constructors of lib/ref/struct.js and lib/ref/union.js are given
-- as their object: its own property "ref.buffer" is assigned too.
use js_ffi_cross.Base.{
  ℕ, ◌≡◌, ◌≢◌, inl, inr, refl, ap, ◌∙◌, ℤ, pos, Bool, true, false, some, Bool-cases, ltb,
}
use js_ffi_cross.Base.Result.{Error, Result, ok, err, instance_buffer_too_short}
use js_ffi_cross.Text.{Text, text_eq}
use js_ffi_cross.Memory.{Buffer}
use js_ffi_cross.CType.{
  CType, Accessor, Fields, end, field, indirection, size, no_value, integer, boolean_byte,
  character, float_value, double_value, object_value, c_string, unknown_type,
}
use js_ffi_cross.CType.Coerce.{Types, typed}
use js_ffi_cross.Value.{Value, TypedBuffer, instance_of}
use js_ffi_cross.World.{World, Host, Action, raise_if, then_run, within}
use js_ffi_cross.Access.{Composite, accessor, accessor_get, by_accessor_get, by_accessor_set}
use js_ffi_cross.Access.Direct.{set_direct, get_direct_as}
use js_ffi_cross.Access.Frame.{accessor_set-frame}
use js_ffi_cross.Instances.{
  members, is_array, member_offset, find_field, from_offset, get_member, set_member, get_field,
  set_field, copy_fields, assign_from, new_instance, set_struct,
}

-- A built-in type of indirection 1 other than CString.
pub record IsPlain (type : CType) : Type 0 where
  pub by : Accessor
  pub direct : indirection type ≡ 1
  pub has : accessor type ≡ some by
  pub other : by ≢ c_string

abbrev pub AllPlain : Fields → Type 0
AllPlain end = Unit
AllPlain (field n type offset rest) = IsPlain type × AllPlain rest

-- An action leaves a byte alone, whether it returns or throws.
abbrev LeavesAlone {ℓ} : {A : Type ℓ} → ℕ → Action A → Type 0
LeavesAlone q action = (w : World) → (action w).1.memory q ≡ w.memory q

module _ {ℓ κ} {A : Type ℓ} {B : Type κ} (q : ℕ) where
  then_run-LeavesAlone :
      (r : Result A × World) (next : A → Action B) (w : World)
      → r.1.memory q ≡ w.memory q
      → ((a : A) → LeavesAlone q (next a))
      → (then_run r next).1.memory q ≡ w.memory q
  then_run-LeavesAlone (ok a, w') next w same h = h a w' ∙ same
  then_run-LeavesAlone (err e, w') next w same h = same

raise_if-LeavesAlone : (q : ℕ) (test : Bool) (e : Error) → LeavesAlone q (raise_if test e)
raise_if-LeavesAlone q true e w = refl
raise_if-LeavesAlone q false e w = refl

accessor_get_world :
    (host : Host) (a : Accessor) (buf : Buffer) (o : ℤ) (w : World)
    → a ≢ c_string
    → (accessor_get host a buf o w).1 ≡ w
unfolding accessor_get
accessor_get_world host no_value buf o w other = refl
accessor_get_world host (integer m u n) buf o w other = refl
accessor_get_world host (boolean_byte m u n) buf o w other = refl
accessor_get_world host (character u) buf o w other = refl
accessor_get_world host float_value buf o w other = refl
accessor_get_world host double_value buf o w other = refl
accessor_get_world host (object_value m u n) buf o w other = refl
accessor_get_world host c_string buf o w other = absurd (other refl)
accessor_get_world host unknown_type buf o w other = refl

module _ (host : Host) (composite : Composite) (types : Types) (q : ℕ) where
  module _ (type : CType) (store : Buffer) where
    abbrev with_type : TypedBuffer
    with_type = record { view = store; type = some (typed type) }

    get_plain :
        (member : CType) (offset : ℕ)
        → IsPlain member
        → LeavesAlone q (get_member host composite types type store (some (member, offset)))
    get_plain member offset p w =
        let o = pos (member_offset type offset) in
        ap (λ (r : Result Value × World). r.1.memory q)
          (get_direct_as host composite types member p.direct with_type o w
            ∙ ap (λ a. by_accessor_get host composite types a member store o w) p.has)
        ∙ ap (λ (w' : World). w'.memory q) (accessor_get_world host p.by store o w p.other)

    set_plain :
        within store.address store.length q ≡ false
        → (value : Value) (member : CType) (offset : ℕ) → IsPlain member
        → LeavesAlone q (set_member host composite types type store (some (member, offset)) value)
    set_plain outside value member offset p w =
        let o = pos (member_offset type offset) in
        ap (λ (r : Result (Unit {0}) × World). r.1.memory q)
          (set_direct host composite types member p.direct with_type value o w
            ∙ ap (λ a. by_accessor_set host composite types a member store value o w) p.has)
        ∙ accessor_set-frame host store value o w q p.by p.other outside

    get_found :
        (name : Text) (fields : Fields)
        → AllPlain fields
        → LeavesAlone q (get_member host composite types type store (find_field name fields))
    unfolding find_field
    get_found name end plain w = refl
    get_found name (field n member offset rest) (this, others) w =
        elim (Bool-cases (text_eq n name)) [
          | inl here ↦ rw here (get_plain member offset this w)
          | inr there ↦ rw there (get_found name rest others w)
        ]

    set_found :
        within store.address store.length q ≡ false
        → (value : Value) (name : Text) (fields : Fields) → AllPlain fields
        → LeavesAlone q (set_member host composite types type store (find_field name fields) value)
    unfolding find_field
    set_found outside value name end plain w = refl
    set_found outside value name (field n member offset rest) (this, others) w =
        elim (Bool-cases (text_eq n name)) [
          | inl here ↦ rw here (set_plain outside value member offset this w)
          | inr there ↦ rw there (set_found outside value name rest others w)
        ]

  module _ (type other : CType) (source : Buffer) (plain : AllPlain (members type))
      (other_plain : AllPlain (members other)) (no_array : is_array other ≡ false)
      (outside : within source.address source.length q ≡ false) where
    copy_fields-LeavesAlone :
        (fields : Fields)
        → LeavesAlone q (copy_fields host composite types type source other source fields)
    unfolding copy_fields get_field set_field
    copy_fields-LeavesAlone end w = refl
    copy_fields-LeavesAlone (field n member offset rest) w =
        then_run-LeavesAlone q (get_field host composite types other source n w) _ w
          (get_found other source n (members other) other_plain w)
          (λ value w1.
            then_run-LeavesAlone q (set_field host composite types type source n value w1) _ w1
              (set_found type source outside value n (members type) plain w1)
              (λ done. copy_fields-LeavesAlone rest))

    assign_from-LeavesAlone :
        (store : Buffer)
        → LeavesAlone q (assign_from host composite types type store (instance_of other source))
    unfolding assign_from
    assign_from-LeavesAlone store w = rw no_array (
        then_run-LeavesAlone q
          (copy_fields host composite types type source other source (members other) w) _ w
          (copy_fields-LeavesAlone (members other) w) (λ done w1. refl))

    new_instance-LeavesAlone :
        (view : Buffer)
        → LeavesAlone q
            (new_instance host composite types type (some view) (some (instance_of other source)))
    unfolding new_instance
    new_instance-LeavesAlone view w =
        then_run-LeavesAlone q
          (raise_if (ltb view.length (size host.platform type)) instance_buffer_too_short w) _ w
          (raise_if-LeavesAlone q (ltb view.length (size host.platform type))
            instance_buffer_too_short w)
          (λ checked w1.
            then_run-LeavesAlone q
              (assign_from host composite types type view (instance_of other source) w1) _ w1
              (assign_from-LeavesAlone view w1) (λ store w2. refl))

    -- `set` of a struct type with an instance of another struct or union type, no array, writes at most to the instance's own
    -- buffer, whatever the target and whether it returns or throws: a byte outside of that buffer,
    -- those of the target included, stays as it was. The fields of both types have built-in types
    -- other than CString and pointers.
    pub set_struct_other :
        (same : CType → CType → Bool)
        → same other type ≡ false
        → (target : Buffer) (offset : ℤ) (w : World)
        → (set_struct host composite types same type target
              (instance_of other source)
              offset
              w).1.memory
            q
          ≡ w.memory q
    unfolding set_struct
    set_struct_other same different target offset w = rw different (
        then_run-LeavesAlone q
          (new_instance host composite types type (some (from_offset target offset))
            (some (instance_of other source)) w)
          _ w (new_instance-LeavesAlone (from_offset target offset) w) (λ made w1. refl))
