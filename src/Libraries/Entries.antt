-- ===== src/Libraries/Entries.antt =====
-- What one round of the loop of lib/library.js enters: a function around the address of its symbol.
use mathlib.Core.Path.{subst}
use js_ffi_cross.Base.{
  ℕ, ◌≡◌, refl, sym, ap, ◌∙◌, Bool, true, false, Option, some, List, [], ◌∷◌, ◌==◌, if◌then◌else◌,
  Bool-cases, inl, inr, arith, map,
}
use js_ffi_cross.Base.Result.{
  Error, Result, ok, err, value_or, dynamic_symbol_error, no_symbol_buffer, no_return_type,
  no_argument_array, null_function_pointer,
}
use js_ffi_cross.Memory.{Buffer}
use js_ffi_cross.Text.{Text}
use js_ffi_cross.CType.{CType}
use js_ffi_cross.CType.Coerce.{Types, TypeSpec, typed, coerce_type}
use js_ffi_cross.Value.{
  Value, TypedBuffer, reference, text, scalar, double, instance_of, other_object, object, elements,
}
use js_ffi_cross.World.{World, Host, Action, pure, lift, raise, raise_if, then_run, ◌>>=◌}
use js_ffi_cross.Pointers.{is_null}
use js_ffi_cross.Access.{Composite}
use js_ffi_cross.Cif.{Native, Cif, cif, present}
use js_ffi_cross.Foreign.{Libffi, Proxy, make_proxy, result_size}
use js_ffi_cross.Callbacks.{MakeClosure, coerce_all, foreign_function}
use js_ffi_cross.Libraries.Dynamic.{message_of, Linker, DynamicLibrary, as_buffer, from_buffer, get}
use js_ffi_cross.Libraries.{
  FunctionInfo, VariadicFunction, Entry, plain, asynchronous, variadic, variadic_function,
  define_function,
}

-- A sequence returns only if its first part does, and then the rest does.
pub >>=-runs {ℓ κ} :
    {A : Type ℓ} {B : Type κ} (outcome : Result A × World) (next : A → Action B) (b : B)
    (w' : World)
    → then_run outcome next ≡ (ok b, w')
    → (a : A) × (w : World) × (outcome ≡ (ok a, w)) × (next a w ≡ (ok b, w'))
>>=-runs (ok a, w) next b w' h = (a, w, refl, h)
>>=-runs (err e, w) next b w' h = let no : err e ≡ ok b = ap (λ r. r.0) h in absurd cc

-- Whatever the action returns has the property.
pub record Always {ℓ κ} {A : Type ℓ} (P : A → Type κ) (action : Action A) : Type (ℓ ⊔ κ) where
  pub always : (w w' : World) (a : A) → action w ≡ (ok a, w') → P a

module _ {ℓ κ μ} {A : Type ℓ} {B : Type κ} {P : B → Type μ} where
  returned :
      (outcome : Result A × World) (next : A → Action B) (b : B) (w' : World)
      → ((a : A) → Always P (next a))
      → then_run outcome next ≡ (ok b, w')
      → P b
  returned (ok a, w) next b w' h e = (h a).always w w' b e
  returned (err thrown, w) next b w' h e = let no : err thrown ≡ ok b = ap (λ r. r.0) e in absurd cc

  -- A sequence, by what its last part returns.
  after :
      (action : Action A) {next : A → Action B}
      → ((a : A) → Always P (next a))
      → Always P (action >>= next)
  after action {next = next} h = record { always = λ w w' b e. returned (action w) next b w' h e }

-- A sequence that ends in what is made of the first part's value.
followed {ℓ κ μ ν} :
    {A : Type ℓ} {B : Type κ} {P : A → Type μ} {Q : B → Type ν} {action : Action A} (f : A → B)
    → Always P action
    → ((a : A) → P a → Q (f a))
    → Always Q (action >>= λ a. pure (f a))
followed {Q = Q} {action = action} f h g = record {
  always = λ w w' b e.
      let (a, w1, ran, last) = >>=-runs (action w) (λ a. pure (f a)) b w' e in
      let same : f a ≡ b = ap (λ r. value_or (f a) r.0) last in
      subst Q same (g a (h.always w w1 a ran));
}

-- The last part.
lifted {ℓ μ} :
    {A : Type ℓ} {P : A → Type μ} {result : Result A}
    → ((a : A) → result ≡ ok a → P a)
    → Always P (lift result)
lifted h = record { always = λ w w' a e. h a (ap (λ r. r.0) e) }

abbrev pub pointer_of : Entry → Buffer
pointer_of (plain p) = p.func_ptr
pointer_of (asynchronous p) = p.func_ptr
pointer_of (variadic v) = v.func_ptr

abbrev pub is_variadic : Entry → Bool
is_variadic (variadic v) = true
is_variadic _ = false

abbrev pub is_asynchronous : Entry → Bool
is_asynchronous (asynchronous p) = true
is_asynchronous _ = false

-- The entry is a function of the kind asked for, around what the linker found for its own name in the
-- library, which is not NULL.
pub record IsSymbol (host : Host) (linker : Linker) (dl : DynamicLibrary) (name : Text)
    (info : FunctionInfo) (entry : Entry) : Type 0 where
  pub start : World
  pub later : World
  pub type : Option TypeSpec
  pub found :
      linker.dlsym (from_buffer dl.handle ∷ text name ∷ []) start
      ≡ (ok (reference (pointer_of entry) type), later)
  pub not_null : is_null host (pointer_of entry) ≡ false
  pub variadic_kind : is_variadic entry ≡ info.varargs
  pub asynchronous_kind : is_asynchronous entry ≡ (if info.varargs then false else info.async)

as_buffer-reference :
    (e : Error) (value : Value) (p : TypedBuffer) (w w1 : World)
    → ◌≡◌ {A = Result TypedBuffer × World} (as_buffer e value, w) (ok p, w1)
    → value ≡ reference p.view p.type
as_buffer-reference e value p w w1 h = go value (ap (λ r. r.0) h)
  where
    go : (v : Value) → as_buffer e v ≡ ok p → v ≡ reference p.view p.type
    go (reference view type) same =
        ap (λ r. reference r.view r.type) (ap (value_or (record { view = view; type = type })) same)
    go (scalar x) same = cc
    go (double x) same = cc
    go (text x) same = cc
    go (instance_of x y) same = cc
    go (other_object x) same = cc
    go (object x) same = cc
    go (elements x) same = cc

module _ (host : Host) (linker : Linker) where
  -- `get` returns what the linker found, and never NULL.
  get-found :
      (dl : DynamicLibrary) (name : Text) (w w' : World) (ptr : TypedBuffer)
      → get host linker dl name w ≡ (ok ptr, w')
      → (later : World) × (linker.dlsym (from_buffer dl.handle ∷ text name ∷ []) w
          ≡ (ok (reference ptr.view ptr.type), later))
        × (is_null host ptr.view ≡ false)
  unfolding get
  get-found dl name w w' ptr h =
      let (found, w1, is_found, h1) =
        >>=-runs (linker.dlsym (from_buffer dl.handle ∷ text name ∷ []) w) _ ptr w' h in
      let (p, w2, is_buffer, h2) = >>=-runs (as_buffer no_symbol_buffer found, w1) _ ptr w' h1 in
      let reference_found = as_buffer-reference no_symbol_buffer found p w1 w2 is_buffer in
      elim (Bool-cases (is_null host p.view)) [
        | inl null ↦ absurd (raised (linker.dlerror [] w2) w' ptr (rw null at h2))
        | inr other ↦
            let same : p ≡ ptr = ap (λ r. value_or p r.0) (rw other at h2) in
            (
              w1,
              is_found
                  ∙ ap (λ r. (ok r, w1)) (reference_found ∙ ap (λ r. reference r.view r.type) same),
              subst (λ r. is_null host r.view ≡ false) same other,
            )
      ]
    where
      raised :
          (outcome : Result Value × World) (w' : World) (ptr : TypedBuffer)
          → then_run outcome (λ message. raise (dynamic_symbol_error (message_of message)))
            ≡ (ok ptr, w')
          → ⊥
      raised (ok m, w1) w' ptr e =
          let no : err (dynamic_symbol_error (message_of m)) ≡ ok ptr = ap (λ r. r.0) e in cc
      raised (err thrown, w1) w' ptr e = let no : err thrown ≡ ok ptr = ap (λ r. r.0) e in cc

module _ (host : Host) (composite : Composite) (types : Types) (native : Native) (libffi : Libffi)
    (make_closure : MakeClosure) where
  make_proxy-pointer :
      (cif : Cif) (func : Buffer) (return : CType) (args : List CType) (p : Proxy)
      → make_proxy host composite types libffi cif func return args ≡ ok p
      → p.func_ptr ≡ func
  unfolding make_proxy
  make_proxy-pointer cif func return args p h =
      elim (Bool-cases (result_size host composite types libffi return == 0)) [
        | inl empty ↦ absurd (ground arith)
        | inr sized ↦ sym (ground arith)
      ]

  foreign_function-pointer :
      (view : Buffer) (type : Option TypeSpec) (return_type : Option TypeSpec)
      (args : Option (List TypeSpec)) (abi : Option ℕ)
      → Always
          (λ (p : Proxy). p.func_ptr ≡ view)
          (foreign_function host composite types native libffi make_closure
            (reference view type)
            return_type
            args
            abi)
  unfolding foreign_function
  foreign_function-pointer view type return_type args abi =
      after (lift (present no_return_type return_type)) (λ return_spec.
        after (lift (present no_argument_array args)) (λ arg_specs.
          after (lift (coerce_type types return_spec)) (λ return.
            after (coerce_all host composite types arg_specs) (λ arg_types.
              after (lift (cif native types (some (typed return)) (some (map typed arg_types)) abi))
                (λ made.
                  lifted (λ p made_proxy.
                    make_proxy-pointer made view return arg_types p made_proxy))))))

  variadic_function-pointer :
      (view : Buffer) (type : Option TypeSpec) (return_type : Option TypeSpec)
      (args : Option (List TypeSpec)) (abi : Option ℕ)
      → Always
          (λ (v : VariadicFunction). v.func_ptr ≡ view)
          (variadic_function host composite types native libffi make_closure
            (reference view type)
            return_type
            args
            abi)
  unfolding variadic_function
  variadic_function-pointer view type return_type args abi =
      after (lift (present no_return_type return_type)) (λ return_spec.
        after (lift (present no_argument_array args)) (λ fixed_specs.
          after (coerce_all host composite types fixed_specs)
            (λ fixed_types. record { always = λ w w' v e. sym (ap (λ r. pointer_or view r.0) e) })))
    where
      pointer_or : Buffer → Result VariadicFunction → Buffer
      pointer_or b (ok v) = v.func_ptr
      pointer_or b (err e) = b

  -- The kind of the entry, behind a pointer that is not NULL.
  abbrev IsAround : Buffer → Bool → Bool → Entry → Type 0
  IsAround view varargs async entry =
      (pointer_of entry ≡ view)
      × (is_variadic entry ≡ varargs)
      × (is_asynchronous entry ≡ (if varargs then false else async))

  define-IsAround :
      (varargs async : Bool) (view : Buffer) (type : Option TypeSpec) (result : Option TypeSpec)
      (params : Option (List TypeSpec)) (abi : Option ℕ)
      → Always (IsAround view varargs async) (
          if varargs
          then (do
            v ←
                variadic_function host composite types native libffi make_closure
                  (reference view type)
                  result
                  params
                  abi
            pure (variadic v))
          else (do
            ff ←
                foreign_function host composite types native libffi make_closure
                  (reference view type)
                  result
                  params
                  abi
            pure (if async then asynchronous ff else plain ff)))
  define-IsAround true async view type result params abi =
      followed variadic (variadic_function-pointer view type result params abi)
        (λ v same. (same, refl, refl))
  define-IsAround false true view type result params abi =
      followed asynchronous (foreign_function-pointer view type result params abi)
        (λ ff same. (same, refl, refl))
  define-IsAround false false view type result params abi =
      followed plain (foreign_function-pointer view type result params abi)
        (λ ff same. (same, refl, refl))

  pub define_function-IsSymbol :
      (linker : Linker) (dl : DynamicLibrary) (func : Text) (info : FunctionInfo) (w w' : World)
      (entry : Entry)
      → define_function host composite types native libffi make_closure linker dl func info w
        ≡ (ok entry, w')
      → IsSymbol host linker dl func info entry
  unfolding define_function
  define_function-IsSymbol linker dl func info w w' entry h =
      let (fptr, w1, is_found, h1) = >>=-runs (get host linker dl func w) _ entry w' h in
      let (done, w2, not_raised, h2) =
        >>=-runs (raise_if (is_null host fptr.view) (null_function_pointer func) w1) _ entry w'
          h1 in
      let (later, found, not_null) = get-found host linker dl func w w1 fptr is_found in
      let made =
        define-IsAround info.varargs info.async fptr.view fptr.type info.result_type
          info.param_types info.abi in
      let (same, variadic_kind, asynchronous_kind) = made.always w2 w' entry h2 in
      record {
        start = w;
        later = later;
        type = fptr.type;
        found = found ∙ ap (λ view. (ok (reference view fptr.type), later)) (sym same);
        not_null = ap (is_null host) same ∙ not_null;
        variadic_kind = variadic_kind;
        asynchronous_kind = asynchronous_kind;
      }
