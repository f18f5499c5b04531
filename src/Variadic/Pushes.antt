-- ===== src/Variadic/Pushes.antt =====
-- The ids that `getId` of lib/foreign_function_var.js gives to the fixed types of a closure and to the
-- arguments of a call, none of them the first type.
use mathlib.Core.Path.{subst}
use js_ffi_cross.Base.{ℕ, ◌≤◌, ◌≡◌, ◌≢◌, ap, not, List, [], ◌∷◌, ◌++◌, arith}
use js_ffi_cross.Base.Result.{
  ok, throw_if, no_ffi_type_name, ◌>>=◌, value_or, >>=-returns, >>-returns,
}
use js_ffi_cross.Text.{Text}
use js_ffi_cross.CType.Coerce.{Types}
use js_ffi_cross.FfiType.{ffi_type_of}
use js_ffi_cross.Cif.{Native}
use js_ffi_cross.Variadic.{TypeObject, Ids, get_id, get_ids, has_name, push_args}
use js_ffi_cross.Variadic.Numbered.{Extends, get_id_lem, Pushed}
use js_ffi_cross.Variadic.Identity.{IsNumbered, Named, get_id-IsNumbered, get_id_counter}

-- None of the types is the first.
abbrev pub Others : ℕ → List TypeObject → Type 0
Others first [] = Unit
Others first (type ∷ types) = (type.identity ≢ first) × Others first types

pub get_ids_counter :
    (fixed : List TypeObject) (ids : Ids) → ids.counter ≤ (get_ids fixed ids).1.counter
unfolding get_ids
get_ids_counter [] ids = omega arith
get_ids_counter (type ∷ fixed) ids =
    omega (arith, get_id_counter type ids, get_ids_counter fixed (get_id type ids).1)

module _ (first : ℕ) where
  pub Named-Extends :
      (ids later : Ids) (types : List TypeObject) (texts : List Text)
      → Extends ids later
      → Named first ids types texts
      → Named first later types texts
  Named-Extends ids later [] [] x h = tt
  Named-Extends ids later [] (t ∷ texts) x h = h
  Named-Extends ids later (y ∷ types) [] x h = h
  Named-Extends ids later (y ∷ types) (t ∷ texts) x (other, here, h) =
      (other, x y.identity t here, Named-Extends ids later types texts x h)

  pub Named-append :
      (ids : Ids) (xs ys : List TypeObject) (ts us : List Text)
      → Named first ids xs ts
      → Named first ids ys us
      → Named first ids (xs ++ ys) (ts ++ us)
  Named-append ids [] ys [] us a b = b
  Named-append ids [] ys (t ∷ ts) us a b = absurd a
  Named-append ids (x ∷ xs) ys [] us a b = absurd a
  Named-append ids (x ∷ xs) ys (t ∷ ts) us (other, here, a) b =
      (other, here, Named-append ids xs ys ts us a b)

  pub get_ids-IsNumbered :
      (types : List TypeObject) (ids : Ids)
      → IsNumbered first ids
      → (get_ids types ids).1.counter ≤ 32768
      → IsNumbered first (get_ids types ids).1
  unfolding get_ids
  get_ids-IsNumbered [] ids h small = h
  get_ids-IsNumbered (type ∷ types) ids h small =
      let one = (get_id type ids).1 in
      get_ids-IsNumbered types one
        (get_id-IsNumbered first type ids h (omega (arith, get_ids_counter types one, small))) small

  pub get_ids-Named :
      (fixed : List TypeObject) (ids : Ids)
      → Others first fixed
      → Extends ids (get_ids fixed ids).1
        × Named first (get_ids fixed ids).1 fixed (get_ids fixed ids).0
  unfolding get_ids
  get_ids-Named [] ids others = (λ i t e. e, tt)
  get_ids-Named (type ∷ fixed) ids (other, others) =
      let (known, kept) = get_id_lem type ids in
      let (kept_further, named) = get_ids-Named fixed (get_id type ids).1 others in
      (
        λ i t e. kept_further i t (kept i t e),
        (other, kept_further type.identity (get_id type ids).0 known, named),
      )

  module _ (native : Native) (types : Types) where
    -- The first argument is numbered before the others.
    push_args-cons :
        (arg : TypeObject) (args : List TypeObject) (ids : Ids) (result : List Text × Ids)
        → push_args native types (arg ∷ args) ids ≡ ok result
        → (rest : List Text × Ids) × (push_args native types args (get_id arg ids).1 ≡ ok rest)
          × (((get_id arg ids).0 ∷ rest.0, rest.1) ≡ result)
    unfolding push_args
    push_args-cons arg args ids result e =
        let (ffi_type, described, checked) =
          >>=-returns (ffi_type_of native.ffi_types native.platform arg.type) _ result e in
        let (named, continued) =
          >>-returns (throw_if (not (has_name ffi_type)) no_ffi_type_name)
            (push_args native types args (get_id arg ids).1 >>= λ x.
              ok ((get_id arg ids).0 ∷ x.0, x.1))
            result checked in
        let (rest, pushed, last) =
          >>=-returns (push_args native types args (get_id arg ids).1)
            (λ x. ok ((get_id arg ids).0 ∷ x.0, x.1)) result continued in
        (rest, pushed, ap (value_or ((get_id arg ids).0 ∷ rest.0, rest.1)) last)

    pub push_args_counter :
        (args : List TypeObject) (ids : Ids) (result : List Text × Ids)
        → push_args native types args ids ≡ ok result
        → ids.counter ≤ result.1.counter
    unfolding push_args
    push_args_counter [] ids result e =
        subst (λ r. ids.counter ≤ r.1.counter) (ap (value_or ([], ids)) e) (omega arith)
    push_args_counter (arg ∷ args) ids result e =
        let one = (get_id arg ids).1 in
        let (rest, pushed, same) = push_args-cons arg args ids result e in
        subst (λ r. ids.counter ≤ r.1.counter) same
          (omega (arith, get_id_counter arg ids, push_args_counter args one rest pushed))

    pub push_args-IsNumbered :
        (args : List TypeObject) (ids : Ids) (result : List Text × Ids)
        → push_args native types args ids ≡ ok result
        → IsNumbered first ids
        → result.1.counter ≤ 32768
        → IsNumbered first result.1
    unfolding push_args
    push_args-IsNumbered [] ids result e h small =
        subst (λ r. IsNumbered first r.1) (ap (value_or ([], ids)) e) h
    push_args-IsNumbered (arg ∷ args) ids result e h small =
        let one = (get_id arg ids).1 in
        let (rest, pushed, same) = push_args-cons arg args ids result e in
        let rest_small : rest.1.counter ≤ 32768 =
          omega (arith, small, ap (λ (r : List Text × Ids). r.1.counter) same) in
        let numbered =
          get_id-IsNumbered first arg ids h
            (omega (arith, push_args_counter args one rest pushed, rest_small)) in
        subst (λ r. IsNumbered first r.1) same
          (push_args-IsNumbered args one rest pushed numbered rest_small)

    pub Pushed-Named :
        (ids : Ids) (args : List TypeObject) (texts : List Text)
        → Others first args
        → Pushed native types ids args texts
        → Named first ids args texts
    Pushed-Named ids [] [] others h = tt
    Pushed-Named ids [] (t ∷ texts) others h = h
    Pushed-Named ids (arg ∷ args) [] others h = h
    Pushed-Named ids (arg ∷ args) (t ∷ texts) (other, others) (described, here, h) =
        (other, here, Pushed-Named ids args texts others h)
