-- ===== src/Variadic/Calls.antt =====
-- One call of the closure of lib/foreign_function_var.js that returns, from a sound state.
use mathlib.Core.Path.{subst}
use js_ffi_cross.Base.{ℕ, ◌≤◌, ◌≡◌, refl, ap, List, ◌∷◌, ◌++◌, arith}
use js_ffi_cross.Base.Result.{ok, value_or, >>=-returns}
use js_ffi_cross.Text.{Text}
use js_ffi_cross.CType.Coerce.{Types}
use js_ffi_cross.Cif.{Native}
use js_ffi_cross.Variadic.{
  TypeObject, Ids, get_id, join, Function, VariadicForeignFunction, find_function, push_args,
  hit_or_make, variadic_function_generator,
}
use js_ffi_cross.Variadic.Numbered.{Extends, get_id_lem, push_args_lem}
use js_ffi_cross.Variadic.Identity.{Named, identities, get_id-IsNumbered, get_id_counter}
use js_ffi_cross.Variadic.Pushes.{
  Others, Named-Extends, Named-append, Pushed-Named, push_args-IsNumbered,
}
use js_ffi_cross.Variadic.Cache.{IsSound, Entries-Extends, hit_or_make-IsOwn}

module _ (first : ℕ) (native : Native) (types : Types) where
  -- A call that returned: a function for its own types, and a sound state.
  pub record IsFaithful (args : List TypeObject) (v : VariadicForeignFunction) (ids : Ids)
      (f : Function) (v' : VariadicForeignFunction) (ids' : Ids) : Type 0 where
    pub sound : IsSound first v' ids'
    pub fixed : v'.fixed ≡ v.fixed
    pub own : identities (f.result ∷ f.args) ≡ identities (v.current_type ∷ v.fixed ++ args)

  -- What a call that returned has done: it numbered the arguments and the return type, and looked for
  -- their key.
  pub record IsDone (args : List TypeObject) (v : VariadicForeignFunction) (ids : Ids)
      (r : Function × VariadicForeignFunction × Ids) : Type 0 where
    pub pushed : List Text × Ids
    pub push : push_args native types args ids ≡ ok pushed
    pub made : Function × VariadicForeignFunction
    pub make :
        let key = (get_id v.current_type pushed.1).0 ++ join (v.fixed_key ++ pushed.0) in
        hit_or_make native types args key v (find_function key v.cache) ≡ ok made
    pub same : (made.0, made.1, (get_id v.current_type pushed.1).1) ≡ r

  pub call-IsDone :
      (args : List TypeObject) (v : VariadicForeignFunction) (ids : Ids)
      (r : Function × VariadicForeignFunction × Ids)
      → variadic_function_generator native types args v ids ≡ ok r
      → IsDone args v ids r
  unfolding variadic_function_generator
  call-IsDone args v ids r e =
      let (pushed, push, continued) = >>=-returns (push_args native types args ids) _ r e in
      let named = get_id v.current_type pushed.1 in
      let key = named.0 ++ join (v.fixed_key ++ pushed.0) in
      let (made, make, last) =
        >>=-returns (hit_or_make native types args key v (find_function key v.cache))
          (λ found. ok (found.0, found.1, named.1)) r continued in
      record {
        pushed = pushed;
        push = push;
        made = made;
        make = make;
        same = ap (value_or (made.0, made.1, named.1)) last;
      }

  -- The state is sound for the ids that a call leaves, and its key names its types.
  module _ (args : List TypeObject) (v : VariadicForeignFunction) (ids : Ids)
      (pushed : List Text × Ids) (push : push_args native types args ids ≡ ok pushed)
      (h : IsSound first v ids) (others : Others first args)
      (small : (get_id v.current_type pushed.1).1.counter ≤ 32768) where
    abbrev named : Text × Ids
    named = get_id v.current_type pushed.1

    kept : Extends ids named.1
    kept =
        let (before, all) = push_args_lem native types args ids pushed push in
        let (known, after) = get_id_lem v.current_type pushed.1 in λ i t e. after i t (before i t e)

    later-IsSound : IsSound first v named.1
    later-IsSound =
        let before =
          push_args-IsNumbered first native types args ids pushed push h.numbered
            (omega (arith, small, get_id_counter v.current_type pushed.1)) in
        record {
          numbered = get_id-IsNumbered first v.current_type pushed.1 before small;
          fixed = Named-Extends first ids named.1 v.fixed v.fixed_key kept h.fixed;
          current = h.current;
          entries = Entries-Extends first ids named.1 v.cache kept h.entries;
        }

    later-Named :
        Named first named.1 (v.current_type ∷ v.fixed ++ args) (named.0 ∷ (v.fixed_key ++ pushed.0))
    later-Named =
        let (before, all) = push_args_lem native types args ids pushed push in
        let (known, after) = get_id_lem v.current_type pushed.1 in
        (
          h.current,
          known,
          Named-append first named.1 v.fixed args v.fixed_key pushed.0 later-IsSound.fixed (
              Named-Extends first pushed.1 named.1 args pushed.0 after
                (Pushed-Named first native types pushed.1 args pushed.0 others all)),
        )

  pub call-IsFaithful :
      (args : List TypeObject) (v : VariadicForeignFunction) (ids : Ids)
      (r : Function × VariadicForeignFunction × Ids)
      → variadic_function_generator native types args v ids ≡ ok r
      → IsSound first v ids
      → Others first args
      → r.2.counter ≤ 32768
      → IsFaithful args v ids r.0 r.1 r.2
  unfolding join
  call-IsFaithful args v ids r e h others small =
      let d = call-IsDone args v ids r e in
      let named = get_id v.current_type d.pushed.1 in
      let below : named.1.counter ≤ 32768 =
        omega (
          arith,
          small,
          ap (λ (x : Function × VariadicForeignFunction × Ids). x.2.counter) d.same,
        ) in
      let own =
        hit_or_make-IsOwn first native types args v named.1
          (later-IsSound args v ids d.pushed d.push h others below) below
          (named.0 ∷ (v.fixed_key ++ d.pushed.0))
          (later-Named args v ids d.pushed d.push h others below) _ d.made refl d.make in
      subst (λ x. IsFaithful args v ids x.0 x.1 x.2) d.same
        (record { sound = own.sound; fixed = own.fixed; own = own.own })
