-- ===== src/Variadic/Runs.antt =====
-- A closure of lib/foreign_function_var.js from the start of the program: over any sequence of calls,
-- between which types are numbered elsewhere and its return type is replaced.
use mathlib.Core.Path.{subst}
use js_ffi_cross.Base.{
  ℕ, ◌≤◌, ◌≡◌, ◌≢◌, ap, sym, ◌∙◌, refl, inl, inr, true, false, ◌==◌, Bool-cases, List, [], ◌∷◌,
  ◌++◌, Option, none, some, arith,
}
use js_ffi_cross.Base.Result.{ok}
use js_ffi_cross.Text.{Text}
use js_ffi_cross.CType.Coerce.{Types}
use js_ffi_cross.Cif.{Native}
use js_ffi_cross.Variadic.{
  TypeObject, Ids, own_id, id_text, get_id, get_ids, Function, VariadicForeignFunction,
  variadic_foreign_function, variadic_function_generator,
}
use js_ffi_cross.Variadic.Identity.{IsNumbered, identities, get_id_counter}
use js_ffi_cross.Variadic.Pushes.{
  Others, get_ids_counter, get_ids-IsNumbered, get_ids-Named, push_args_counter,
}
use js_ffi_cross.Variadic.Cache.{IsSound, numbered-IsSound}
use js_ffi_cross.Variadic.Calls.{call-IsFaithful, call-IsDone}

-- The state of the module when it is loaded.
abbrev pub no_ids : Ids
no_ids = record { counter = 0; texts = [] }

own_first : (i : ℕ) (texts : List (ℕ × Text)) → own_id i ((i, id_text 0) ∷ texts) ≡ some (id_text 0)
unfolding own_id
own_first i texts = let same : (i == i) ≡ true = ground arith in rw same refl

only_first :
    (first : TypeObject) (i : ℕ) (t : Text)
    → own_id i ((first.identity, id_text 0) ∷ []) ≡ some t
    → (i ≡ first.identity) × (id_text 0 ≡ t)
unfolding own_id
only_first first i t e = elim (Bool-cases (first.identity == i)) [
  | inl same ↦ let one = here same in (ground arith, cc)
  | inr other ↦ absurd (gone other)
]
  where
    here : (first.identity == i) ≡ true → some (id_text 0) ≡ some t
    here same = rw same at e

    gone : (first.identity == i) ≡ false → ⊥
    gone other = let none_some : none ≡ some t = rw other at e in cc

first-IsNumbered : (first : TypeObject) → IsNumbered first.identity (get_id first no_ids).1
unfolding get_id own_id
first-IsNumbered first = record {
  first_known = own_first first.identity [];
  number = λ i t e. (0, sym (only_first first i t e).1, omega arith);
  apart = λ i j t e f. (only_first first i t e).0 ∙ sym (only_first first j t f).0;
}

module _ (native : Native) (types : Types) (first : TypeObject) (earlier : List TypeObject)
    (return_type : TypeObject) (fixed : List TypeObject) (abi : Option ℕ) where
  -- The ids when the closure is made: `first` and then `earlier` were numbered.
  abbrev pub before : Ids
  before = (get_ids (first ∷ earlier) no_ids).1

  -- What the closure and the ids can be, when it uses other types than the first.
  pub data Run : VariadicForeignFunction → Ids → Type 0 where
    fresh :
        Run
          (variadic_foreign_function return_type fixed abi before).0
          (variadic_foreign_function return_type fixed abi before).1
    numbered :
        {v : VariadicForeignFunction} {ids : Ids} (type : TypeObject)
        → Run v ids
        → Run v (get_id type ids).1
    replaced :
        {v : VariadicForeignFunction} {ids : Ids} (type : TypeObject)
        → type.identity ≢ first.identity
        → Run v ids
        → Run (record v { current_type = type }) ids
    called :
        {v v' : VariadicForeignFunction} {ids ids' : Ids} {f : Function} (args : List TypeObject)
        → Others first.identity args
        → variadic_function_generator native types args v ids ≡ ok (f, v', ids')
        → Run v ids
        → Run v' ids'

  -- A call numbers types, if anything.
  call_counter :
      (args : List TypeObject) (v : VariadicForeignFunction) (ids : Ids)
      (r : Function × VariadicForeignFunction × Ids)
      → variadic_function_generator native types args v ids ≡ ok r
      → ids.counter ≤ r.2.counter
  call_counter args v ids r e =
      let d = call-IsDone first.identity native types args v ids r e in
      subst (λ x. ids.counter ≤ x.2.counter) d.same
        (omega (
          arith,
          push_args_counter first.identity native types args ids d.pushed d.push,
          get_id_counter v.current_type d.pushed.1,
        ))

  module _ (other : return_type.identity ≢ first.identity)
      (others : Others first.identity fixed) where
    fresh-IsSound :
        (variadic_foreign_function return_type fixed abi before).1.counter ≤ 32768
        → IsSound first.identity
            (variadic_foreign_function return_type fixed abi before).0
            (variadic_foreign_function return_type fixed abi before).1
    unfolding variadic_foreign_function get_ids
    fresh-IsSound small =
        let started = first-IsNumbered first in
        let numbered =
          get_ids-IsNumbered first.identity earlier (get_id first no_ids).1 started
            (omega (arith, small, get_ids_counter fixed before)) in
        let (kept, named) = get_ids-Named first.identity fixed before others in
        record {
          numbered = get_ids-IsNumbered first.identity fixed before numbered small;
          fixed = named;
          current = other;
          entries = tt;
        }

    Run-IsSound :
        (v : VariadicForeignFunction) (ids : Ids)
        → Run v ids
        → ids.counter ≤ 32768
        → IsSound first.identity v ids × (v.fixed ≡ fixed)
    unfolding variadic_foreign_function
    Run-IsSound v ids fresh small = (fresh-IsSound small, refl)
    Run-IsSound v ids (numbered {v = w} {ids = jds} type run) small =
        let (sound, same) = Run-IsSound w jds run (omega (arith, small, get_id_counter type jds)) in
        (numbered-IsSound first.identity w jds type sound small, same)
    Run-IsSound v ids (replaced {v = w} type other_type run) small =
        let (sound, same) = Run-IsSound w ids run small in
        (
          record {
            numbered = sound.numbered;
            fixed = sound.fixed;
            current = other_type;
            entries = sound.entries;
          },
          same,
        )
    Run-IsSound v ids (called {v = w} {ids = jds} {f = f} args other_args e run) small =
        let (sound, same) =
          Run-IsSound w jds run (omega (arith, small, call_counter args w jds (f, v, ids) e)) in
        let call =
          call-IsFaithful first.identity native types args w jds (f, v, ids) e sound other_args
            small in
        (call.sound, call.fixed ∙ same)

  -- The closure's functions are for the types of the call: whatever was numbered before the closure was
  -- made, however often it was called, its return type replaced and types numbered elsewhere, a call
  -- that returns gives a function whose result and argument types are the current return type, the
  -- fixed types and the arguments, as long as at most 2^15 types have ids and neither the closure nor
  -- its calls use the type that was numbered first.
  pub function_generator-Run :
      (other : return_type.identity ≢ first.identity) (others : Others first.identity fixed)
      (v : VariadicForeignFunction) (ids : Ids) (run : Run v ids) (args : List TypeObject)
      (other_args : Others first.identity args) (f : Function) (v' : VariadicForeignFunction)
      (ids' : Ids)
      (returns : variadic_function_generator native types args v ids ≡ ok (f, v', ids'))
      (small : ids'.counter ≤ 32768)
      → identities (f.result ∷ f.args) ≡ identities (v.current_type ∷ fixed ++ args)
  function_generator-Run other others v ids run args other_args f v' ids' returns small =
      let (sound, same) =
        Run-IsSound other others v ids run
          (omega (arith, small, call_counter args v ids (f, v', ids') returns)) in
      let call =
        call-IsFaithful first.identity native types args v ids (f, v', ids') returns sound
          other_args small in
      call.own ∙ ap (λ x. identities (v.current_type ∷ x ++ args)) same
