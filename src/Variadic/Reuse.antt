-- ===== src/Variadic/Reuse.antt =====
-- The cache of lib/foreign_function_var.js over two calls with the same argument types.
use mathlib.Core.Path.{subst}
use js_ffi_cross.Base.{◌≡◌, refl, ◌∙◌, ap, Option, none, some, List, ◌∷◌, ◌++◌, map, length}
use js_ffi_cross.Base.Result.{value_or, ok, >>=-returns}
use js_ffi_cross.Text.Laws.{text_eq_refl}
use js_ffi_cross.Text.{Text}
use js_ffi_cross.CType.Coerce.{Types, typed}
use js_ffi_cross.Cif.{Native, Cif, cif_var}
use js_ffi_cross.Variadic.{
  TypeObject, Ids, own_id, get_id, join, Function, VariadicForeignFunction, find_function,
  push_args, make_function, hit_or_make, variadic_function_generator,
}
use js_ffi_cross.Variadic.Numbered.{
  HasId, get_id_lem, get_id-HasId, Pushed, Pushed-Extends, push_args-Pushed, push_args_lem,
}

module _ (native : Native) (types : Types) where
  -- The function that a call returns is cached under the call's key, and nothing else of the closure
  -- changes.
  record IsCached (key : Text) (f : Function) (v v' : VariadicForeignFunction) : Type 0 where
    found : find_function key v'.cache ≡ some f
    same_type : v'.current_type ≡ v.current_type
    same_key : v'.fixed_key ≡ v.fixed_key

  abbrev stored :
      List TypeObject → Text → VariadicForeignFunction → Cif → Function × VariadicForeignFunction
  stored args key v made =
      let f : Function = record { cif = made; result = v.current_type; args = v.fixed ++ args } in
      (f, record v { cache = (key, f) ∷ v.cache })

  make_function-IsCached :
      (args : List TypeObject) (key : Text) (v : VariadicForeignFunction)
      (made : Function × VariadicForeignFunction)
      → make_function native types args key v ≡ ok made
      → IsCached key made.0 v made.1
  unfolding make_function find_function
  make_function-IsCached args key v result e =
      let (made, prepared, last) =
        >>=-returns
          (cif_var native types (some (typed v.return_type.type))
            (some (map (λ t. typed t.type) (v.fixed ++ args))) (length v.fixed) v.abi)
          (λ made. ok (stored args key v made)) result e in
      subst (λ r. IsCached key r.0 v r.1) (ap (value_or (stored args key v made)) last)
        (record { found = rw (text_eq_refl key) refl; same_type = refl; same_key = refl })

  hit_or_make-IsCached :
      (args : List TypeObject) (key : Text) (v : VariadicForeignFunction) (found : Option Function)
      (made : Function × VariadicForeignFunction)
      → find_function key v.cache ≡ found
      → hit_or_make native types args key v found ≡ ok made
      → IsCached key made.0 v made.1
  hit_or_make-IsCached args key v (some f) made h e =
      subst (λ r. IsCached key r.0 v r.1) (ap (value_or (f, v)) e)
        (record { found = h; same_type = refl; same_key = refl })
  hit_or_make-IsCached args key v none made h e = make_function-IsCached args key v made e

  abbrev key_for : Text → VariadicForeignFunction → List Text → Text
  key_for rtn_name v texts = rtn_name ++ join (v.fixed_key ++ texts)

  -- A call whose arguments pass the checks, whose types have ids, and whose key is cached.
  call_hit :
      (args : List TypeObject) (texts : List Text) (v : VariadicForeignFunction) (ids : Ids)
      (rtn_name : Text) (f : Function)
      → Pushed native types ids args texts
      → HasId ids v.current_type rtn_name
      → find_function (key_for rtn_name v texts) v.cache ≡ some f
      → variadic_function_generator native types args v ids ≡ ok (f, v, ids)
  unfolding variadic_function_generator
  call_hit args texts v ids rtn_name f pushed named cached =
      rw
        (
          push_args-Pushed native types ids args texts pushed,
          get_id-HasId v.current_type ids rtn_name named,
          cached,
        )
        refl

  call_again :
      (args : List TypeObject) (texts : List Text) (v v' : VariadicForeignFunction) (ids : Ids)
      (rtn_name : Text) (f : Function)
      → Pushed native types ids args texts
      → HasId ids v.current_type rtn_name
      → IsCached (key_for rtn_name v texts) f v v'
      → variadic_function_generator native types args v' ids ≡ ok (f, v', ids)
  call_again args texts v v' ids rtn_name f pushed named cached =
      call_hit args texts v' ids rtn_name f pushed
        (ap (λ t. own_id t.identity ids.texts) cached.same_type ∙ named)
        (ap (λ k. find_function (rtn_name ++ join (k ++ texts)) v'.cache) cached.same_key
          ∙ cached.found)

  -- A call of the generator that returned, made again with the same argument types, returns the same
  -- function, and changes neither the cache nor an id.
  pub variadic_function_generator-twice :
      (args : List TypeObject) (v v' : VariadicForeignFunction) (ids ids' : Ids) (f : Function)
      → variadic_function_generator native types args v ids ≡ ok (f, v', ids')
      → variadic_function_generator native types args v' ids' ≡ ok (f, v', ids')
  unfolding variadic_function_generator
  variadic_function_generator-twice args v v' ids ids' f e =
      let (pushed, p, continued) =
        >>=-returns (push_args native types args ids) _ (f, v', ids') e in
      let (kept, all) = push_args_lem native types args ids pushed p in
      let (known, kept_further) = get_id_lem v.current_type pushed.1 in
      let named = get_id v.current_type pushed.1 in
      let key = key_for named.0 v pushed.0 in
      let (made, m, last) =
        >>=-returns (hit_or_make native types args key v (find_function key v.cache))
          (λ found. ok (found.0, found.1, named.1)) (f, v', ids') continued in
      subst (λ r. variadic_function_generator native types args r.1 r.2 ≡ ok r)
        (ap (value_or (made.0, made.1, named.1)) last)
        (call_again args pushed.0 v made.1 named.1 named.0 made.0
          (Pushed-Extends native types pushed.1 named.1 args pushed.0 kept_further all) known
          (hit_or_make-IsCached args key v (find_function key v.cache) made refl m))
