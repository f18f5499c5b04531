-- ===== src/Variadic/Cache.antt =====
-- The cache of lib/foreign_function_var.js over any sequence of calls: every function in it was made
-- for the types whose key it stands under.
use mathlib.Core.Path.{subst}
use js_ffi_cross.Base.{
  ℕ, ◌≤◌, ◌≡◌, ◌≢◌, refl, sym, ap, ◌∙◌, true, false, Option, none, some, List, [], ◌∷◌, ◌++◌, map,
  length, inl, inr, Bool-cases,
}
use js_ffi_cross.Base.Result.{ok, value_or, >>=-returns}
use js_ffi_cross.Text.Laws.{text_eq-eq}
use js_ffi_cross.Text.{Text, text_eq}
use js_ffi_cross.CType.Coerce.{Types, typed}
use js_ffi_cross.Cif.{Native, cif_var}
use js_ffi_cross.Variadic.{
  TypeObject, Ids, get_id, join, Function, VariadicForeignFunction, find_function, make_function,
  hit_or_make,
}
use js_ffi_cross.Variadic.Numbered.{Extends, get_id_lem}
use js_ffi_cross.Variadic.Identity.{
  IsNumbered, Named, identities, get_id-IsNumbered, key-identities,
}
use js_ffi_cross.Variadic.Pushes.{Named-Extends}

-- Each function stands under the key of its own types.
abbrev pub Entries : ℕ → Ids → List (Text × Function) → Type 0
Entries first ids [] = Unit
Entries first ids ((key, f) ∷ cache) =
    ((texts : List Text) × Named first ids (f.result ∷ f.args) texts × (key ≡ join texts))
    × Entries first ids cache

-- The state of a closure and of the ids.
pub record IsSound (first : ℕ) (v : VariadicForeignFunction) (ids : Ids) : Type 0 where
  pub numbered : IsNumbered first ids
  pub fixed : Named first ids v.fixed v.fixed_key
  pub current : v.current_type.identity ≢ first
  pub entries : Entries first ids v.cache

module _ (first : ℕ) where
  pub Entries-Extends :
      (ids later : Ids) (cache : List (Text × Function))
      → Extends ids later
      → Entries first ids cache
      → Entries first later cache
  Entries-Extends ids later [] x h = tt
  Entries-Extends ids later ((key, f) ∷ cache) x ((texts, named, same), h) = (
    (texts, Named-Extends first ids later (f.result ∷ f.args) texts x named, same),
    Entries-Extends ids later cache x h,
  )

  find_function-Entries :
      (ids : Ids) (key : Text) (cache : List (Text × Function)) (f : Function)
      → Entries first ids cache
      → find_function key cache ≡ some f
      → (texts : List Text) × Named first ids (f.result ∷ f.args) texts × (key ≡ join texts)
  unfolding find_function
  find_function-Entries ids key [] f h e = cc
  find_function-Entries ids key ((k, g) ∷ cache) f ((texts, named, same), h) e =
      elim (Bool-cases (text_eq k key)) [
        | inl here ↦
            let equal : k ≡ key = text_eq-eq k key here in
            let one : g ≡ f = found here in
            (
              texts,
              subst (λ (x : Function). Named first ids (x.result ∷ x.args) texts) one named,
              sym equal ∙ same,
            )
        | inr other ↦ find_function-Entries ids key cache f h (missed other)
      ]
    where
      found : text_eq k key ≡ true → g ≡ f
      found here = cc

      missed : text_eq k key ≡ false → find_function key cache ≡ some f
      missed other = rw other at e

  -- Numbering a type keeps the state sound.
  pub numbered-IsSound :
      (v : VariadicForeignFunction) (ids : Ids) (type : TypeObject)
      → IsSound first v ids
      → (get_id type ids).1.counter ≤ 32768
      → IsSound first v (get_id type ids).1
  numbered-IsSound v ids type h small =
      let (known, kept) = get_id_lem type ids in
      record {
        numbered = get_id-IsNumbered first type ids h.numbered small;
        fixed = Named-Extends first ids (get_id type ids).1 v.fixed v.fixed_key kept h.fixed;
        current = h.current;
        entries = Entries-Extends ids (get_id type ids).1 v.cache kept h.entries;
      }

  module _ (native : Native) (types : Types) where
    -- A lookup or a new function, under the key of the closure's types and the arguments'.
    module _ (args : List TypeObject) (v : VariadicForeignFunction) (ids : Ids)
        (h : IsSound first v ids) (small : ids.counter ≤ 32768) (texts : List Text)
        (named : Named first ids (v.current_type ∷ v.fixed ++ args) texts) where
      pub record IsOwn (f : Function) (v' : VariadicForeignFunction) : Type 0 where
        pub sound : IsSound first v' ids
        pub fixed : v'.fixed ≡ v.fixed
        pub own : identities (f.result ∷ f.args) ≡ identities (v.current_type ∷ v.fixed ++ args)

      make_function-IsOwn :
          (made : Function × VariadicForeignFunction)
          → make_function native types args (join texts) v ≡ ok made
          → IsOwn made.0 made.1
      unfolding make_function
      make_function-IsOwn made e =
          let (prepared, returned, last) =
            >>=-returns
              (cif_var native types (some (typed v.return_type.type))
                (some (map (λ t. typed t.type) (v.fixed ++ args))) (length v.fixed) v.abi)
              _ made e in
          let f : Function = record {
            cif = prepared;
            result = v.current_type;
            args = v.fixed ++ args;
          } in
          let v' : VariadicForeignFunction = record v { cache = (join texts, f) ∷ v.cache } in
          subst (λ r. IsOwn r.0 r.1) (ap (value_or (f, v')) last)
            (record {
              sound = record {
                numbered = h.numbered;
                fixed = h.fixed;
                current = h.current;
                entries = ((texts, named, refl), h.entries);
              };
              fixed = refl;
              own = refl;
            })

      pub hit_or_make-IsOwn :
          (found : Option Function) (made : Function × VariadicForeignFunction)
          → find_function (join texts) v.cache ≡ found
          → hit_or_make native types args (join texts) v found ≡ ok made
          → IsOwn made.0 made.1
      hit_or_make-IsOwn none made missed e = make_function-IsOwn made e
      hit_or_make-IsOwn (some f) made hit e =
          let (own_texts, own_named, key) =
            find_function-Entries ids (join texts) v.cache f h.entries hit in
          subst (λ r. IsOwn r.0 r.1) (ap (value_or (f, v)) e)
            (record {
              sound = h;
              fixed = refl;
              own =
                  key-identities first ids h.numbered small (f.result ∷ f.args)
                    (v.current_type ∷ v.fixed ++ args) own_texts texts own_named named (sym key);
            })
