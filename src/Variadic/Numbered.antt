-- ===== src/Variadic/Numbered.antt =====
-- The ids that `getId` of lib/foreign_function_var.js gives to the types of a call.
use mathlib.Core.Path.{subst}
use js_ffi_cross.Base.{
  ℕ, ◌≡◌, refl, sym, ◌∙◌, ap, inl, inr, Bool, true, false, not, Option, none, some, List, [], ◌∷◌,
  Bool-cases, ◌==◌, arith,
}
use js_ffi_cross.Base.Result.{ok, throw_if, >>=-returns, value_or, >>-returns, no_ffi_type_name}
use js_ffi_cross.Text.{Text}
use js_ffi_cross.CType.Coerce.{Types}
use js_ffi_cross.FfiType.{FfiType, ffi_type_of}
use js_ffi_cross.Cif.{Native}
use js_ffi_cross.Variadic.{TypeObject, Ids, own_id, id_or_new, get_id, has_name, push_args}

-- Every id that is given is kept.
abbrev pub Extends : Ids → Ids → Type 0
Extends ids later =
    (identity : ℕ) (id : Text)
    → own_id identity ids.texts ≡ some id
    → own_id identity later.texts ≡ some id

-- The type has this id.
abbrev pub HasId : Ids → TypeObject → Text → Type 0
HasId ids type id = own_id type.identity ids.texts ≡ some id

same_number : (n : ℕ) → (n == n) ≡ true
same_number n = ground arith

-- `getId` gives the type an id and keeps the others.
pub get_id_lem :
    (type : TypeObject) (ids : Ids)
    → HasId (get_id type ids).1 type (get_id type ids).0 × Extends ids (get_id type ids).1
unfolding get_id
get_id_lem type ids = go (own_id type.identity ids.texts) refl
  where
    go :
        (known : Option Text)
        → own_id type.identity ids.texts ≡ known
        → HasId (id_or_new type.identity ids known).1 type (id_or_new type.identity ids known).0
          × Extends ids (id_or_new type.identity ids known).1
    go (some id) e = (e, λ i t h. h)
    go none e = (
      ground arith,
      λ i t h. elim (Bool-cases (type.identity == i)) [
        | inl same ↦ absurd (clash i t same h)
        | inr other ↦ ground arith
      ],
    )
      where
        clash : (i : ℕ) (t : Text) → (type.identity == i) ≡ true → own_id i ids.texts ≡ some t → ⊥
        clash i t same h =
            let one : type.identity ≡ i = ground arith in
            let absent : own_id i ids.texts ≡ none = sym (ap (λ k. own_id k ids.texts) one) ∙ e in
            cc

pub get_id-HasId :
    (type : TypeObject) (ids : Ids) (id : Text) → HasId ids type id → get_id type ids ≡ (id, ids)
unfolding get_id
get_id-HasId type ids id h = ap (id_or_new type.identity ids) h

module _ (native : Native) (types : Types) where
  -- The arguments pass the checks and have these ids.
  abbrev pub Pushed : Ids → List TypeObject → List Text → Type 0
  Pushed ids [] [] = Unit
  Pushed ids (arg ∷ args) (id ∷ texts) =
      ((ffi_type : FfiType) × (ffi_type_of native.ffi_types native.platform arg.type ≡ ok ffi_type)
        × (has_name ffi_type ≡ true))
      × HasId ids arg id
      × Pushed ids args texts
  Pushed ids _ _ = ⊥

  pub Pushed-Extends :
      (ids later : Ids) (args : List TypeObject) (texts : List Text)
      → Extends ids later
      → Pushed ids args texts
      → Pushed later args texts
  Pushed-Extends ids later [] [] x h = tt
  Pushed-Extends ids later [] (id ∷ texts) x h = h
  Pushed-Extends ids later (arg ∷ args) [] x h = h
  Pushed-Extends ids later (arg ∷ args) (id ∷ texts) x (described, known, rest) =
      (described, x arg.identity id known, Pushed-Extends ids later args texts x rest)

  -- The arguments again: nothing is numbered.
  pub push_args-Pushed :
      (ids : Ids) (args : List TypeObject) (texts : List Text)
      → Pushed ids args texts
      → push_args native types args ids ≡ ok (texts, ids)
  unfolding push_args
  push_args-Pushed ids [] [] h = refl
  push_args-Pushed ids [] (id ∷ texts) h = elim h [ ]
  push_args-Pushed ids (arg ∷ args) [] h = elim h [ ]
  push_args-Pushed ids (arg ∷ args) (id ∷ texts) ((ffi_type, described, named), known, rest) =
      rw (described, named, get_id-HasId arg ids id known, push_args-Pushed ids args texts rest)
        refl

  pub push_args_lem :
      (args : List TypeObject) (ids : Ids) (result : List Text × Ids)
      → push_args native types args ids ≡ ok result
      → Extends ids result.1 × Pushed result.1 args result.0
  unfolding push_args
  push_args_lem [] ids result e =
      subst (λ r. Extends ids r.1 × Pushed r.1 [] r.0) (ap (value_or ([], ids)) e) (λ i t h. h, tt)
  push_args_lem (arg ∷ args) ids result e =
      let (ffi_type, described, checked) =
        >>=-returns (ffi_type_of native.ffi_types native.platform arg.type) _ result e in
      let (named, continued) = >>-returns _ _ result checked in
      let (rest, pushed, last) =
        >>=-returns (push_args native types args (get_id arg ids).1)
          (λ x. ok ((get_id arg ids).0 ∷ x.0, x.1)) result continued in
      let (known, kept) = get_id_lem arg ids in
      let (kept_further, all) = push_args_lem args (get_id arg ids).1 rest pushed in
      subst (λ r. Extends ids r.1 × Pushed r.1 (arg ∷ args) r.0)
        (ap (value_or ((get_id arg ids).0 ∷ rest.0, rest.1)) last)
        (
          λ i t h. kept_further i t (kept i t h),
          (
            (ffi_type, described, name_checked (has_name ffi_type) named),
            kept_further arg.identity (get_id arg ids).0 known,
            all,
          ),
        )
    where
      name_checked : (b : Bool) → throw_if (not b) no_ffi_type_name ≡ ok tt → b ≡ true
      name_checked true h = refl
      name_checked false h = cc
