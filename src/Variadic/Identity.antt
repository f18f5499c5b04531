-- ===== src/Variadic/Identity.antt =====
-- The ids that `getId` of lib/foreign_function_var.js gives tell the types apart, as long as fewer than
-- 2^15 have one; those of types other than the first stay apart in a key.
use mathlib.Core.Path.{subst}
use js_ffi_cross.Base.{
  ℕ, zero, suc, ◌≢◌, ◌+◌, ◌<◌, ◌≤◌, ◌≡◌, ◌⊎◌, refl, sym, ap, ◌∙◌, inl, inr, true, Option, none,
  some, List, [], ◌∷◌, ◌++◌, map, Bool-cases, ◌==◌, arith,
}
use js_ffi_cross.Text.{Text}
use js_ffi_cross.Variadic.{TypeObject, Ids, own_id, id_or_new, get_id, id_text, join}
use js_ffi_cross.Variadic.Keys.{key_of_starts, AllLater, key_of-injective}
use js_ffi_cross.Variadic.Numbered.{HasId}
use js_ffi_cross.Variadic.Hex.{starts_with_zero}
use js_ffi_cross.Variadic.Collision.{first_id}

-- Every id is the text of a number that was given, no two types have one, and the type `first` has the
-- first.
pub record IsNumbered (first : ℕ) (ids : Ids) : Type 0 where
  pub first_known : own_id first ids.texts ≡ some (id_text 0)
  pub number :
      (i : ℕ) (t : Text)
      → own_id i ids.texts ≡ some t
      → (n : ℕ) × (t ≡ id_text n) × (n < ids.counter)
  pub apart :
      (i j : ℕ) (t : Text) → own_id i ids.texts ≡ some t → own_id j ids.texts ≡ some t → i ≡ j

not_first : (k : ℕ) → suc k < 32768 → id_text 0 ≡ id_text (suc k) → ⊥
unfolding join
not_first k h e =
    let zero_first : starts_with_zero (id_text 0 ++ []) ≡ true =
      ap (λ t. starts_with_zero (t ++ [])) first_id in
    let later = key_of_starts (suc k ∷ []) (omega arith, h, tt) in
    let same = ap (λ t. starts_with_zero (t ++ [])) e in cc

-- The first id starts with a zero, no other does.
id_text-injective : (n k : ℕ) → n < 32768 → k < 32768 → id_text n ≡ id_text k → n ≡ k
unfolding join
id_text-injective zero zero ln lk e = refl
id_text-injective zero (suc k) ln lk e = absurd (not_first k lk e)
id_text-injective (suc n) zero ln lk e = absurd (not_first n ln (sym e))
id_text-injective (suc n) (suc k) ln lk e =
    let one : (suc n ∷ []) ≡ (suc k ∷ []) =
      key_of-injective (suc n ∷ []) (suc k ∷ []) (omega arith, ln, tt) (omega arith, lk, tt)
        (ap (λ t. t ++ []) e) in
    cc

-- What `getId` adds to the texts.
module _ (first identity : ℕ) (ids : Ids) (h : IsNumbered first ids) (small : ids.counter < 32768)
    (absent : own_id identity ids.texts ≡ none) where
  abbrev added : Ids
  added = record { counter = ids.counter + 1; texts = (identity, id_text ids.counter) ∷ ids.texts }

  added_cases :
      (i : ℕ) (t : Text)
      → own_id i added.texts ≡ some t
      → ((i ≡ identity) × (t ≡ id_text ids.counter)) ⊎ (own_id i ids.texts ≡ some t)
  unfolding own_id
  added_cases i t e = elim (Bool-cases (identity == i)) [
    | inl same ↦ inl (ground arith)
    | inr other ↦ inr (ground arith)
  ]

  not_new : (i : ℕ) → own_id i ids.texts ≡ some (id_text ids.counter) → ⊥
  not_new i e =
      let (n, same, less) = h.number i (id_text ids.counter) e in
      let equal = id_text-injective ids.counter n small (omega arith) same in absurd (omega arith)

  known_first : own_id first added.texts ≡ some (id_text 0)
  unfolding own_id
  known_first = elim (Bool-cases (identity == first)) [
    | inl same ↦
        let one : identity ≡ first = ground arith in
        let clash = sym absent ∙ ap (λ i. own_id i ids.texts) one ∙ h.first_known in absurd cc
    | inr other ↦ rw other h.first_known
  ]

  added-IsNumbered : IsNumbered first added
  added-IsNumbered = record {
    first_known = known_first;
    number = λ i t e. elim (added_cases i t e) [
      | inl (same, text) ↦ (ids.counter, text, omega arith)
      | inr old ↦ let (n, text, less) = h.number i t old in (n, text, omega arith)
    ];
    apart = λ i j t e f. elim (added_cases i t e) [
      | inl (i_new, text) ↦ elim (added_cases j t f) [
        | inl (j_new, _) ↦ i_new ∙ sym j_new
        | inr j_old ↦ absurd (not_new j (j_old ∙ ap some text))
      ]
      | inr i_old ↦ elim (added_cases j t f) [
        | inl (j_new, text) ↦ absurd (not_new i (i_old ∙ ap some text))
        | inr j_old ↦ h.apart i j t i_old j_old
      ]
    ];
  }

pub get_id-IsNumbered :
    (first : ℕ) (type : TypeObject) (ids : Ids)
    → IsNumbered first ids
    → (get_id type ids).1.counter ≤ 32768
    → IsNumbered first (get_id type ids).1
unfolding get_id
get_id-IsNumbered first type ids h small = go (own_id type.identity ids.texts) refl small
  where
    go :
        (known : Option Text)
        → own_id type.identity ids.texts ≡ known
        → (id_or_new type.identity ids known).1.counter ≤ 32768
        → IsNumbered first (id_or_new type.identity ids known).1
    go (some id) e small = h
    go none e small = added-IsNumbered first type.identity ids h (omega arith) e

pub get_id_counter : (type : TypeObject) (ids : Ids) → ids.counter ≤ (get_id type ids).1.counter
unfolding get_id
get_id_counter type ids = go (own_id type.identity ids.texts)
  where
    go : (known : Option Text) → ids.counter ≤ (id_or_new type.identity ids known).1.counter
    go (some id) = omega arith
    go none = omega arith

-- Every type has its id, and is not the first.
abbrev pub Named : ℕ → Ids → List TypeObject → List Text → Type 0
Named first ids [] [] = Unit
Named first ids (type ∷ types) (text ∷ texts) =
    (type.identity ≢ first) × HasId ids type text × Named first ids types texts
Named first ids _ _ = ⊥

abbrev pub identities : List TypeObject → List ℕ
identities types = map (λ (t : TypeObject). t.identity) types

-- The number of another type than the first is positive.
later_number :
    (first : ℕ) (ids : Ids)
    → IsNumbered first ids
    → ids.counter ≤ 32768
    → (i : ℕ) (t : Text) → i ≢ first
    → own_id i ids.texts ≡ some t
    → (n : ℕ) × (t ≡ id_text n) × (n < ids.counter) × (0 < n)
later_number first ids h small i t other e = go (h.number i t e)
  where
    go :
        ((n : ℕ) × (t ≡ id_text n) × (n < ids.counter))
        → (n : ℕ) × (t ≡ id_text n) × (n < ids.counter) × (0 < n)
    go (zero, same, less) =
        absurd (other (h.apart i first (id_text 0) (e ∙ ap some same) h.first_known))
    go (suc n, same, less) = (suc n, same, less, omega arith)

numbers :
    (first : ℕ) (ids : Ids)
    → IsNumbered first ids
    → ids.counter ≤ 32768
    → (types : List TypeObject) (texts : List Text) → Named first ids types texts
    → (ns : List ℕ) × AllLater ns × (map id_text ns ≡ texts)
numbers first ids h small [] [] named = ([], tt, refl)
numbers first ids h small [] (t ∷ texts) named = absurd named
numbers first ids h small (x ∷ types) [] named = absurd named
numbers first ids h small (x ∷ types) (t ∷ texts) (other, here, named) =
    let (n, text, less, positive) = later_number first ids h small x.identity t other here in
    let (ns, later, same) = numbers first ids h small types texts named in
    (n ∷ ns, (positive, omega arith, later), cc)

same_texts :
    (first : ℕ) (ids : Ids)
    → IsNumbered first ids
    → (xs ys : List TypeObject) (texts : List Text) → Named first ids xs texts
    → Named first ids ys texts
    → identities xs ≡ identities ys
same_texts first ids h [] [] [] a b = refl
same_texts first ids h [] [] (t ∷ texts) a b = absurd a
same_texts first ids h [] (y ∷ ys) [] a b = absurd b
same_texts first ids h [] (y ∷ ys) (t ∷ texts) a b = absurd a
same_texts first ids h (x ∷ xs) [] [] a b = absurd a
same_texts first ids h (x ∷ xs) [] (t ∷ texts) a b = absurd b
same_texts first ids h (x ∷ xs) (y ∷ ys) [] a b = absurd a
same_texts first ids h (x ∷ xs) (y ∷ ys) (t ∷ texts) (_, a, further_a) (_, b, further_b) =
    let head = h.apart x.identity y.identity t a b in
    let tail = same_texts first ids h xs ys texts further_a further_b in cc

-- Two lists of types with the same key are lists of the same types.
pub key-identities :
    (first : ℕ) (ids : Ids)
    → IsNumbered first ids
    → ids.counter ≤ 32768
    → (xs ys : List TypeObject) (ts us : List Text) → Named first ids xs ts
    → Named first ids ys us
    → join ts ≡ join us
    → identities xs ≡ identities ys
key-identities first ids h small xs ys ts us a b e =
    let (ns, ns_later, ns_texts) = numbers first ids h small xs ts a in
    let (ks, ks_later, ks_texts) = numbers first ids h small ys us b in
    let same : ns ≡ ks =
      key_of-injective ns ks ns_later ks_later (ap join ns_texts ∙ e ∙ sym (ap join ks_texts)) in
    let texts : us ≡ ts = sym ks_texts ∙ ap (map id_text) (sym same) ∙ ns_texts in
    same_texts first ids h xs ys ts a (subst (Named first ids ys) texts b)
