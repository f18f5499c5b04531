-- ===== src/CType/CoerceLaws.antt =====
-- What `coerceType` makes of a name with stars and white space behind it, and `derefType` of the
-- result.
use js_ffi_cross.Base.{
  ℕ, zero, suc, ◌+◌, ◌<◌, ◌≤◌, ◌≡◌, ◌⊎◌, refl, true, false, ◌||◌, none, [], ◌∷◌, ◌++◌, ◌==◌, arith,
  inl, inr, Bool-cases, replicate,
}
use mathlib.Core.List.{append-nil}
use js_ffi_cross.Base.Result.{ok, err, ◌>>=◌, deref_of_indirection_one}
use js_ffi_cross.CType.{CType, atom, struct, union, array, ref_of, deref_of, indirection}
use js_ffi_cross.Text.{
  Text, codes, text_eq, is_space, lower, strip_spaces, to_lower_case, strip_stars, count_stars,
}
use js_ffi_cross.CType.Coerce.{
  named, Types, lookup, found, prototype, or_slow, deref_type, ref_times, coerce_stripped,
  coerce_type,
}

-- A name with no white space and no star.
abbrev pub IsWord : Text → Type 0
IsWord [] = Unit
IsWord (c ∷ s) = ((is_space c || (c == b'*')) ≡ false) × IsWord s

-- White space and stars alone.
abbrev pub IsDecoration : Text → Type 0
IsDecoration [] = Unit
IsDecoration (c ∷ s) = ((is_space c || (c == b'*')) ≡ true) × IsDecoration s

abbrev pub stars : ℕ → Text
stars n = replicate n b'*'

star_not_space : (c : ℕ) → (c == b'*') ≡ true → is_space c ≡ false
unfolding is_space
star_not_space c h = let e : c ≡ b'*' = ground arith in rw e

lower-star : (c : ℕ) → (lower c == b'*') ≡ (c == b'*')
unfolding lower
lower-star c = ground arith

decoration_normal :
    (d : Text) → IsDecoration d → to_lower_case (strip_spaces d) ≡ stars (count_stars d)
unfolding to_lower_case strip_spaces count_stars
decoration_normal [] h = refl
decoration_normal (c ∷ d) h =
    ground (arith, star_not_space c, lower-star c, decoration_normal d h.1)

normal :
    (name d : Text)
    → IsWord name
    → IsDecoration d
    → to_lower_case (strip_spaces (name ++ d)) ≡ to_lower_case name ++ stars (count_stars d)
unfolding to_lower_case strip_spaces
normal [] d w h = decoration_normal d h
normal (c ∷ name) d w h = ground (arith, normal name d w.1 h)

strip-stars : (n : ℕ) → strip_stars (stars n) ≡ []
unfolding strip_stars
strip-stars zero = refl
strip-stars (suc n) = strip-stars n

strip_normal :
    (name : Text) (n : ℕ)
    → IsWord name
    → strip_stars (to_lower_case name ++ stars n) ≡ to_lower_case name
unfolding strip_stars to_lower_case
strip_normal [] n w = strip-stars n
strip_normal (c ∷ name) n w = ground (arith, lower-star c, strip_normal name n w.1)

count-stars : (n : ℕ) → count_stars (stars n) ≡ n
unfolding count_stars
count-stars zero = refl
count-stars (suc n) = omega (arith, count-stars n)

count_normal : (name : Text) (n : ℕ) → IsWord name → count_stars (to_lower_case name ++ stars n) ≡ n
unfolding count_stars to_lower_case
count_normal [] n w = count-stars n
count_normal (c ∷ name) n w = ground (arith, lower-star c, count_normal name n w.1)

-- A text with a star is no word.
star_ne_word : (name rest word : Text) → IsWord word → text_eq (name ++ (b'*' ∷ rest)) word ≡ false
unfolding text_eq
star_ne_word [] rest [] w = refl
star_ne_word [] rest (c ∷ word) w = ground arith
star_ne_word (x ∷ name) rest [] w = refl
star_ne_word (x ∷ name) rest (c ∷ word) w = ground (arith, star_ne_word name rest word w.1)

decorated_ne_word :
    (name : Text) (n : ℕ) (word : Text)
    → IsWord word
    → text_eq name word ≡ false
    → text_eq (name ++ stars n) word ≡ false
decorated_ne_word name zero word w h = rw append-nil h
decorated_ne_word name (suc n) word w h = star_ne_word name (stars n) word w

pointer-IsWord : IsWord (codes "pointer")
unfolding is_space
pointer-IsWord = (refl, (refl, (refl, (refl, (refl, (refl, (refl, tt)))))))

string-IsWord : IsWord (codes "string")
unfolding is_space
string-IsWord = (refl, (refl, (refl, (refl, (refl, (refl, tt))))))

-- A name with white space and stars behind it, the whole being no key of the table, is looked up in
-- lower case and wrapped in as many reference types as there are stars; where the lower-case name
-- is no key it is refused. The name is free of white space and stars, and not one of the two legacy
-- names "pointer" and "string".
pub coerce_decorated :
    (types : Types) (name d : Text)
    → IsWord name
    → IsDecoration d
    → lookup (name ++ d) types ≡ none
    → text_eq (to_lower_case name) (codes "pointer") ≡ false
    → text_eq (to_lower_case name) (codes "string") ≡ false
    → coerce_type types (named (name ++ d))
      ≡ (found (lookup (to_lower_case name) types) >>= λ type. ok (ref_times (count_stars d) type))
unfolding coerce_type coerce_stripped
coerce_decorated types name d w h absent not_pointer not_string = rw (
  absent,
  normal name d w h,
  decorated_ne_word (to_lower_case name) (count_stars d) (codes "pointer") pointer-IsWord
      not_pointer,
  decorated_ne_word (to_lower_case name) (count_stars d) (codes "string") string-IsWord not_string,
  strip_normal name (count_stars d) w,
  count_normal name (count_stars d) w,
)

indirection-ref_times :
    (n : ℕ) (type : CType) → indirection (ref_times n type) ≡ indirection type + n
unfolding ref_times
indirection-ref_times zero type = omega arith
indirection-ref_times (suc n) type = omega (arith, indirection-ref_times n (ref_of type))

ref_times-suc : (n : ℕ) (type : CType) → ref_times (suc n) type ≡ ref_of (ref_times n type)
unfolding ref_times
ref_times-suc zero type = refl
ref_times-suc (suc n) type = ref_times-suc n (ref_of type)

or_slow_lem :
    (type : CType)
    → 1 < indirection type
    → indirection (or_slow type (prototype type)) + 1 ≡ indirection type
unfolding prototype
or_slow_lem (atom a) h = omega arith
or_slow_lem (struct n align fields) h = omega arith
or_slow_lem (union n align fields) h = omega arith
or_slow_lem (array type n) h = omega arith
or_slow_lem (ref_of type) h = ground arith
or_slow_lem (deref_of type) h = ground arith

-- `derefType` refuses a type of indirection 1, and of any type above it makes one of an indirection
-- less by one. Indirections are positive.
pub deref_type_cases :
    (type : CType)
    → 1 ≤ indirection type
    → ((indirection type ≡ 1) × (deref_type type ≡ err deref_of_indirection_one))
      ⊎ ((result : CType) × (deref_type type ≡ ok result)
          × (indirection result + 1 ≡ indirection type))
unfolding deref_type
deref_type_cases type h = elim (Bool-cases (indirection type == 1)) [
  | inl single ↦ inl (ground arith, ground arith)
  | inr above ↦ inr (or_slow type (prototype type), ground arith, or_slow_lem type (ground arith))
]

-- `derefType` of a reference type is the type that it was made of. Indirections are positive.
deref_type-ref_of : (type : CType) → 1 ≤ indirection type → deref_type (ref_of type) ≡ ok type
unfolding deref_type prototype
deref_type-ref_of type h = ground arith

-- A name's stars come off one at a time: `derefType` of a type under so many references and one is
-- the type under so many, whose indirection has grown by that number. Indirections are positive.
pub deref_type-ref_times :
    (n : ℕ) (type : CType)
    → 1 ≤ indirection type
    → (deref_type (ref_times (suc n) type) ≡ ok (ref_times n type))
      × (indirection (ref_times n type) ≡ indirection type + n)
deref_type-ref_times n type h = (
  rw ref_times-suc
      (deref_type-ref_of (ref_times n type) (omega (arith, indirection-ref_times n type))),
  indirection-ref_times n type,
)
