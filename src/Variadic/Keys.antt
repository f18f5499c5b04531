-- ===== src/Variadic/Keys.antt =====
-- The keys of lib/foreign_function_var.js: ids of types, joined without a separator.
use js_ffi_cross.Base.{
  ℕ, zero, suc, ◌+◌, ◌/◌, ◌%◌, ◌<◌, ◌≤◌, ◌≡◌, inl, inr, refl, sym, ◌∙◌, ap, ltb, List, [], ◌∷◌,
  ◌++◌, map, length, arith, Bool-cases, true, false,
}
use mathlib.Core.List.{append_assoc}
use js_ffi_cross.Text.{Text}
use js_ffi_cross.Variadic.{hex_digit, to_hex, id_text, join}
use js_ffi_cross.Variadic.Hex.{
  zeros, starts_with_zero, value, to_hex_step, to_hex_last, to_hex_zero, value-to_hex,
  length-to_hex, to_hex_starts, number_text, id_text_lem,
}

abbrev tail4 : Text → Text
tail4 (a ∷ b ∷ c ∷ d ∷ rest) = rest
tail4 _ = []

no_clash :
    (R X : Text) → starts_with_zero R ≡ false → starts_with_zero (tail4 X) ≡ true → zeros R ≡ X → ⊥
no_clash R X h k e =
    let same : starts_with_zero R ≡ starts_with_zero (tail4 X) =
      ap (λ t. starts_with_zero (tail4 t)) e in
    cc

no_digit :
    (a : ℕ) (es R S : Text)
    → length es ≤ 3
    → starts_with_zero R ≡ false
    → zeros R ≡ a ∷ (es ++ zeros S)
    → ⊥
no_digit a [] R S h k e = no_clash R (a ∷ zeros S) k refl e
no_digit a (b ∷ []) R S h k e = no_clash R (a ∷ b ∷ zeros S) k refl e
no_digit a (b ∷ c ∷ []) R S h k e = no_clash R (a ∷ b ∷ c ∷ zeros S) k refl e
no_digit a (b ∷ c ∷ d ∷ []) R S h k e = no_clash R (a ∷ b ∷ c ∷ d ∷ zeros S) k refl e
no_digit a (b ∷ c ∷ d ∷ f ∷ es) R S h k e = absurd (omega arith)

-- Digits and zeros in front of a text that does not start with a zero: both parts are determined.
aligned :
    (ds es R S : Text)
    → length ds ≤ 4
    → length es ≤ 4
    → starts_with_zero R ≡ false
    → starts_with_zero S ≡ false
    → ds ++ zeros R ≡ es ++ zeros S
    → (ds ≡ es) × (R ≡ S)
aligned [] [] R S hd he hR hS e = (refl, ap tail4 e)
aligned [] (a ∷ es) R S hd he hR hS e = absurd (no_digit a es R S (omega arith) hR e)
aligned (d ∷ ds) [] R S hd he hR hS e = absurd (no_digit d ds S R (omega arith) hS (sym e))
aligned (d ∷ ds) (a ∷ es) R S hd he hR hS e =
    let head : d ≡ a = cc in
    let (same, rest) = aligned ds es R S (omega arith) (omega arith) hR hS cc in (cc, rest)

-- Every number is that of a type numbered after the first and before the 2 ^ 15th.
abbrev pub AllLater : List ℕ → Type 0
AllLater [] = Unit
AllLater (n ∷ ns) = (0 < n) × (n < 32768) × AllLater ns

-- The key of types with these numbers.
abbrev pub key_of : List ℕ → Text
key_of ns = join (map id_text ns)

abbrev cons_key : ℕ → Text → Text
cons_key n rest = number_text n ++ zeros rest

pub key_of-cons :
    (n : ℕ) (ns : List ℕ) → 0 < n → n < 32768 → key_of (n ∷ ns) ≡ cons_key n (key_of ns)
unfolding join
key_of-cons n ns h k =
    ap (λ t. t ++ key_of ns) (id_text_lem n h k)
    ∙ append_assoc (number_text n) (zeros []) (key_of ns)

starts_append : (xs ys : Text) → 0 < length xs → starts_with_zero (xs ++ ys) ≡ starts_with_zero xs
starts_append [] ys h = absurd (omega arith)
starts_append (x ∷ xs) ys h = refl

to_hex_nonempty :
    (fuel n : ℕ) (rest : Text) → 0 < length rest + fuel → 0 < length (to_hex fuel n rest)
to_hex_nonempty zero n rest h = rw to_hex_zero (omega arith)
to_hex_nonempty (suc fuel) n rest h = elim (Bool-cases (ltb n 16)) [
  | inl small ↦ rw (to_hex_last fuel n rest small) (omega arith)
  | inr large ↦
      rw (to_hex_step fuel n rest large)
        (to_hex_nonempty fuel (n / 16) (hex_digit (n % 16) ∷ rest) (omega arith))
]

cons_key_starts :
    (n : ℕ) (rest : Text) → 0 < n → n < 32768 → starts_with_zero (cons_key n rest) ≡ false
cons_key_starts n rest h k =
    starts_append (number_text n) (zeros rest) (to_hex_nonempty 4 n [] (omega arith))
    ∙ to_hex_starts 4 n [] h (omega arith)

pub key_of_starts : (ns : List ℕ) → AllLater ns → starts_with_zero (key_of ns) ≡ false
unfolding join
key_of_starts [] h = refl
key_of_starts (n ∷ ns) (h, k, rest) = rw (key_of-cons n ns h k) (cons_key_starts n (key_of ns) h k)

number_text_injective : (n k : ℕ) → n < 32768 → k < 32768 → number_text n ≡ number_text k → n ≡ k
number_text_injective n k hn hk e =
    sym (value-to_hex 4 n [] (omega arith)) ∙ ap (value 0) e ∙ value-to_hex 4 k [] (omega arith)

no_empty_key : (n : ℕ) (ns : List ℕ) → 0 < n → n < 32768 → [] ≡ key_of (n ∷ ns) → ⊥
no_empty_key n ns h k e = go (number_text n) (e ∙ key_of-cons n ns h k)
  where
    go : (xs : Text) → [] ≡ xs ++ zeros (key_of ns) → ⊥
    go [] e = cc
    go (x ∷ xs) e = cc

pub key_of-nil : [] ≡ key_of []
unfolding join
key_of-nil = refl

-- Two keys of types that were numbered after the first one and before the 2 ^ 15th are the same
-- text only if they are keys of the same numbers.
pub key_of-injective :
    (ns ks : List ℕ) → AllLater ns → AllLater ks → key_of ns ≡ key_of ks → ns ≡ ks
key_of-injective [] [] hn hk e = refl
key_of-injective [] (k ∷ ks) hn (hk, lk, rest) e = absurd (no_empty_key k ks hk lk (key_of-nil ∙ e))
key_of-injective (n ∷ ns) [] (hn, ln, rest) hk e =
    absurd (no_empty_key n ns hn ln (key_of-nil ∙ sym e))
key_of-injective (n ∷ ns) (k ∷ ks) (hn, ln, rest_n) (hk, lk, rest_k) e =
    let (digits, rest) =
      aligned (number_text n) (number_text k) (key_of ns) (key_of ks) (length-to_hex 4 n [])
        (length-to_hex 4 k []) (key_of_starts ns rest_n) (key_of_starts ks rest_k)
        (sym (key_of-cons n ns hn ln) ∙ e ∙ key_of-cons k ks hk lk) in
    let head = number_text_injective n k ln lk digits in
    let tail = key_of-injective ns ks rest_n rest_k rest in cc
