-- ===== src/Variadic/Collision.antt =====
-- Keys with the id of the first type that `getId` of lib/foreign_function_var.js numbers.
use native.Mathlib.Nat.{pow-suc}
use js_ffi_cross.Base.{
  ℕ, zero, suc, ◌*◌, ◌/◌, ◌%◌, ◌^◌, ◌<◌, ◌≡◌, inl, inr, refl, sym, ◌∙◌, ap, ltb, [], ◌∷◌, ◌++◌,
  arith, Bool-cases, true,
}
use js_ffi_cross.Text.{Text}
use js_ffi_cross.Variadic.{hex_digit, to_hex, to_string_16, id_text, join}
use js_ffi_cross.Variadic.Keys.{key_of, key_of-cons, key_of-nil}
use js_ffi_cross.Variadic.Hex.{
  zeros, number_text, to_hex_step, to_hex_last, to_hex_times_16, to_hex-append, zero_digit,
}

-- Fuel that is enough may grow.
to_hex_more :
    (fuel n : ℕ) (rest : Text)
    → n < 16 ^ suc fuel
    → to_hex (suc (suc fuel)) n rest ≡ to_hex (suc fuel) n rest
to_hex_more zero n rest h =
    let small : ltb n 16 ≡ true = ground arith in
    to_hex_last 1 n rest small ∙ sym (to_hex_last 0 n rest small)
to_hex_more (suc fuel) n rest h = elim (Bool-cases (ltb n 16)) [
  | inl small ↦
      to_hex_last (suc (suc fuel)) n rest small ∙ sym (to_hex_last (suc fuel) n rest small)
  | inr large ↦
      to_hex_step (suc (suc fuel)) n rest large
      ∙ to_hex_more fuel (n / 16) (hex_digit (n % 16) ∷ rest) (omega (arith, pow-suc 16 (suc fuel)))
      ∙ sym (to_hex_step (suc fuel) n rest large)
]

pub first_id : id_text 0 ≡ b'0' ∷ []
unfolding id_text to_string_16 to_hex hex_digit
first_id = refl

first_key : key_of (0 ∷ []) ≡ b'0' ∷ []
unfolding join
first_key = ap (λ t. t ++ []) first_id

-- The types with the numbers `n` and 0 have the key of the one type with the number `16 n`, for
-- every positive `n` below 2048.
pub first_type_collides : (n : ℕ) → 0 < n → n < 2048 → key_of (n ∷ 0 ∷ []) ≡ key_of (n * 16 ∷ [])
first_type_collides n h k =
    key_of-cons n (0 ∷ []) h (omega arith)
    ∙ ap (λ t. number_text n ++ zeros t) first_key
    ∙ ap (λ t. t ++ zeros (b'0' ∷ [])) (to_hex_more 2 n [] (omega arith))
    ∙ sym (to_hex-append 3 n [] (zeros (b'0' ∷ [])))
    ∙ to_hex-append 3 n (b'0' ∷ []) (zeros [])
    ∙ ap (λ t. t ++ zeros []) (rw (← zero_digit) (sym shifted))
    ∙ ap (λ t. number_text (n * 16) ++ zeros t) key_of-nil
    ∙ sym (key_of-cons (n * 16) [] (omega arith) (omega arith))
  where
    shifted : to_hex 4 (n * 16) [] ≡ to_hex 3 n (hex_digit 0 ∷ [])
    shifted = to_hex_times_16 3 n (n * 16) [] h refl
