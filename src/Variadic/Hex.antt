-- ===== src/Variadic/Hex.antt =====
-- `toString(16)` of the ids in front of a text.
use native.Mathlib.Nat.{pow-suc}
use js_ffi_cross.Base.{
  ℕ, zero, suc, ◌+◌, ◌-◌, ◌*◌, ◌/◌, ◌%◌, ◌^◌, ◌<◌, ◌≤◌, ◌≡◌, inl, inr, refl, sym, ◌∙◌, ap, ltb,
  ◌==◌, if◌then◌else◌, pos, Bool, [], ◌∷◌, ◌++◌, length, arith, Bool-cases, true, false,
}
use js_ffi_cross.Word.{to_uint32, signed32}
use js_ffi_cross.Text.{Text}
use js_ffi_cross.Variadic.{hex_digit, to_hex, to_string_16, id_text}

-- The four zeros that every id but the first ends with.
abbrev pub zeros : Text → Text
zeros rest = b'0' ∷ b'0' ∷ b'0' ∷ b'0' ∷ rest

abbrev pub starts_with_zero : Text → Bool
starts_with_zero [] = false
starts_with_zero (c ∷ s) = c == b'0'

abbrev pub digit_value : ℕ → ℕ
digit_value c = if ltb c 58 then c - 48 else c - 87

abbrev pub value : ℕ → Text → ℕ
value acc [] = acc
value acc (c ∷ s) = value (acc * 16 + digit_value c) s

pub digit_value-hex_digit : (d : ℕ) → d < 16 → digit_value (hex_digit d) ≡ d
unfolding hex_digit
digit_value-hex_digit d h = ground arith

pub hex_digit_not_zero : (d : ℕ) → 0 < d → (hex_digit d == b'0') ≡ false
unfolding hex_digit
hex_digit_not_zero d h = ground arith

pub to_hex_step :
    (fuel n : ℕ) (rest : Text)
    → ltb n 16 ≡ false
    → to_hex (suc fuel) n rest ≡ to_hex fuel (n / 16) (hex_digit (n % 16) ∷ rest)
unfolding to_hex
to_hex_step fuel n rest h = rw h refl

pub to_hex_last :
    (fuel n : ℕ) (rest : Text) → ltb n 16 ≡ true → to_hex (suc fuel) n rest ≡ hex_digit n ∷ rest
unfolding to_hex
to_hex_last fuel n rest h = rw h refl

pub to_hex_zero : (n : ℕ) (rest : Text) → to_hex 0 n rest ≡ rest
unfolding to_hex
to_hex_zero n rest = refl

-- The digits of a number, read, are the number.
pub value-to_hex :
    (fuel n : ℕ) (rest : Text) → n < 16 ^ fuel → value 0 (to_hex fuel n rest) ≡ value n rest
value-to_hex zero n rest h = rw to_hex_zero (ap (λ k. value k rest) (omega arith))
value-to_hex (suc fuel) n rest h = elim (Bool-cases (ltb n 16)) [
  | inl small ↦
      rw (to_hex_last fuel n rest small, digit_value-hex_digit n (ground arith))
        (ap (λ k. value k rest) (omega arith))
  | inr large ↦
      rw
        (
          to_hex_step fuel n rest large,
          value-to_hex fuel (n / 16) (hex_digit (n % 16) ∷ rest) (omega (arith, pow-suc 16 fuel)),
        )
        (ap (λ k. value k rest) (omega (arith, digit_value-hex_digit (n % 16) (omega arith))))
]

pub to_hex-append :
    (fuel n : ℕ) (rest more : Text) → to_hex fuel n (rest ++ more) ≡ to_hex fuel n rest ++ more
to_hex-append zero n rest more =
    to_hex_zero n (rest ++ more) ∙ ap (λ t. t ++ more) (sym (to_hex_zero n rest))
to_hex-append (suc fuel) n rest more = elim (Bool-cases (ltb n 16)) [
  | inl small ↦ rw (to_hex_last fuel n rest small, to_hex_last fuel n (rest ++ more) small) refl
  | inr large ↦
      rw (to_hex_step fuel n rest large, to_hex_step fuel n (rest ++ more) large)
        (to_hex-append fuel (n / 16) (hex_digit (n % 16) ∷ rest) more)
]

pub length-to_hex : (fuel n : ℕ) (rest : Text) → length (to_hex fuel n rest) ≤ length rest + fuel
length-to_hex zero n rest = rw to_hex_zero (omega arith)
length-to_hex (suc fuel) n rest = elim (Bool-cases (ltb n 16)) [
  | inl small ↦ rw (to_hex_last fuel n rest small) (omega arith)
  | inr large ↦
      rw (to_hex_step fuel n rest large)
        (omega (arith, length-to_hex fuel (n / 16) (hex_digit (n % 16) ∷ rest)))
]

-- No leading zero.
pub to_hex_starts :
    (fuel n : ℕ) (rest : Text)
    → 0 < n
    → n < 16 ^ fuel
    → starts_with_zero (to_hex fuel n rest) ≡ false
to_hex_starts zero n rest positive h = absurd (omega arith)
to_hex_starts (suc fuel) n rest positive h = elim (Bool-cases (ltb n 16)) [
  | inl small ↦ rw (to_hex_last fuel n rest small) (hex_digit_not_zero n positive)
  | inr large ↦ rw (to_hex_step fuel n rest large) (
      to_hex_starts fuel (n / 16) (hex_digit (n % 16) ∷ rest) (ground arith)
        (omega (arith, pow-suc 16 fuel)))
]

pub to_hex_times_16 :
    (fuel n k : ℕ) (rest : Text)
    → 0 < n
    → k ≡ n * 16
    → to_hex (suc fuel) k rest ≡ to_hex fuel n (hex_digit 0 ∷ rest)
to_hex_times_16 fuel n k rest h e =
    to_hex_step fuel k rest (ground arith)
    ∙ ap (λ q. to_hex fuel q (hex_digit (k % 16) ∷ rest)) (omega arith)
    ∙ ap (λ d. to_hex fuel n (hex_digit d ∷ rest)) (omega arith)

pub zero_digit : hex_digit 0 ≡ b'0'
unfolding hex_digit
zero_digit = refl

abbrev pub number_text : ℕ → Text
number_text n = to_hex 4 n []

pub id_text_hex : (n : ℕ) → n < 32768 → id_text n ≡ to_hex 8 (n * 65536) []
unfolding id_text to_string_16
id_text_hex n h =
    let word : to_uint32 (pos (n * 65536)) ≡ n * 65536 = omega arith in
    let sign : signed32 (n * 65536) ≡ pos (n * 65536) = ground arith in rw (word, sign) refl

pub id_text_lem : (n : ℕ) → 0 < n → n < 32768 → id_text n ≡ number_text n ++ zeros []
id_text_lem n positive small =
    id_text_hex n small
    ∙ to_hex_times_16 7 (n * 4096) (n * 65536) [] (omega arith) (omega arith)
    ∙ to_hex_times_16 6 (n * 256) (n * 4096) _ (omega arith) (omega arith)
    ∙ to_hex_times_16 5 (n * 16) (n * 256) _ (omega arith) (omega arith)
    ∙ to_hex_times_16 4 n (n * 16) _ positive refl
    ∙ rw zero_digit (to_hex-append 4 n [] (zeros []))
