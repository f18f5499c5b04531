-- ===== src/Layout/Align.antt =====
-- Arithmetic of alignment: the padding of `addType` and of the end of a struct.
use native.Mathlib.Nat.{
  div-add-mod, mod-lt, sub-zero, add-mod-mod, mul-add-mod_self_left, mod_self, mod-eq-zero_of_dvd,
  dvd_of_mod-eq-zero, dvd-add,
}
use js_ffi_cross.Base.{ℕ, zero, suc, ◌+◌, ◌-◌, ◌*◌, ◌/◌, ◌%◌, ◌<◌, ◌≡◌, ◌∙◌, arith}

-- The padding of an offset to a multiple of `a`.
abbrev pub pad : ℕ → ℕ → ℕ
pad a s = (a - s % a) % a

pub pad_lt : (a s : ℕ) → 0 < a → pad a s < a
pad_lt a s h = mod-lt (a - s % a) h

pub pad_aligned : (a s : ℕ) → 0 < a → (s + pad a s) % a ≡ 0
pad_aligned a s h =
    let whole : s + (a - s % a) ≡ a * (s / a) + a = omega (arith, div-add-mod s a, mod-lt s h) in
    add-mod-mod s (a - s % a) a ∙ rw whole (mul-add-mod_self_left a (s / a) a ∙ mod_self a)

pub pad_zero : (a s : ℕ) → s % a ≡ 0 → pad a s ≡ 0
pad_zero a s e = rw (e, sub-zero) (mod_self a)

pub add_mod_zero : (a s t : ℕ) → s % a ≡ 0 → t % a ≡ 0 → (s + t) % a ≡ 0
add_mod_zero a s t p q =
    mod-eq-zero_of_dvd a (dvd-add a (dvd_of_mod-eq-zero a p) (dvd_of_mod-eq-zero a q))

-- One and n - 1 more.
pub one_and_rest : (n x : ℕ) → 0 < n → x + (n - 1) * x ≡ n * x
one_and_rest zero x h = absurd (omega arith)
one_and_rest (suc n) x h = let e : suc n - 1 ≡ n = omega arith in rw e (omega arith)
