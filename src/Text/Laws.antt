-- ===== src/Text/Laws.antt =====
-- The comparison of texts decides their equality.
use js_ffi_cross.Base.{◌≡◌, refl, arith, true, [], ◌∷◌}
use js_ffi_cross.Text.{Text, text_eq}

pub text_eq_refl : (text : Text) → text_eq text text ≡ true
unfolding text_eq
text_eq_refl [] = refl
text_eq_refl (c ∷ text) = ground (arith, text_eq_refl text)

pub text_eq-eq : (xs ys : Text) → text_eq xs ys ≡ true → xs ≡ ys
unfolding text_eq
text_eq-eq [] [] h = refl
text_eq-eq [] (y ∷ ys) h = cc
text_eq-eq (x ∷ xs) [] h = cc
text_eq-eq (x ∷ xs) (y ∷ ys) h = ground (arith, text_eq-eq xs ys)

pub text_eq_sym : (xs ys : Text) → text_eq xs ys ≡ text_eq ys xs
unfolding text_eq
text_eq_sym [] [] = refl
text_eq_sym [] (y ∷ ys) = refl
text_eq_sym (x ∷ xs) [] = refl
text_eq_sym (x ∷ xs) (y ∷ ys) = ground (arith, text_eq_sym xs ys)
