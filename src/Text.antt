-- ===== src/Text.antt =====
-- Texts as lists of code points, with what `coerceType` does to them: dropping white space, lower
-- case (of the ASCII letters) and counting stars.
pub mod Laws
use Prim.Native.Char.{code}
use Prim.Native.String.{String}
use js_ffi_cross.Base.{
  ℕ, suc, ◌+◌, Bool, true, false, ◌&&◌, ◌||◌, List, [], ◌∷◌, leb, ◌==◌, if◌then◌else◌,
}

abbrev pub Text : Type 0
Text = List ℕ

abbrev pub codes : String → Text
codes String.[] = []
codes (String.◌∷◌ c s) = code c ∷ codes s

unfoldable pub text_eq : Text → Text → Bool
text_eq [] [] = true
text_eq (x ∷ xs) (y ∷ ys) = x == y && text_eq xs ys
text_eq _ _ = false

-- The class \s of the language.
unfoldable pub is_space : ℕ → Bool
is_space c =
    (leb 9 c && leb c 13)
    || (c == 32)
    || (c == 0xa0)
    || (c == 0x1680)
    || (leb 0x2000 c && leb c 0x200a)
    || (c == 0x2028)
    || (c == 0x2029)
    || (c == 0x202f)
    || (c == 0x205f)
    || (c == 0x3000)
    || (c == 0xfeff)

-- `replace(/\s+/g, '')`
unfoldable pub strip_spaces : Text → Text
strip_spaces [] = []
strip_spaces (c ∷ s) = let rest = strip_spaces s in if is_space c then rest else c ∷ rest

unfoldable pub lower : ℕ → ℕ
lower c = if leb b'A' c && leb c b'Z' then c + 32 else c

unfoldable pub to_lower_case : Text → Text
to_lower_case [] = []
to_lower_case (c ∷ s) = lower c ∷ to_lower_case s

-- `replace(/\*/g, …)`, and how often its callback counts.
unfoldable pub strip_stars : Text → Text
strip_stars [] = []
strip_stars (c ∷ s) = let rest = strip_stars s in if c == b'*' then rest else c ∷ rest

unfoldable pub count_stars : Text → ℕ
count_stars [] = 0
count_stars (c ∷ s) = let rest = count_stars s in if c == b'*' then suc rest else rest
