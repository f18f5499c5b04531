-- ===== src/Libraries/Script.antt =====
-- Linker scripts: the two regular expressions with which lib/dynamic_library.js finds the file that
-- a message of `dlerror` names, and the file that a linker script names.
use js_ffi_cross.Base.{
  ℕ, zero, suc, Bool, true, false, ◌&&◌, ◌||◌, ◌==◌, if◌then◌else◌, Option, none, some, [], ◌∷◌,
}
use js_ffi_cross.Text.{Text, codes}

-- `[ \t()]`
abbrev pub ends_name : ℕ → Bool
ends_name c = c == 32 || c == 9 || c == b'(' || c == b')'

-- `[ )]`
abbrev pub ends_file : ℕ → Bool
ends_file c = c == 32 || c == b')'

-- What stands before the first character of a class.
unfoldable pub up_to : (ℕ → Bool) → Text → Text
up_to stops [] = []
up_to stops (c ∷ s) = let rest = up_to stops s in if stops c then [] else c ∷ rest

unfoldable pub starts_with : Text → Text → Bool
starts_with [] s = true
starts_with (p ∷ prefix) [] = false
starts_with (p ∷ prefix) (c ∷ s) = p == c && starts_with prefix s

abbrev pub drop : ℕ → Text → Text
drop zero s = s
drop (suc n) [] = []
drop (suc n) (c ∷ s) = drop n s

abbrev pub onto : ℕ → Option Text → Option Text
onto c none = none
onto c (some s) = some (c ∷ s)

abbrev pub first_of : Option Text → Option Text → Option Text
first_of none later = later
first_of (some s) later = some s

-- `([^ \t:()])*):` in a text without blanks and parentheses.
unfoldable pub before_colon : Text → Option Text
before_colon [] = none
before_colon (c ∷ s) = let rest = before_colon s in if c == b':' then some [] else onto c rest

-- `\.so` at the front and the rest up to a colon.
abbrev pub so_here : Text → Option Text
so_here s =
    let named = onto b'.' (onto b's' (onto b'o' (before_colon (drop 3 s)))) in
    if starts_with (codes ".so") s then named else none

-- The last place where that matches, since `+` takes as much as it can.
unfoldable pub last_so : Text → Option Text
unfolding starts_with before_colon
last_so [] = none
last_so (c ∷ s) = first_of (onto c (last_so s)) (so_here (c ∷ s))

-- `+` wants a character before the `.so`.
abbrev pub so_after_one : Text → Option Text
so_after_one [] = none
so_after_one (c ∷ s) = onto c (last_so s)

-- `err.match(/^(([^ \t()])+\.so([^ \t:()])*):([ \t])*/)`, and of that `match[1]`.
unfoldable pub so_library : Text → Option Text
unfolding up_to last_so
so_library message = so_after_one (up_to ends_name message)

-- ` *`
unfoldable pub skip_blanks : Text → Text
skip_blanks [] = []
skip_blanks (c ∷ s) = let rest = skip_blanks s in if c == 32 then rest else c ∷ s

abbrev pub not_empty : Text → Option Text
not_empty [] = none
not_empty (c ∷ s) = some (c ∷ s)

abbrev pub after_parenthesis : Text → Option Text
after_parenthesis [] = none
after_parenthesis (c ∷ s) =
    let file = not_empty (up_to ends_file (skip_blanks s)) in if c == b'(' then file else none

abbrev pub group_here : Text → Option Text
group_here s =
    let file = after_parenthesis (skip_blanks (drop 5 s)) in
    if starts_with (codes "GROUP") s then file else none

-- `content.match(/GROUP *\( *(([^ )])+)/)`, and of that `match[1]`.
unfoldable pub group_file : Text → Option Text
unfolding up_to starts_with skip_blanks
group_file [] = none
group_file (c ∷ s) = first_of (group_here (c ∷ s)) (group_file s)
