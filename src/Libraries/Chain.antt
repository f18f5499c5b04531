-- ===== src/Libraries/Chain.antt =====
-- Linker scripts: the constructor of DynamicLibrary follows each to the library that it names.
use js_ffi_cross.Base.{
  ℕ, zero, suc, ◌≤◌, pos, ◌≡◌, refl, sym, ap, ◌∙◌, Bool, true, false, ◌==◌, Option, some, [], ◌∷◌,
  ◌++◌, replicate, arith,
}
use js_ffi_cross.Base.Result.{Result, ok}
use js_ffi_cross.Memory.{Buffer}
use js_ffi_cross.Text.{Text, codes}
use js_ffi_cross.Scalar.{number}
use js_ffi_cross.CType.Coerce.{TypeSpec}
use js_ffi_cross.Value.{scalar, text, reference}
use js_ffi_cross.World.{World, Host}
use js_ffi_cross.Pointers.{is_null}
use js_ffi_cross.Libraries.Script.{
  ends_name, ends_file, up_to, starts_with, before_colon, last_so, so_library, skip_blanks,
  group_file, first_of, not_empty, group_here, drop, so_after_one, after_parenthesis,
}
use js_ffi_cross.Libraries.Dynamic.{Linker, DynamicLibrary, mode_or, dynamic_library}

-- No character of a class.
abbrev pub IsFree : (ℕ → Bool) → Text → Type 0
IsFree stops [] = Unit
IsFree stops (c ∷ s) = (stops c ≡ false) × IsFree stops s

-- The word GROUP begins nowhere in a text that another one follows.
abbrev pub BeforeGroup : Text → Text → Type 0
BeforeGroup [] after = Unit
BeforeGroup (c ∷ s) after =
    (starts_with (codes "GROUP") (c ∷ (s ++ after)) ≡ false) × BeforeGroup s after

abbrev pub blanks : ℕ → Text
blanks n = replicate n 32

up_to-free :
    (stops : ℕ → Bool) (p : Text)
    → IsFree stops p
    → (c : ℕ) → stops c ≡ true
    → (s : Text) → up_to stops (p ++ c ∷ s) ≡ p
unfolding up_to
up_to-free stops [] free c stop s = rw stop
up_to-free stops (d ∷ p) (this, free) c stop s =
    rw this (ap (λ r. d ∷ r) (up_to-free stops p free c stop s))

IsFree-append :
    (stops : ℕ → Bool) (p q : Text) → IsFree stops p → IsFree stops q → IsFree stops (p ++ q)
IsFree-append stops [] q tt free = free
IsFree-append stops (c ∷ p) q (this, rest) free = (this, IsFree-append stops p q rest free)

last_so-append : (name : Text) → last_so (name ++ codes ".so:") ≡ some (name ++ codes ".so")
unfolding last_so starts_with before_colon
last_so-append [] = refl
last_so-append (c ∷ name) = rw (last_so-append name)

pub append_assoc : (p q r : Text) → (p ++ q) ++ r ≡ p ++ (q ++ r)
append_assoc [] q r = refl
append_assoc (c ∷ p) q r = ap (λ s. c ∷ s) (append_assoc p q r)

so_after_name :
    (c : ℕ) (name : Text)
    → so_after_one (c ∷ (name ++ codes ".so:")) ≡ some (c ∷ (name ++ codes ".so"))
so_after_name c name = rw (last_so-append name)

-- A message that begins with a name ending in ".so" and a colon gives that name.
so_library-message :
    (c : ℕ) (name why : Text)
    → IsFree ends_name (c ∷ name)
    → so_library (c ∷ (name ++ (codes ".so: " ++ why))) ≡ some (c ∷ (name ++ codes ".so"))
unfolding so_library
so_library-message c name why free =
    let split : c ∷ (name ++ (codes ".so: " ++ why)) ≡ (c ∷ (name ++ codes ".so:")) ++ 32 ∷ why =
      ap (λ s. c ∷ s) (sym (append_assoc name (codes ".so:") (32 ∷ why))) in
    ap (λ s. so_after_one (up_to ends_name s)) split
    ∙ ap so_after_one (
        up_to-free ends_name (c ∷ (name ++ codes ".so:"))
          (
            free.0,
            IsFree-append ends_name name (codes ".so:") free.1 (refl, (refl, (refl, (refl, tt)))),
          )
          32 refl why)
    ∙ so_after_name c name

skip_blanks-blanks :
    (n c : ℕ) (s : Text) → (c == 32) ≡ false → skip_blanks (blanks n ++ c ∷ s) ≡ c ∷ s
unfolding skip_blanks
skip_blanks-blanks zero c s ends = rw ends
skip_blanks-blanks (suc n) c s ends = skip_blanks-blanks n c s ends

-- The directive of a linker script and its first file.
abbrev pub directive : ℕ → ℕ → Text → Text → Text
directive n k file rest = codes "GROUP" ++ (blanks n ++ b'(' ∷ (blanks k ++ (file ++ rest)))

-- The list of files goes on with a blank, or ends with a parenthesis.
group_here-directive :
    (n k c : ℕ) (file : Text)
    → IsFree ends_file (c ∷ file)
    → (d : ℕ) → ends_file d ≡ true
    → (rest : Text) → group_here (directive n k (c ∷ file) (d ∷ rest)) ≡ some (c ∷ file)
unfolding up_to starts_with skip_blanks
group_here-directive n k c file free d stop rest =
    let no_blank : (c == 32) ≡ false = let h = free.0 in ground arith in
    ap after_parenthesis (skip_blanks-blanks n b'(' (blanks k ++ (c ∷ file ++ d ∷ rest)) refl)
    ∙ ap (λ s. not_empty (up_to ends_file s)) (skip_blanks-blanks k c (file ++ d ∷ rest) no_blank)
    ∙ ap not_empty (up_to-free ends_file (c ∷ file) free d stop rest)

group_file-directive :
    (before : Text) (n k c : ℕ) (file : Text) (d : ℕ) (rest : Text)
    → BeforeGroup before (directive n k (c ∷ file) (d ∷ rest))
    → IsFree ends_file (c ∷ file)
    → ends_file d ≡ true
    → group_file (before ++ directive n k (c ∷ file) (d ∷ rest)) ≡ some (c ∷ file)
unfolding group_file starts_with
group_file-directive [] n k c file d rest tt free stop =
    ap (λ r. first_of r (group_file (drop 1 (directive n k (c ∷ file) (d ∷ rest)))))
      (group_here-directive n k c file free d stop rest)
group_file-directive (b ∷ before) n k c file d rest (this, others) free stop =
    rw this (group_file-directive before n k c file d rest others free stop)

module _ (host : Host) (linker : Linker) (rtld_lazy : ℕ) (read_file : Text → Result Text) where
  -- A path leads through so many files to a library, all opened with the same flags: `dlopen` opens
  -- the last one. Of each other it returns NULL; what `dlerror` returns begins with a name ending in
  -- ".so", free of blanks, tabs and parentheses, a colon and a blank; and the file of that name has a
  -- GROUP directive, whose first file is the next one, and no word GROUP before it.
  pub data Leads (flags : ℕ) : ℕ → Text → World → DynamicLibrary → World → Type 0 where
    opens :
        {path : Text} {w w1 : World} {view : Buffer} {type : Option TypeSpec}
        → linker.dlopen (text path ∷ scalar (number (pos flags)) ∷ []) w
          ≡ (ok (reference view type), w1)
        → is_null host view ≡ false
        → Leads flags 1 path w
            (record { path = some path; handle = record { view = view; type = type } })
            w1
    is_script :
        {files : ℕ} {path : Text} {w w1 w2 w3 : World} {view : Buffer} {type : Option TypeSpec}
        {library : DynamicLibrary} (s : ℕ) (name why before : Text) (n k c : ℕ) (file : Text)
        (d : ℕ) (rest : Text)
        → linker.dlopen (text path ∷ scalar (number (pos flags)) ∷ []) w
          ≡ (ok (reference view type), w1)
        → is_null host view ≡ true
        → linker.dlerror [] w1 ≡ (ok (text (s ∷ (name ++ (codes ".so: " ++ why)))), w2)
        → IsFree ends_name (s ∷ name)
        → read_file (s ∷ (name ++ codes ".so")) ≡ ok (before ++ directive n k (c ∷ file) (d ∷ rest))
        → BeforeGroup before (directive n k (c ∷ file) (d ∷ rest))
        → IsFree ends_file (c ∷ file)
        → ends_file d ≡ true
        → Leads flags files (c ∷ file) w2 library w3
        → Leads flags (suc files) path w library w3

  follows :
      (flags : ℕ) {files fuel : ℕ} {path : Text} {w w' : World} {library : DynamicLibrary}
      → Leads flags files path w library w'
      → files ≤ fuel
      → (mode : Option ℕ) → mode_or mode rtld_lazy ≡ flags
      → dynamic_library host linker rtld_lazy read_file fuel (some path) mode w ≡ (ok library, w')
  unfolding dynamic_library
  follows flags {fuel = zero} (opens opened not_null) enough mode same = absurd (omega arith)
  follows flags {fuel = zero}
        (is_script s name why before n k c file d rest opened null said name_free contents
          before_free file_free stop leads)
        enough mode same =
      absurd (omega arith)
  follows flags {fuel = suc fuel} (opens opened not_null) enough mode same =
      rw same (rw opened (rw not_null refl))
  follows flags {files = suc files} {fuel = suc fuel}
        (is_script s name why before n k c file d rest opened null said name_free contents
          before_free file_free stop leads)
        enough mode same =
      let shorter : files ≤ fuel = omega arith in
      let named = so_library-message s name why name_free in
      let target = group_file-directive before n k c file d rest before_free file_free stop in
      let followed = follows flags leads shorter (some flags) refl in
      rw same (rw opened (rw null (rw said (rw named (rw contents (rw target followed))))))

  -- If a path leads through so many files, all linker scripts but the last, to a library, the
  -- constructor returns that library and leaves the world that opening it left, on fuel for so many
  -- files and more. The flags are those of the given mode, or RTLD_LAZY without one. For each linker
  -- script, `dlopen` returns NULL; the text that `dlerror` then gives begins with a name that ends in
  -- ".so" and has no blanks, tabs and parentheses before that, directly followed by a colon and a
  -- blank; and in the file of that name the first word GROUP is that of the directive, which has at
  -- most blanks before the parenthesis and the first file.
  pub dynamic_library-Leads :
      (mode : Option ℕ) {files fuel : ℕ} {path : Text} {w w' : World} {library : DynamicLibrary}
      → Leads (mode_or mode rtld_lazy) files path w library w'
      → files ≤ fuel
      → dynamic_library host linker rtld_lazy read_file fuel (some path) mode w ≡ (ok library, w')
  dynamic_library-Leads mode leads enough = follows (mode_or mode rtld_lazy) leads enough mode refl
