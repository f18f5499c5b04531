-- ===== src/Instances/Objects.antt =====
-- Instances of struct types of lib/ref/struct.js whose fields are integers: all fields assigned, and
-- all fields read.
use js_ffi_cross.Base.{ℕ, ◌+◌, ◌≤◌, ◌<◌, ◌≡◌, ◌∙◌, ℤ, false, some, List, [], ◌∷◌, arith}
use js_ffi_cross.Text.{Text, text_eq}
use js_ffi_cross.Text.Laws.{text_eq_refl, text_eq_sym}
use js_ffi_cross.Memory.{Memory}
use js_ffi_cross.CType.{CType, Fields, end, field}
use js_ffi_cross.Value.{Properties, no_property, property}
use js_ffi_cross.World.{Host}
use js_ffi_cross.Codec.Positional.{load_moved}
use js_ffi_cross.Layout.Struct.{has_field}
use js_ffi_cross.Layout.Names.{IsDistinct}
use js_ffi_cross.Instances.{find_field}
use js_ffi_cross.Instances.Integers.{IsInteger, width_of, InRange, value_of, standing}

-- Every field has an integer type.
abbrev pub Integers : Fields → Type 0
Integers end = Unit
Integers (field n type o rest) = IsInteger type × Integers rest

-- The fields stand behind one another, from `lo` to `hi`.
abbrev pub Ascending : (fields : Fields) → Integers fields → ℕ → ℕ → Type 0
Ascending end ints lo hi = lo ≤ hi
Ascending (field n type o rest) (i, ints) lo hi = (lo ≤ o) × Ascending rest ints (o + width_of i) hi

-- An integer in range for each field, and the object with these integers.
abbrev pub AllInRange : (fields : Fields) → Integers fields → List ℤ → Type 0
AllInRange end ints [] = Unit
AllInRange (field n type o rest) (i, ints) (v ∷ vs) = InRange i v × AllInRange rest ints vs
AllInRange _ _ _ = ⊥

abbrev pub properties_of : (fields : Fields) → Integers fields → List ℤ → Properties
properties_of (field n type o rest) (i, ints) (v ∷ vs) =
    property n (value_of i v) (properties_of rest ints vs)
properties_of _ _ _ = no_property

-- Each field is found by its name among all.
abbrev pub Found : Fields → Fields → Type 0
Found all end = Unit
Found all (field n type o rest) = (find_field n all ≡ some (type, o)) × Found all rest

Found-field :
    (n : Text) (type : CType) (o : ℕ) (all fields : Fields)
    → has_field n fields ≡ false
    → Found all fields
    → Found (field n type o all) fields
unfolding find_field has_field
Found-field n type o all end fresh h = tt
Found-field n type o all (field m t x rest) fresh (here, others) =
    let different : text_eq n m ≡ false = ground (arith, text_eq_sym n m) in
    let further : has_field n rest ≡ false = ground arith in
    (rw (different, here), Found-field n type o all rest further others)

pub IsDistinct-Found : (fields : Fields) → IsDistinct fields → Found fields fields
unfolding find_field
IsDistinct-Found end h = tt
IsDistinct-Found (field n type o rest) (alone, allowed, others) =
    (rw (text_eq_refl n), Found-field n type o rest rest alone (IsDistinct-Found rest others))

-- The bytes of a field lie in its span.
pub Ascending-le :
    (fields : Fields) (ints : Integers fields) (lo hi : ℕ) → Ascending fields ints lo hi → lo ≤ hi
Ascending-le end ints lo hi h = h
Ascending-le (field n type o rest) (i, ints) lo hi (first, others) =
    omega (arith, Ascending-le rest ints (o + width_of i) hi others)

-- The bytes from `lo` to `hi` of one memory, from `base` on, are those of another one.
abbrev pub SameBytes : ℕ → ℕ → Memory → ℕ → Memory → ℕ → Type 0
SameBytes lo hi m base m' base' = (j : ℕ) → lo ≤ j → j < hi → m (base + j) ≡ m' (base' + j)

module _ (host : Host) where
  -- The integers stand in memory, each where its field is.
  abbrev pub Holds : (fields : Fields) → Integers fields → List ℤ → Memory → ℕ → Type 0
  Holds end ints [] m base = Unit
  Holds (field n type o rest) (i, ints) (v ∷ vs) m base =
      (standing host i m (base + o) ≡ v) × Holds rest ints vs m base
  Holds _ _ _ m base = ⊥

  -- What stands in a field depends on its bytes alone, and not on where they stand.
  pub standing_moved :
      {type : CType} (i : IsInteger type) (m m' : Memory) (a a' : ℕ)
      → ((j : ℕ) → j < width_of i → m (a + j) ≡ m' (a' + j))
      → standing host i m a ≡ standing host i m' a'
  standing_moved i m m' a a' same = rw (load_moved host.endian (width_of i) m m' a a' same)

  moved :
      (m m' : Memory) (base base' o j : ℕ)
      → m (base + (o + j)) ≡ m' (base' + (o + j))
      → m (base + o + j) ≡ m' (base' + o + j)
  moved m m' base base' o j h =
      let left : base + o + j ≡ base + (o + j) = omega arith in
      let right : base' + o + j ≡ base' + (o + j) = omega arith in rw (left, right) h

  pub Holds-moved :
      (fields : Fields) (ints : Integers fields) (vs : List ℤ) (lo hi : ℕ) (m m' : Memory)
      (base base' : ℕ)
      → Ascending fields ints lo hi
      → SameBytes lo hi m' base' m base
      → Holds fields ints vs m base
      → Holds fields ints vs m' base'
  Holds-moved end ints [] lo hi m m' base base' up same h = tt
  Holds-moved end ints (v ∷ vs) lo hi m m' base base' up same h = h
  Holds-moved (field n type o rest) (i, ints) [] lo hi m m' base base' up same h = h
  Holds-moved (field n type o rest) (i, ints) (v ∷ vs) lo hi m m' base base' (first, others) same
        (here, there) =
      (
        standing_moved i m' m (base' + o) (base + o) (λ j low.
              let h =
                same (o + j) (omega arith)
                  (omega (arith, Ascending-le rest ints (o + width_of i) hi others)) in
              moved m' m base' base o j h)
            ∙ here,
        Holds-moved rest ints vs (o + width_of i) hi m m' base base' others
            (λ j low high. same j (omega arith) high) there,
      )
