-- ===== src/Builtins/Sizes.antt =====
-- The sizes of the types that `createCType` of lib/ref/ref.js makes, against the native map of sizes.
use js_ffi_cross.Base.{
  ℕ, ◌≡◌, refl, sym, ap, ◌∙◌, Bool, Bool-cases, inl, inr, Option, none, some, [], ◌∷◌, arith, ◌==◌,
  if◌then◌else◌, true,
}
use js_ffi_cross.Base.Result.{
  Result, ok, err, ◌>>=◌, ◌>>◌, throw_if, no_alignment, >>=-returns, >>-returns,
}
use js_ffi_cross.Text.Laws.{text_eq-eq}
use js_ffi_cross.Text.{Text, codes, text_eq}
use js_ffi_cross.CType.{Atom}
use js_ffi_cross.Builtins.{
  zero_of, negative_one_of, NativeMaps, BuiltinType, Table, or_undefined, native_name, is_unsigned,
  is_max_size_8, accessor_of, is_one_of, typedef_names, fixed_name, find_type, parent_of, base_of,
  create_ctype,
}

-- A type has the native size of its name, and its accessors read and write that many bytes.
pub record HasNativeSize (native : NativeMaps) (name : Text) (t : BuiltinType) : Type 0 where
  pub sized : native.sizeof (native_name name) ≡ some t.type.size
  pub accesses :
      t.type.accessor
      ≡ accessor_of name (is_max_size_8 name t.type.size) (is_unsigned name) t.type.size

abbrev pub IsSized : NativeMaps → Table → Type 0
IsSized native [] = Unit
IsSized native ((name, t) ∷ table) = HasNativeSize native name t × IsSized native table

or_undefined-returns : (n : Option ℕ) (k : ℕ) → or_undefined n ≡ ok k → n ≡ some k
or_undefined-returns none k h = cc
or_undefined-returns (some m) k h = cc

parent_of-returns :
    (found : Option BuiltinType) (t : BuiltinType) → parent_of found ≡ ok t → found ≡ some t
parent_of-returns none t h = cc
parent_of-returns (some b) t h = cc

abbrev inherits : BuiltinType → Text → Result (Atom × Option Text)
inherits parent name = ok (parent.type, some name)

-- What the steps of `createCType` return, if they do.
steps_return :
    (size alignment : Result ℕ) (base : ℕ → ℕ → Result (Atom × Option Text))
    (made : ℕ → Atom × Option Text → BuiltinType) (t : BuiltinType)
    → (size >>= λ n.
        alignment >>= λ a. throw_if (a == 0) no_alignment >> (base n a >>= λ b. ok (made n b)))
      ≡ ok t
    → (n a : ℕ) × (b : Atom × Option Text) × (size ≡ ok n) × (base n a ≡ ok b) × (made n b ≡ t)
steps_return (err e) alignment base made t h = cc
steps_return (ok n) (err e) base made t h = cc
steps_return (ok n) (ok a) base made t h =
    let (aligned, rest) =
      >>-returns (throw_if (a == 0) no_alignment) (base n a >>= λ b. ok (made n b)) t h in
    let (b, has_base, same) = >>=-returns (base n a) (λ b. ok (made n b)) t rest in
    (n, a, b, refl, has_base, cc)

-- The type that a typedef stands for.
abbrev pub parent_name : Text → Bool → ℕ → Option Text
parent_name name unsigned size =
    if is_one_of name typedef_names then some (fixed_name unsigned size) else none

module _ (native : NativeMaps) where
  -- The type that a typedef inherits from.
  find_type-sized :
      (key : Text) (table : Table) (t : BuiltinType)
      → IsSized native table
      → find_type key table ≡ some t
      → native.sizeof (native_name key) ≡ some t.type.size
  unfolding find_type
  find_type-sized key [] t sized h = cc
  find_type-sized key ((name, b) ∷ table) t (first, rest) h = elim (Bool-cases (text_eq name key)) [
    | inl here ↦
        let same : b ≡ t = ground arith in
        ap (λ k. native.sizeof (native_name k)) (sym (text_eq-eq name key here))
        ∙ first.sized
        ∙ ap (λ (c : BuiltinType). some c.type.size) same
    | inr later ↦ find_type-sized key table t rest (ground arith)
  ]

  -- If the native size of a typedef is that of the type of fixed width which it stands for.
  base_of-size :
      (table : Table) (name : Text) (unsigned : Bool) (size alignment : ℕ)
      (base : Atom × Option Text)
      → ((m : ℕ)
          → is_one_of name typedef_names ≡ true
          → native.sizeof (native_name (fixed_name unsigned size)) ≡ some m
          → m ≡ size)
      → IsSized native table
      → base_of native table name unsigned size alignment ≡ ok base
      → (base.0.size ≡ size) × (base.1 ≡ parent_name name unsigned size)
  unfolding base_of
  base_of-size table name unsigned size alignment base fixed sized h =
      elim (Bool-cases (is_one_of name typedef_names)) [
        | inl typedef ↦
            let inherited = fixed_name unsigned size in
            let (parent, found, made) =
              >>=-returns (parent_of (find_type inherited table)) (λ p. inherits p inherited) base
                (rw typedef at h) in
            let has_size =
              find_type-sized inherited table parent sized
                (parent_of-returns (find_type inherited table) parent found) in
            let width = fixed parent.type.size typedef has_size in
            (ground arith, rw typedef (ground arith))
        | inr own ↦ (ground arith, rw own (ground arith))
      ]

  -- A type that was made, and the name of the type that it inherits from.
  pub record IsMade (name : Text) (t : BuiltinType) : Type 0 where
    pub has_size : HasNativeSize native name t
    pub inherits_from : t.parent ≡ parent_name name (is_unsigned name) t.type.size

  pub create_ctype-IsMade :
      (table : Table) (name : Text) (t : BuiltinType)
      → ((n m : ℕ)
          → native.sizeof (native_name name) ≡ some n
          → is_one_of name typedef_names ≡ true
          → native.sizeof (native_name (fixed_name (is_unsigned name) n)) ≡ some m
          → m ≡ n)
      → IsSized native table
      → create_ctype native table name ≡ ok t
      → IsMade name t
  unfolding create_ctype
  create_ctype-IsMade table name t fixed sized h =
      let made : ℕ → Atom × Option Text → BuiltinType = λ size base. (record {
        type = record (base.0) {
          accessor = accessor_of name (is_max_size_8 name size) (is_unsigned name) size;
        };
        real_name = name;
        zero_value = zero_of (text_eq name (codes "bool")) (is_max_size_8 name size);
        negative_one =
            negative_one_of (text_eq name (codes "bool")) (is_max_size_8 name size)
              (is_unsigned name) size;
        max_size_is_8 = is_max_size_8 name size;
        parent = base.1;
      }) in
      let (size, alignment, base, has_size, has_base, same) =
        steps_return (or_undefined (native.sizeof (native_name name)))
          (or_undefined (native.alignof (native_name name)))
          (base_of native table name (is_unsigned name)) made t h in
      let known = or_undefined-returns (native.sizeof (native_name name)) size has_size in
      let (width, parent) =
        base_of-size table name (is_unsigned name) size alignment base (λ m. fixed size m known)
          sized has_base in
      rw (← same) (record {
        has_size = record {
          sized = known ∙ ap (λ (n : ℕ). some n) (sym width);
          accesses =
              ap (λ n. accessor_of name (is_max_size_8 name n) (is_unsigned name) n) (sym width);
        };
        inherits_from = parent ∙ ap (parent_name name (is_unsigned name)) (sym width);
      })
