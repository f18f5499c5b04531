-- ===== src/Variadic.antt =====
-- `VariadicForeignFunction` of lib/foreign_function_var.js: the functions that it makes for each
-- list of argument types, and the cache of them. Types are objects with an identity, to which
-- `getId` gives a number; a text that names a type is coerced before. What `_ForeignFunction` makes
-- is its arguments: the call interface and the types.
pub mod Hex
pub mod Keys
pub mod Collision
pub mod Numbered
pub mod Reuse
pub mod Identity
pub mod Pushes
pub mod Cache
pub mod Calls
pub mod Runs
use js_ffi_cross.Base.{
  ℕ, zero, suc, ◌+◌, ◌*◌, ◌/◌, ◌%◌, ℤ, pos, negsuc, ltb, ◌==◌, if◌then◌else◌, Bool, true, false,
  not, Option, none, some, List, [], ◌∷◌, ◌++◌, map, length,
}
use js_ffi_cross.Base.Result.{Result, ok, err, throw_if, ◌>>=◌, ◌>>◌, no_ffi_type_name}
use js_ffi_cross.Word.{to_uint32, signed32}
use js_ffi_cross.Text.{Text, text_eq}
use js_ffi_cross.CType.{CType}
use js_ffi_cross.CType.Coerce.{Types, typed}
use js_ffi_cross.FfiType.{FfiType, builtin, struct_type, ffi_type_of}
use js_ffi_cross.Cif.{Native, Cif, cif_var}

pub record TypeObject : Type 0 where
  pub identity : ℕ
  pub type : CType

unfoldable pub hex_digit : ℕ → ℕ
hex_digit d = if ltb d 10 then b'0' + d else 87 + d

-- The hexadecimal digits of a number, in front of a text; eight serve 32 bits.
unfoldable pub to_hex : ℕ → ℕ → Text → Text
unfolding hex_digit
to_hex zero n rest = rest
to_hex (suc fuel) n rest =
    let more = to_hex fuel (n / 16) (hex_digit (n % 16) ∷ rest) in
    if ltb n 16 then hex_digit n ∷ rest else more

-- `x.toString(16)` of a 32-bit integer.
unfoldable pub to_string_16 : ℤ → Text
unfolding to_hex
to_string_16 (pos n) = to_hex 8 n []
to_string_16 (negsuc n) = b'-' ∷ to_hex 8 (suc n) []

-- `((counter * 0x10000) | 0).toString(16)`
unfoldable pub id_text : ℕ → Text
unfolding to_string_16
id_text counter = to_string_16 (signed32 (to_uint32 (pos (counter * 0x10000))))

-- The counter, and the `_ffiId` of each type object that has one, by its identity.
pub record Ids : Type 0 where
  pub counter : ℕ
  pub texts : List (ℕ × Text)

unfoldable pub own_id : ℕ → List (ℕ × Text) → Option Text
own_id identity [] = none
own_id identity ((key, id) ∷ texts) = if key == identity then some id else own_id identity texts

abbrev pub id_or_new : ℕ → Ids → Option Text → Text × Ids
id_or_new identity ids (some id) = (id, ids)
id_or_new identity ids none =
    let id = id_text ids.counter in
    (id, record { counter = ids.counter + 1; texts = (identity, id) ∷ ids.texts })

unfoldable pub get_id : TypeObject → Ids → Text × Ids
unfolding own_id id_text
get_id type ids = id_or_new type.identity ids (own_id type.identity ids.texts)

-- `types.map(getId)`
unfoldable pub get_ids : List TypeObject → Ids → List Text × Ids
unfolding get_id
get_ids [] ids = ([], ids)
get_ids (type ∷ types) ids =
    let (id, one) = get_id type ids in let (rest, all) = get_ids types one in (id ∷ rest, all)

-- `texts.join('')`
unfoldable pub join : List Text → Text
join [] = []
join (text ∷ texts) = text ++ join texts

-- What `_ForeignFunction` is given.
pub record Function : Type 0 where
  pub cif : Cif
  pub result : TypeObject
  pub args : List TypeObject

-- The closure: `returnType` as it was passed, the property of the same name, and the cache.
pub record VariadicForeignFunction : Type 0 where
  pub return_type : TypeObject
  pub current_type : TypeObject
  pub fixed : List TypeObject
  pub fixed_key : List Text
  pub abi : Option ℕ
  pub cache : List (Text × Function)

-- `cache[key]`
unfoldable pub find_function : Text → List (Text × Function) → Option Function
find_function key [] = none
find_function key ((k, f) ∷ cache) = if text_eq k key then some f else find_function key cache

unfoldable pub variadic_foreign_function :
    TypeObject → List TypeObject → Option ℕ → Ids → VariadicForeignFunction × Ids
unfolding get_ids
variadic_foreign_function return_type fixed abi ids =
    let (fixed_key, numbered) = get_ids fixed ids in
    (
      record {
        return_type = return_type;
        current_type = return_type;
        fixed = fixed;
        fixed_key = fixed_key;
        abi = abi;
        cache = [];
      },
      numbered,
    )

-- `ffi_type.name`: the native module sets it on its own types.
abbrev pub has_name : FfiType → Bool
has_name (builtin ffi_type) = true
has_name (struct_type size elements) = false

module _ (native : Native) (types : Types) where
  -- The loop over the arguments: what it pushes to `key`, and the ids behind it.
  unfoldable pub push_args : List TypeObject → Ids → Result (List Text × Ids)
  unfolding ffi_type_of get_id
  push_args [] ids = ok ([], ids)
  push_args (arg ∷ args) ids = do
    ffi_type ← ffi_type_of native.ffi_types native.platform arg.type
    throw_if (not (has_name ffi_type)) no_ffi_type_name
    let (id, one) = get_id arg ids
    rest ← push_args args one
    ok (id ∷ rest.0, rest.1)

  -- A cache miss: the function is made and stored under the key.
  unfoldable pub make_function :
      List TypeObject → Text → VariadicForeignFunction → Result (Function × VariadicForeignFunction)
  unfolding cif_var
  make_function args key v = do
    made ←
        cif_var native types (some (typed v.return_type.type))
          (some (map (λ t. typed t.type) (v.fixed ++ args))) (length v.fixed) v.abi
    let f : Function = record { cif = made; result = v.current_type; args = v.fixed ++ args }
    ok (f, record v { cache = (key, f) ∷ v.cache })

  abbrev pub hit_or_make :
      List TypeObject
      → Text
      → VariadicForeignFunction
      → Option Function
      → Result (Function × VariadicForeignFunction)
  hit_or_make args key v (some f) = ok (f, v)
  hit_or_make args key v none = make_function args key v

  -- `variadic_function_generator`
  unfoldable pub variadic_function_generator :
      List TypeObject
      → VariadicForeignFunction
      → Ids
      → Result (Function × VariadicForeignFunction × Ids)
  unfolding push_args get_id join find_function make_function
  variadic_function_generator args v ids = do
    pushed ← push_args args ids
    let (rtn_name, named) = get_id v.current_type pushed.1
    let key = rtn_name ++ join (v.fixed_key ++ pushed.0)
    found ← hit_or_make args key v (find_function key v.cache)
    ok (found.0, found.1, named)
