-- ===== src/World.antt =====
-- What lib/ reads and changes outside of its own values: the memory, and which of it is taken. A
-- call is an action, and what it wrote before an exception stays written.
use js_ffi_cross.Base.{
  ℕ, ◌+◌, ◌-◌, ◌*◌, ◌%◌, ◌^◌, ℤ, pos, negsuc, Bool, true, false, ◌&&◌, leb, ltb, if◌then◌else◌,
  List, ◌∷◌,
}
use js_ffi_cross.Base.Result.{Error, Result, ok, err}
use js_ffi_cross.Memory.{Memory, Buffer}
use js_ffi_cross.Text.{Text}
use js_ffi_cross.Scalar.{Scalar}
use js_ffi_cross.Value.{Value, Properties}
use js_ffi_cross.CType.{CType, Platform}
use js_ffi_cross.Codec.Positional.{load, store}
use js_ffi_cross.Accessors.Endian.{Endian}

-- `allocated` has the address and the length of each buffer that `Buffer.alloc` made.
pub record World : Type 0 where
  pub memory : Memory
  pub allocated : List (ℕ × ℕ)

-- The machine, Node and the language, as far as they are no part of the program:
-- * `place`: where `Buffer.alloc` puts a buffer of a size;
-- * `room`: how many bytes the ArrayBuffer over an address has that the native module finds or
--   makes for a pointer of a length, which depends on garbage collection;
-- * `to_scalar`: the primitive that the language makes of a value where it wants a Number;
-- * `encode`, `encode_within` and `decode`: UTF-8, `encode_within` with as many whole characters as
--   fit a number of bytes;
-- * `float_of_bits`, `bits_of_float`: what DataView makes of the 4 (`false`) or 8 (`true`) bytes of
--   a float, and of a value;
-- * `read_object`: the object that a reference at an address stands for;
-- * `array_own`, `array_inherited`: what `for (key in a)` enumerates of an array instance that the
--   package array-index gives it before its `buffer`, and what it enumerates behind it, `refOverride`
--   and `slice` of its prototype included, each with its value;
-- * `max_length`: `kMaxLength`.
pub record Host : Type 0 where
  pub platform : Platform
  pub endian : Endian
  pub place : List (ℕ × ℕ) → ℕ → ℕ
  pub room : ℕ → ℕ → ℕ
  pub to_scalar : Value → Scalar
  pub encode : Text → List ℕ
  pub encode_within : ℕ → Text → List ℕ
  pub decode : List ℕ → Text
  pub float_of_bits : Bool → ℕ → Value
  pub bits_of_float : Bool → Value → Result ℕ
  pub read_object : Memory → ℕ → Result Value
  pub array_own : CType → Buffer → Properties
  pub array_inherited : CType → Buffer → Properties
  pub max_length : ℕ

abbrev pub Action {ℓ} : Type ℓ → Type ℓ
Action A = World → Result A × World

module _ {ℓ} {A : Type ℓ} where
  abbrev pub pure : A → Action A
  pure a w = (ok a, w)

  abbrev pub lift : Result A → Action A
  lift result w = (result, w)

  abbrev pub raise : Error → Action A
  raise e w = (err e, w)

module _ {ℓ κ} {A : Type ℓ} {B : Type κ} where
  abbrev pub then_run : Result A × World → (A → Action B) → Result B × World
  then_run (ok a, w) next = next a w
  then_run (err e, w) next = (err e, w)

infixl 5 ◌>>=◌ ◌>>◌
abbrev pub ◌>>=◌ {ℓ κ} : {A : Type ℓ} {B : Type κ} → Action A → (A → Action B) → Action B
◌>>=◌ action next w = then_run (action w) next

abbrev pub ◌>>◌ {κ} : {B : Type κ} → Action (Unit {0}) → Action B → Action B
◌>>◌ action rest w = then_run (action w) (λ done. rest)

abbrev pub raise_if : Bool → Error → Action (Unit {0})
raise_if true e w = (err e, w)
raise_if false e w = (ok tt, w)

-- A function of the memory alone, and one that changes it.
module _ {ℓ} {A : Type ℓ} where
  abbrev pub reading : (Memory → Result A) → Action A
  reading f w = (f w.memory, w)

abbrev pub stored : Result (Memory × ℕ) → Action (Unit {0})
stored (ok (m, next)) w = (ok tt, record w { memory = m })
stored (err e) w = (err e, w)

abbrev pub writing : (Memory → Result (Memory × ℕ)) → Action (Unit {0})
writing f w = stored (f w.memory) w

-- `q` is one of the `n` bytes from address `a`.
abbrev pub within : ℕ → ℕ → ℕ → Bool
within a n q = leb a q && ltb q (a + n)

-- The address that C makes of a pointer and an offset.
abbrev pub displaced : ℕ → ℕ → ℤ → ℕ
displaced bytes address (pos n) = (address + n) % 2 ^ (8 * bytes)
displaced bytes address (negsuc n) =
    (address + (2 ^ (8 * bytes) - 1 - n % 2 ^ (8 * bytes))) % 2 ^ (8 * bytes)

module _ (host : Host) where
  abbrev pub pointer_size : ℕ
  pointer_size = host.platform.sizeof_pointer

  -- `Buffer.alloc(size)`: zeros.
  unfoldable pub buffer_alloc : ℕ → Action Buffer
  buffer_alloc size w =
      let address = host.place w.allocated size in
      (
        ok (record { address = address; length = size; room = size }),
        record {
          memory = λ q. if within address size q then 0 else w.memory q;
          allocated = (address, size) ∷ w.allocated;
        },
      )

  -- `Buffer.allocUnsafe(size)`: whatever stood there.
  unfoldable pub buffer_alloc_unsafe : ℕ → Action Buffer
  buffer_alloc_unsafe size w =
      let address = host.place w.allocated size in
      (
        ok (record { address = address; length = size; room = size }),
        record w { allocated = (address, size) ∷ w.allocated },
      )

  -- The word of a pointer's size at an address, as the machine loads and stores it.
  abbrev pub load_pointer : Memory → ℕ → ℕ
  load_pointer m a = load host.endian pointer_size m a

  abbrev pub store_pointer : ℕ → ℕ → World → World
  store_pointer a pointer w = record w {
    memory = store host.endian pointer_size w.memory a pointer;
  }
