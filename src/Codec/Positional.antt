-- ===== src/Codec/Positional.antt =====
-- An independent description of the codecs: a value of `n` bytes is written in base 256 from its
-- least or its most significant end.
use native.Mathlib.Nat.{pow-suc, one-le-pow, mod-lt}
use js_ffi_cross.Base.{
  ℕ, zero, suc, ◌+◌, ◌*◌, ◌/◌, ◌%◌, ◌^◌, ◌<◌, ◌≤◌, ◌≡◌, refl, false, arith, ltb, leb, ◌&&◌,
}
use js_ffi_cross.Memory.{Memory, poke}
use js_ffi_cross.Accessors.Endian.{Endian, le, be}

-- The value of the `n` bytes from address `a`.
unfoldable pub load : Endian → ℕ → Memory → ℕ → ℕ
load e zero m a = 0
load le (suc n) m a = m a + 256 * load le n m (a + 1)
load be (suc n) m a = m a * 256 ^ n + load be n m (a + 1)

-- The memory after the `n` low digits of `w` are written from address `a`.
unfoldable pub store : Endian → ℕ → Memory → ℕ → ℕ → Memory
store e zero m a w = m
store le (suc n) m a w = poke (store le n m (a + 1) (w / 256)) a (w % 256)
store be (suc n) m a w = poke (store be n m (a + 1) (w % 256 ^ n)) a (w / 256 ^ n % 256)

-- A write touches its own bytes alone.
pub store_outside :
    (e : Endian) (n : ℕ) (m : Memory) (a w q : ℕ)
    → ((leb a q && ltb q (a + n)) ≡ false)
    → store e n m a w q ≡ m q
unfolding store
store_outside e zero m a w q h = refl
store_outside le (suc n) m a w q h = ground (arith, store_outside le n m (a + 1) (w / 256) q)
store_outside be (suc n) m a w q h = ground (arith, store_outside be n m (a + 1) (w % 256 ^ n) q)

-- Reading looks at its own bytes alone.
load_cong :
    (e : Endian) (n : ℕ) (m m' : Memory) (a : ℕ)
    → ((q : ℕ) → a ≤ q → m q ≡ m' q)
    → load e n m a ≡ load e n m' a
unfolding load
load_cong e zero m m' a h = refl
load_cong le (suc n) m m' a h =
    omega (arith, h a (omega arith), load_cong le n m m' (a + 1) (λ q g. h q (omega arith)))
load_cong be (suc n) m m' a h =
    rw (h a (omega arith), load_cong be n m m' (a + 1) (λ q g. h q (omega arith)))

poke_self : (m : Memory) (a v : ℕ) → poke m a v a ≡ v
poke_self m a v = ground arith

load-poke_below :
    (e : Endian) (n : ℕ) (m : Memory) (a v : ℕ) → load e n (poke m a v) (a + 1) ≡ load e n m (a + 1)
load-poke_below e n m a v = load_cong e n (poke m a v) m (a + 1) (λ q h. ground arith)

-- The two parts of a number below `p * 256`.
high_digit : (w p : ℕ) → 0 < p → w < p * 256 → w / p % 256 * p + w % p ≡ w
high_digit w p h k =
    let small : w / p < 256 = grind arith in
    let same : w / p % 256 ≡ w / p = omega arith in rw same (grind arith)

-- The digits of a number, put together again, are the number.
pub load-store :
    (e : Endian) (n : ℕ) (m : Memory) (a w : ℕ) → w < 256 ^ n → load e n (store e n m a w) a ≡ w
unfolding load store
load-store e zero m a w h = omega arith
load-store le (suc n) m a w h = omega (
  arith,
  poke_self (store le n m (a + 1) (w / 256)) a (w % 256),
  load-poke_below le n (store le n m (a + 1) (w / 256)) a (w % 256),
  load-store le n m (a + 1) (w / 256) (omega (arith, pow-suc 256 n)),
)
load-store be (suc n) m a w h =
    let positive : 0 < 256 ^ n = one-le-pow n 256 (omega arith) in
    let rest = store be n m (a + 1) (w % 256 ^ n) in
    rw
      (
        poke_self rest a (w / 256 ^ n % 256),
        load-poke_below be n rest a (w / 256 ^ n % 256),
        load-store be n m (a + 1) (w % 256 ^ n) (mod-lt w positive),
      )
      (high_digit w (256 ^ n) positive (omega (arith, pow-suc 256 n)))

-- Reading is the same in memories that agree on the bytes read.
pub load_within :
    (e : Endian) (n : ℕ) (m m' : Memory) (a : ℕ)
    → ((q : ℕ) → a ≤ q → q < a + n → m q ≡ m' q)
    → load e n m a ≡ load e n m' a
unfolding load
load_within e zero m m' a h = refl
load_within le (suc n) m m' a h = omega (
  arith,
  h a (omega arith) (omega arith),
  load_within le n m m' (a + 1) (λ q low high. h q (omega arith) (omega arith)),
)
load_within be (suc n) m m' a h = rw (
  h a (omega arith) (omega arith),
  load_within be n m m' (a + 1) (λ q low high. h q (omega arith) (omega arith)),
)

one_on :
    (m m' : Memory) (a a' i : ℕ) → m (a + suc i) ≡ m' (a' + suc i) → m (a + 1 + i) ≡ m' (a' + 1 + i)
one_on m m' a a' i h =
    let left : a + 1 + i ≡ a + suc i = omega arith in
    let right : a' + 1 + i ≡ a' + suc i = omega arith in rw (left, right) h

at_start : (m m' : Memory) (a a' : ℕ) → m (a + 0) ≡ m' (a' + 0) → m a ≡ m' a'
at_start m m' a a' h =
    let left : a + 0 ≡ a = omega arith in
    let right : a' + 0 ≡ a' = omega arith in rw (left, right) at h

-- So it is at another address where the same bytes stand.
pub load_moved :
    (e : Endian) (n : ℕ) (m m' : Memory) (a a' : ℕ)
    → ((i : ℕ) → i < n → m (a + i) ≡ m' (a' + i))
    → load e n m a ≡ load e n m' a'
unfolding load
load_moved e zero m m' a a' h = refl
load_moved le (suc n) m m' a a' h = omega (
  arith,
  at_start m m' a a' (h 0 (omega arith)),
  load_moved le n m m' (a + 1) (a' + 1) (λ i low. one_on m m' a a' i (h (suc i) (omega arith))),
)
load_moved be (suc n) m m' a a' h =
    let first : m a ≡ m' a' = at_start m m' a a' (h 0 (omega arith)) in
    rw (
      first,
      load_moved be n m m' (a + 1) (a' + 1) (λ i low. one_on m m' a a' i (h (suc i) (omega arith))),
    )
