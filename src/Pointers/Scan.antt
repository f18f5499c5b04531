-- ===== src/Pointers/Scan.antt =====
-- The loop of `ReinterpretBufferUntilZeros` in src/ref-napi.cc: where it ends.
use js_ffi_cross.Base.{
  ℕ, zero, suc, ◌+◌, ◌*◌, ◌≤◌, ◌<◌, ◌≡◌, ◌≢◌, ◌⊎◌, refl, ℤ, pos, true, Bool-cases, inl, inr, arith,
  ltb, ◌==◌, if◌then◌else◌,
}
use js_ffi_cross.Base.Result.{ok}
use js_ffi_cross.Memory.{Memory, Buffer}
use js_ffi_cross.Codec.Positional.{load}
use js_ffi_cross.Word.{to_uint32}
use js_ffi_cross.World.{World, Host}
use js_ffi_cross.Pointers.{
  scan_zeros, addresses, until_zeros, address_for_args, wrap_pointer, is_zeros_size,
  reinterpret_until_zeros,
}

-- `n` bytes from `start` on, in steps of `step`: every word before is inside the limit and not zero,
-- and the word there is zero unless the limit is reached.
pub record EndsAt (host : Host) (limit step : ℕ) (m : Memory) (ptr start n : ℕ) : Type 0 where
  pub rounds : ℕ
  pub distance : n ≡ start + rounds * step
  pub before :
      (j : ℕ)
      → j < rounds
      → (start + j * step < limit) × (load host.endian step m (ptr + (start + j * step)) ≢ 0)
  pub stops : n < limit → load host.endian step m (ptr + n) ≡ 0

module _ (host : Host) (limit step : ℕ) (m : Memory) (ptr : ℕ) (progress : 1 ≤ step) where
  further : (start j : ℕ) → start + step + j * step ≡ start + suc j * step
  further start j = grind arith

  -- A round is put before a scan that starts one step later.
  later_before :
      (start n : ℕ)
      → start < limit
      → load host.endian step m (ptr + start) ≢ 0
      → (rest : EndsAt host limit step m ptr (start + step) n) → (j : ℕ) → j < suc rest.rounds
      → (start + j * step < limit) × (load host.endian step m (ptr + (start + j * step)) ≢ 0)
  later_before start n below here rest zero h =
      let same : start + 0 * step ≡ start = omega arith in rw same (below, here)
  later_before start n below here rest (suc j) h =
      rw (← further start j) (rest.before j (omega arith))

  later :
      (start n : ℕ)
      → start < limit
      → load host.endian step m (ptr + start) ≢ 0
      → EndsAt host limit step m ptr (start + step) n
      → EndsAt host limit step m ptr start n
  later start n below here rest = record {
    rounds = suc rest.rounds;
    distance = grind (arith, rest.distance);
    before = later_before start n below here rest;
    stops = rest.stops;
  }

  pub scan_zeros-EndsAt :
      (fuel start : ℕ)
      → limit ≤ fuel + start
      → EndsAt host limit step m ptr start (scan_zeros host limit fuel step m ptr start)
  unfolding scan_zeros
  scan_zeros-EndsAt zero start enough = record {
    rounds = 0;
    distance = omega arith;
    before = λ j h. absurd (omega arith);
    stops = λ h. absurd (omega arith);
  }
  scan_zeros-EndsAt (suc fuel) start enough = elim (Bool-cases (ltb start limit)) [
    | inr out ↦ rw out (record {
      rounds = 0;
      distance = omega arith;
      before = λ j h. absurd (omega arith);
      stops = λ h. absurd (ground arith);
    })
    | inl below ↦ elim (Bool-cases (load host.endian step m (ptr + start) == 0)) [
      | inl found ↦
          rw (below, found)
            (record {
              rounds = 0;
              distance = omega arith;
              before = λ j h. absurd (omega arith);
              stops = λ h. ground arith;
            })
      | inr more ↦
          rw (below, more)
            (later start _ (ground arith) (λ e. ground arith)
              (scan_zeros-EndsAt fuel (start + step) (omega arith)))
    ]
  ]

is_zeros_size-pos : (size : ℕ) → is_zeros_size size ≡ true → 1 ≤ size
is_zeros_size-pos size h = ground arith

-- A zero byte is not passed.
EndsAt-le :
    (host : Host) (limit : ℕ) (m : Memory) (ptr n k : ℕ)
    → EndsAt host limit 1 m ptr 0 n
    → load host.endian 1 m (ptr + k) ≡ 0
    → n ≤ k
EndsAt-le host limit m ptr n k ends zero_there = elim (Bool-cases (ltb k n)) [
  | inr beyond ↦ ground arith
  | inl inside ↦
      let place : 0 + k * 1 ≡ k = omega arith in
      let here = ends.before k (omega (arith, ends.distance, ltb-lt k n inside)) in
      absurd (here.1 (rw place zero_there))
]
  where
    ltb-lt : (k n : ℕ) → ltb k n ≡ true → k < n
    ltb-lt k n h = ground arith

module _ (host : Host) (buf : Buffer) (size : ℕ) (offset : ℤ) (w : World) where
  abbrev start : ℕ
  start = address_for_args host buf (pos (to_uint32 offset))

  -- Bytes are searched without a limit but the end of memory, wider words below kMaxLength.
  abbrev pub limit_of : ℕ
  limit_of = if size == 1 then addresses host else host.max_length

  -- A size of 1 wants a NUL somewhere in memory.
  abbrev pub IsTerminated : Type 0
  IsTerminated =
      size ≡ 1 → (k : ℕ) × (k < addresses host) × (load host.endian 1 w.memory (start + k) ≡ 0)

  -- The view that the search returns.
  abbrev pub IsFound : Type 0
  IsFound =
      (view : Buffer) × (reinterpret_until_zeros host buf size offset w ≡ (ok view, w))
      × (view.address ≡ start)
      × EndsAt host limit_of size w.memory start 0 view.length
      × ((load host.endian size w.memory (start + view.length) ≡ 0)
          ⊎ ((size ≢ 1) × (host.max_length ≤ view.length)))

  found_string : size ≡ 1 → start ≢ 0 → ((n : ℕ) → n ≤ host.room start n) → IsTerminated → IsFound
  unfolding reinterpret_until_zeros until_zeros wrap_pointer
  found_string one present roomy terminated =
      let n = scan_zeros host (addresses host) (addresses host) 1 w.memory start 0 in
      let ends =
        scan_zeros-EndsAt host (addresses host) 1 w.memory start (omega arith) (addresses host) 0
          (omega arith) in
      let (k, below, nul) = terminated one in
      let inside : n < addresses host =
        omega (arith, below, EndsAt-le host (addresses host) w.memory start n k ends nul) in
      rw one (
        record { address = start; length = n; room = host.room start n },
        ground (arith, inside, roomy n),
        refl,
        ends,
        inl (ends.stops inside),
      )

  -- `reinterpretUntilZeros` with a size of 1, 2, 4 or 8, at an address that is not NULL, returns a
  -- view at that address and changes nothing. Its length is a multiple of the size; no word of that
  -- size before its end is zero. The word at its end is zero; for a size of 2, 4 or 8 only unless the
  -- length has reached kMaxLength, below which each word before it begins. For a size of 1 there is a
  -- NUL somewhere in memory behind the address. The native module's ArrayBuffer has room for any
  -- length.
  pub reinterpret_until_zeros-EndsAt :
      is_zeros_size size ≡ true
      → start ≢ 0
      → ((n : ℕ) → n ≤ host.room start n)
      → IsTerminated
      → IsFound
  unfolding reinterpret_until_zeros until_zeros wrap_pointer
  reinterpret_until_zeros-EndsAt sized present roomy terminated = elim (Bool-cases (size == 1)) [
    | inl one ↦ found_string (ground arith) present roomy terminated
    | inr wide ↦
        let n = scan_zeros host host.max_length host.max_length size w.memory start 0 in
        let ends =
          scan_zeros-EndsAt host host.max_length size w.memory start (is_zeros_size-pos size sized)
            host.max_length 0 (omega arith) in
        (
          record { address = start; length = n; room = host.room start n },
          rw (sized, wide) (ground (arith, roomy n)),
          refl,
          rw wide ends,
          elim (Bool-cases (ltb n host.max_length)) [
            | inl below ↦ inl (ends.stops (ground arith))
            | inr beyond ↦ inr (λ one. ground arith, ground arith)
          ],
        )
  ]
