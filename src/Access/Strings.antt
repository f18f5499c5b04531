-- ===== src/Access/Strings.antt =====
-- `allocCString` and `readCString` of lib/ref/ref.js, and the `get` and `set` of its type CString.
use js_ffi_cross.Base.{
  ℕ, ◌+◌, ◌-◌, ◌*◌, ◌^◌, ◌≤◌, ◌<◌, ◌≡◌, ◌≢◌, sym, ap, ◌∙◌, pos, none, List, ◌∷◌, length, ◌⊎◌, arith,
  false, true, ltb, if◌then◌else◌,
}
use js_ffi_cross.Base.Result.{ok}
use js_ffi_cross.Memory.{Memory, Buffer, poke}
use js_ffi_cross.Text.{Text}
use js_ffi_cross.Scalar.{null}
use js_ffi_cross.Value.{Value, scalar, text, reference}
use js_ffi_cross.World.{
  World, Host, Action, pure, then_run, within, pointer_size, load_pointer, store_pointer,
  buffer_alloc_unsafe,
}
use js_ffi_cross.Pointers.{addresses, until_zeros, wrap_pointer, write_pointer, is_null}
use js_ffi_cross.Pointers.Words.{
  IsMapped, load-store_pointer, displaced_lt, write_pointer_lem, read_pointer_lem, is_null-mapped,
}
use js_ffi_cross.Codec.Positional.{store_outside}
use js_ffi_cross.Access.{
  put_bytes, read_c_string, write_c_string, alloc_c_string, get_c_string, set_c_string,
}
use js_ffi_cross.Access.Bytes.{
  Holds, HasNoNul, Holds-cong, Holds-put_bytes, put_bytes_outside, bytes_at-Holds, scan_zeros-Holds,
}

-- A text whose UTF-8 bytes have no NUL among them, fill a space of their number, and decode to it.
pub record IsEncoded (host : Host) (string : Text) : Type 0 where
  pub no_nul : HasNoNul (host.encode string)
  pub written : host.encode_within (length (host.encode string)) string ≡ host.encode string
  pub decoded : host.decode (host.encode string) ≡ string

module _ (host : Host) (string : Text) (encoded : IsEncoded host string) where
  abbrev bytes : List ℕ
  bytes = host.encode string

  abbrev count : ℕ
  count = length bytes

  -- The memory with the string at `a`.
  abbrev with_string : ℕ → Memory → Memory
  with_string a m = poke (put_bytes m a bytes) (a + count) 0

  write_c_string_lem :
      (a room : ℕ) (w : World)
      → write_c_string host (record { address = a; length = count + 1; room = room }) string 0 w
        ≡ (ok tt, record w { memory = with_string a w.memory })
  unfolding write_c_string
  write_c_string_lem a room w =
      let space : count + 1 - 0 - 1 ≡ count = omega arith in
      rw (space, encoded.written) (ground arith)

  pub alloc_c_string_lem :
      (w : World)
      → let a = host.place w.allocated (count + 1) in
        alloc_c_string host (text string) w ≡ (
          ok (record { address = a; length = count + 1; room = count + 1 }),
          record { memory = with_string a w.memory; allocated = (a, count + 1) ∷ w.allocated },
        )
  unfolding alloc_c_string buffer_alloc_unsafe
  alloc_c_string_lem w =
      let a = host.place w.allocated (count + 1) in
      rw (write_c_string_lem a (count + 1) (record w { allocated = (a, count + 1) ∷ w.allocated }))

  pub read_c_string_lem :
      (a length room : ℕ) (w : World)
      → IsMapped host a (count + 1)
      → count ≤ host.room a count
      → Holds w.memory a bytes
      → w.memory (a + count) ≡ 0
      → read_c_string host (record { address = a; length = length; room = room }) (pos 0) w
        ≡ (ok (text string), w)
  unfolding read_c_string until_zeros wrap_pointer
  read_c_string_lem a length room w (present, fits) roomy held ended =
      let same : a + 0 ≡ a = omega arith in
      let scanned =
        scan_zeros-Holds host w.memory (addresses host) a (addresses host) 0 bytes (rw same held)
          encoded.no_nul (rw same ended) (omega arith) (omega arith) in
      let inside : ltb (0 + count) (addresses host) ≡ true = ground arith in
      rw (displaced_lt host a 0 (omega arith), same, scanned, inside)
        (ground (arith, bytes_at-Holds w.memory a bytes held, encoded.decoded))

  module _ (buf : Buffer) (o : ℕ) (w : World) where
    abbrev slot : ℕ
    slot = buf.address + o

    abbrev fresh : ℕ
    fresh = host.place w.allocated (count + 1)

    -- The worlds after the string is placed, and after its address is.
    placed : World
    placed = record {
      memory = with_string fresh w.memory;
      allocated = (fresh, count + 1) ∷ w.allocated;
    }

    pointing : World
    unfolding placed
    pointing = store_pointer host slot fresh placed

    set_returns :
        o < 2 ^ 32
        → slot ≢ 0
        → slot < 2 ^ (8 * pointer_size host)
        → set_c_string host buf (text string) (pos o) w ≡ (ok tt, pointing)
    unfolding set_c_string placed pointing
    set_returns small present fits =
        ap (λ r. then_run r (λ pointed. write_pointer host buf (reference pointed none) (pos o)))
          (alloc_c_string_lem w)
        ∙ write_pointer_lem host buf
            (record { address = fresh; length = count + 1; room = count + 1 }) none o placed small
            present fits

    placed_ends : placed.memory (fresh + count) ≡ 0
    unfolding placed
    placed_ends = ground arith

    placed_Holds : Holds placed.memory fresh bytes
    unfolding placed
    placed_Holds =
        Holds-cong (put_bytes w.memory fresh bytes) (with_string fresh w.memory) fresh bytes
          (λ q low high. ground arith) (Holds-put_bytes w.memory fresh bytes)

    pointing_frame :
        (q : ℕ) → within slot (pointer_size host) q ≡ false → pointing.memory q ≡ placed.memory q
    unfolding pointing
    pointing_frame q outside =
        store_outside host.endian (pointer_size host) placed.memory slot fresh q outside

    placed_frame : (q : ℕ) → within fresh (count + 1) q ≡ false → placed.memory q ≡ w.memory q
    unfolding placed
    placed_frame q outside = ground (arith, put_bytes_outside w.memory fresh bytes q)

    loads_fresh :
        fresh < 2 ^ (8 * pointer_size host) → load_pointer host pointing.memory slot ≡ fresh
    unfolding pointing
    loads_fresh fits = load-store_pointer host slot fresh placed fits

    -- What `get` does with the pointer that it read.
    abbrev read_or_null : Buffer → Action Value
    read_or_null pointed =
        if is_null host pointed then pure (scalar null) else read_c_string host pointed (pos 0)

    get_returns :
        IsMapped host slot (pointer_size host)
        → IsMapped host fresh (count + 1)
        → (slot + pointer_size host ≤ fresh) ⊎ (fresh + (count + 1) ≤ slot)
        → ((n : ℕ) → n ≤ host.room fresh n)
        → get_c_string host buf (pos o) pointing ≡ (ok (text string), pointing)
    unfolding get_c_string is_null
    get_returns (present, fits) fresh_mapped apart roomy =
        let kept : (q : ℕ)
            → fresh ≤ q
            → q < fresh + (count + 1)
            → placed.memory q ≡ pointing.memory q =
          λ q low high. sym (pointing_frame q (ground arith)) in
        let held =
          Holds-cong placed.memory pointing.memory fresh bytes
            (λ q low high. kept q low (omega arith)) placed_Holds in
        let ended : pointing.memory (fresh + count) ≡ 0 =
          sym (kept (fresh + count) (omega arith) (omega arith)) ∙ placed_ends in
        let view : Buffer = record { address = fresh; length = 0; room = host.room fresh 0 } in
        ap (λ r. then_run r read_or_null)
          (read_pointer_lem host buf o 0 fresh pointing (present, omega arith)
            (loads_fresh (omega arith)) fresh_mapped.0 (roomy 0))
        ∙ ap (λ b. (if b then pure (scalar null) else read_c_string host view (pos 0)) pointing)
            (is_null-mapped host view (fresh_mapped.0, omega arith))
        ∙ read_c_string_lem fresh 0 (host.room fresh 0) pointing fresh_mapped (roomy count) held
            ended

    -- A text set as a CString is read back by the type's getter, and memory changes at most in the
    -- pointer's own bytes and in the freshly allocated ones of the string. The text's UTF-8 bytes
    -- have no NUL among them, are all written into a space of their number and decode to the text.
    -- Both places are mapped (not NULL, and inside the addresses that a pointer can hold) and do not
    -- overlap, the offset is below 2^32, and the native module makes an ArrayBuffer of any length
    -- over the string's address.
    pub get_c_string-set_c_string :
        o < 2 ^ 32
        → IsMapped host slot (pointer_size host)
        → IsMapped host fresh (count + 1)
        → (slot + pointer_size host ≤ fresh) ⊎ (fresh + (count + 1) ≤ slot)
        → ((n : ℕ) → n ≤ host.room fresh n)
        → (w' : World) × (set_c_string host buf (text string) (pos o) w ≡ (ok tt, w'))
          × (get_c_string host buf (pos o) w' ≡ (ok (text string), w'))
          × ((q : ℕ)
              → within slot (pointer_size host) q ≡ false
              → within fresh (count + 1) q ≡ false
              → w'.memory q ≡ w.memory q)
    get_c_string-set_c_string small (present, fits) fresh_mapped apart roomy = (
      pointing,
      set_returns small present (omega arith),
      get_returns (present, fits) fresh_mapped apart roomy,
      λ q out_slot out_fresh. pointing_frame q out_slot ∙ placed_frame q out_fresh,
    )
