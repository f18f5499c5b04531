-- ===== src/Foreign/Arguments.antt =====
-- The whole loop of lib/_foreign_function.js over the arguments, by its rounds.
use js_ffi_cross.Base.{
  ℕ, suc, ◌+◌, ◌*◌, ◌^◌, ◌<◌, ◌≡◌, ◌≢◌, sym, ap, ◌∙◌, true, false, ◌||◌, pos, Bool-cases, inl, inr,
  none, List, ◌∷◌, length, arith,
}
use js_ffi_cross.Base.Result.{ok}
use js_ffi_cross.Memory.{Buffer, IsBytes}
use js_ffi_cross.CType.{CType}
use js_ffi_cross.CType.Coerce.{Types}
use js_ffi_cross.Value.{Value}
use js_ffi_cross.World.{World, Host, then_run, within, pointer_size, load_pointer}
use js_ffi_cross.Codec.Positional.{load_within}
use js_ffi_cross.Pointers.Words.{IsMapped}
use js_ffi_cross.Access.{Composite, get}
use js_ffi_cross.Foreign.{write_arguments, named}
use js_ffi_cross.Foreign.Marshal.{
  taken, bytes, fresh, buffer_at, Marshals, slot, Writes, next_slot, pointing, write_argument_lem,
  pointing_outside, pointing_points, pointing_taken,
}

true_ne_false : true ≡ false → ⊥
true_ne_false h = cc

module _ (host : Host) (composite : Composite) (types : Types) (number : ℕ → ℕ)
    (args_list : Buffer) where
  abbrev word : ℕ
  word = pointer_size host

  -- One round, and what the rounds behind it do, make up the loop from that round on.
  module _ (index : ℕ) (type : CType) (rest : List CType) (val : Value) (vals : List Value)
      (w : World) (marshals : Marshals host composite types type val) (is_bytes : IsBytes w.memory)
      (fits : index * word < 2 ^ 32)
      (present : slot host composite types args_list.address index ≢ 0)
      (mapped : slot host composite types args_list.address index < 2 ^ (8 * word))
      (placed : IsMapped host
        (fresh host composite types w.allocated type)
        (bytes host composite types type))
      (own : (q : ℕ)
        → within (slot host composite types args_list.address index) word q ≡ true
        → taken w.allocated q ≡ true)
      (apart : (q : ℕ)
        → taken w.allocated q ≡ true
        → within (fresh host composite types w.allocated type) (bytes host composite types type) q
          ≡ false)
      (later_own : (q : ℕ)
        → within (slot host composite types args_list.address (index + 1)) (length rest * word) q
          ≡ true
        → taken w.allocated q ≡ true)
      (later : Writes host composite types number args_list
        (index + 1)
        rest
        vals
        (pointing host composite types args_list index type val w marshals is_bytes)) where
    abbrev first : World
    first = pointing host composite types args_list index type val w marshals is_bytes

    abbrev here : ℕ
    here = slot host composite types args_list.address index

    abbrev a : ℕ
    a = fresh host composite types w.allocated type

    abbrev n : ℕ
    n = bytes host composite types type

    returns :
        write_arguments host composite types number args_list index (type ∷ rest) (val ∷ vals) w
        ≡ (ok tt, later.after)
    unfolding write_arguments
    returns =
        ap
          (λ r.
            then_run (named (number index) r)
              (λ done. write_arguments host composite types number args_list (index + 1) rest vals))
          (write_argument_lem host composite types args_list index type val w marshals is_bytes fits
            present mapped)
        ∙ later.returns

    -- What was given out before has no byte of this round's buffer.
    apart_of :
        (start count q : ℕ)
        → (within start count q ≡ true → taken w.allocated q ≡ true)
        → within a n q ≡ true
        → within start count q ≡ false
    apart_of start count q given inside = elim (Bool-cases (within start count q)) [
      | inl clash ↦ absurd (true_ne_false (sym inside ∙ apart q (given clash)))
      | inr outside ↦ outside
    ]

    first_taken :
        (q : ℕ) → (within a n q || taken w.allocated q) ≡ true → taken first.allocated q ≡ true
    first_taken q h =
        pointing_taken host composite types args_list index type val w marshals is_bytes q ∙ h

    -- The later rounds leave this round's slot and buffer alone.
    slot_kept : (q : ℕ) → within here word q ≡ true → later.after.memory q ≡ first.memory q
    slot_kept q inside =
        later.frame q (first_taken q (ground (arith, own q)))
          (ground (arith, next_slot host composite types index))

    buffer_kept : (q : ℕ) → within a n q ≡ true → later.after.memory q ≡ marshals.after w q
    buffer_kept q inside =
        later.frame q (first_taken q (ground arith)) (
          apart_of (slot host composite types args_list.address (index + 1)) (length rest * word) q
            (later_own q) inside)
        ∙ pointing_outside host composite types args_list index type val w marshals is_bytes q
            (apart_of here word q (own q) inside)

    points : load_pointer host later.after.memory here ≡ a
    points =
        load_within host.endian word later.after.memory first.memory here
          (λ q low high. slot_kept q (ground arith))
        ∙ pointing_points host composite types args_list index type val w marshals is_bytes
            (omega arith)

    reads :
        get host composite types
          (buffer_at host composite types (load_pointer host later.after.memory here) type)
          (pos 0)
          none
          later.after
        ≡ (ok val, later.after)
    reads =
        ap
          (λ p.
            get host composite types (buffer_at host composite types p type) (pos 0) none
              later.after)
          points
        ∙ marshals.reads w later.after is_bytes later.is_bytes buffer_kept

    all_kept :
        (q : ℕ)
        → taken w.allocated q ≡ true
        → within here (suc (length rest) * word) q ≡ false
        → later.after.memory q ≡ w.memory q
    all_kept q given outside =
        later.frame q (first_taken q (ground arith)) (
          ground (
            arith,
            next_slot host composite types index,
            next_slot host composite types (length rest),
          ))
        ∙ pointing_outside host composite types args_list index type val w marshals is_bytes q
            (ground (arith, next_slot host composite types (length rest)))
        ∙ marshals.frame w is_bytes q (apart q given)

    pub round : Writes host composite types number args_list index (type ∷ rest) (val ∷ vals) w
    round = record {
      after = later.after;
      returns = returns;
      marshalled = (λ null. placed.0 (sym points ∙ null), reads, later.marshalled);
      is_bytes = later.is_bytes;
      frame = all_kept;
    }
