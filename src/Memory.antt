-- ===== src/Memory.antt =====
-- Memory as bytes at addresses, and a Node `Buffer` as a view of it. Two buffers over the same
-- addresses share their bytes, as slices and reinterpreted pointers do.
use js_ffi_cross.Base.{ℕ, ◌+◌, ◌%◌, ◌≤◌, ◌<◌, Option, none, some, ltb, ◌==◌, if◌then◌else◌}

abbrev pub Memory : Type 0
Memory = ℕ → ℕ

-- `room` counts the bytes from the buffer's first to the end of its ArrayBuffer: a DataView on
-- `buf.buffer` reaches them.
pub record Buffer : Type 0 where
  pub address : ℕ
  pub length : ℕ
  pub room : ℕ

-- A buffer lies inside its ArrayBuffer.
abbrev pub IsView : Buffer → Type 0
IsView buf = buf.length ≤ buf.room

-- Every byte is one.
abbrev pub IsBytes : Memory → Type 0
IsBytes m = (a : ℕ) → m a < 256

abbrev pub poke : Memory → ℕ → ℕ → Memory
poke m a v q = if a == q then v else m q

-- `buf[i]`; `none` is `undefined`.
abbrev pub element : Memory → Buffer → ℕ → Option ℕ
element m buf i = if ltb i buf.length then some (m (buf.address + i)) else none

-- `undefined` is 0 to a bitwise operator.
abbrev pub bits : Option ℕ → ℕ
bits none = 0
bits (some x) = x

-- `buf[i] = v`: the element keeps the low byte, and a write out of bounds is ignored.
abbrev pub set_element : Memory → Buffer → ℕ → ℕ → Memory
set_element m buf i v = if ltb i buf.length then poke m (buf.address + i) (v % 256) else m
