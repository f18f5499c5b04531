-- ===== src/Codec.antt =====
-- lib/ref/buffer.js: the integer readers and writers over a buffer, with their checks. Each takes
-- the memory where the source takes a buffer alone; a writer returns the new memory and the offset
-- behind what it wrote. The offset argument is an integral Number, cut to 32 bits by `>>> 0`.
pub mod Check
pub mod Read
pub mod Write
pub mod Positional
pub mod ReadLaws
pub mod StoreLaws
pub mod StoreWide
pub mod WriteLaws
pub mod Float
pub mod Frame
