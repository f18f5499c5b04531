-- ===== src/Accessors.antt =====
-- lib/ref/ref.js: the getters and setters that `createCType` gives to an integer type, chosen from
-- the readers and writers of lib/ref/buffer.js by size, signedness and the machine's byte order.
pub mod Endian
pub mod Getters
pub mod Setters
pub mod Positional
pub mod RoundTrip
pub mod Special
