-- ===== src/Examples.antt =====
-- The theorems at concrete inputs.
mod Machine
pub mod Numbers
pub mod Types
pub mod Calls
pub mod Caching
pub mod Platforms
pub mod Accesses
pub mod Tables
pub mod Loading
pub mod Objects
pub mod Foreigns
pub mod Filling
