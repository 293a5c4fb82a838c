-- ===== src/Tools.antt =====
-- src/tools: strings, keys, string sets and pointers.
pub mod Strings
pub mod Compare
pub mod Bits
pub mod Keys
pub mod KeyLcp
pub mod TreeCalculations
