-- ===== src/Sequential.antt =====
-- src/sequential: the sequential string sorters.
pub mod Buckets
pub mod Sorted
pub mod Inssort
pub mod LcpInssort
pub mod Radix
pub mod Classify
pub mod SampleSort
pub mod Trees
pub mod Uncached
pub mod Generic
pub mod TreeCalc
