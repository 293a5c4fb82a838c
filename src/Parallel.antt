-- ===== src/Parallel.antt =====
-- src/parallel and the job queue of src/tools that its sorters run on.
pub mod JobQueue
pub mod SampleSortStep
pub mod SampleSort
pub mod SortStep
