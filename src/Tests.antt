-- ===== src/Tests.antt =====
-- Runs of the model on small inputs, and the theorems at concrete inputs.
pub mod Runs
pub mod Search
pub mod Print
pub mod Files
pub mod CommandLine
pub mod Threads
pub mod Buffers
pub mod Reads
pub mod Together
pub mod Crews
pub mod Lists
pub mod Programs
pub mod Grep
pub mod Benchmark
