-- ===== src/Bench.antt =====
-- The drivers of sim/testbenches.
pub mod Words
pub mod FifoDriver
pub mod PipelineDriver
pub mod Stress
pub mod Random
pub mod Perf
pub mod PipelineTest
pub mod MatchAction
pub mod Flow
pub mod SchedulerTest
pub mod FifoTest
pub mod Clock
pub mod AxiLite
pub mod RateLimiter
pub mod CrcTest
