-- ===== src/Latency.antt =====
-- client/test_latency.c: the benchmark of remote reads and writes, whose threads meet at a barrier.
pub mod Thread
pub mod System
pub mod Events
pub mod Phases
pub mod Options
pub mod Safety
mod Tests
