-- ===== src/Threads.antt =====
-- The threads inside the calls of router/lib/routing.cpp. Cluster takes such a call for one step; here
-- it is several, between which other threads, other routers and the manager act.
pub mod Worker
pub mod System
pub mod Invariant
pub mod Safety
pub mod Holder
pub mod Release
pub mod Calm
mod Schedule
mod Tests
