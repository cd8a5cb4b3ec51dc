-- ===== src/Worker.antt =====
-- esp32-embedder/worker/worker.c, the worker: its pool of jobs, the network phase and the pass.
pub mod Types
pub mod Env
pub mod Strict
pub mod Pool
pub mod Arrive
pub mod Rounds
pub mod Handoff
pub mod Visibility
pub mod TopUp
pub mod Pass
pub mod Step
pub mod Status
pub mod Waits
pub mod Outage
pub mod Sound
pub mod Board
