-- ===== src/Capture/Engine.antt =====
-- `CaptureEngine`: one session at a time, with a lane for each track. State has the records, Start and
-- End the operations, Machine the engine as a step relation and what it implements.
pub mod State
pub mod Start
pub mod End
pub mod Actives
pub mod Lanes
pub mod Alive
pub mod Machine
pub mod Started
pub mod Ended
pub mod Broken
pub mod Refined
pub mod Lively
pub mod Returns
pub mod Reached
mod Sessions
pub mod Atomic
