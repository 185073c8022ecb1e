-- ===== src/Capture.antt =====
-- src/ambient_recorder/audio/engine.py: the capture engine. Writer is the lane of
-- one writer thread, Engine the sessions around the two lanes.
pub mod Writer
pub mod Conserved
pub mod Lane
pub mod Kept
pub mod Engine
mod Examples
