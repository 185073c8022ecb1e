-- ===== src/Attribution.antt =====
-- src/ambient_recorder/transcription/attribution.py: which of two tracks a spoken segment belongs
-- to. The energy window, the text tests, and the decision stand in the children.
pub mod Segment
pub mod Energy
pub mod Twin
pub mod Decide
mod Examples
