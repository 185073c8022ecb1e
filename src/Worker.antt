-- ===== src/Worker.antt =====
-- src/ambient_recorder/transcription/worker.py: the transcription worker. The state is in State, the
-- path of one chunk in Chunk, the ends of a session in Live and OnDemand, the thread in Loop.
pub mod State
pub mod Chunk
pub mod Live
pub mod OnDemand
pub mod Loop
mod Examples
mod Jobs
