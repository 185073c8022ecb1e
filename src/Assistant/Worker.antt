-- ===== src/Assistant/Worker.antt =====
-- assistant/worker.py: `AssistantWorker`. State has its records and the requests, Ask and Loop the
-- steps of its thread, each one function on the state; requests of clients and the watch for idleness
-- come between two steps.
pub mod State
pub mod Ask
pub mod Loop
pub mod Rows
pub mod Settled
pub mod Told
pub mod Kept
pub mod Queue
pub mod Sound
