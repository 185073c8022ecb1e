-- ===== src/Transcripts.antt =====
-- src/ambient_recorder/storage/transcripts.py: the transcript tables and their operations, and the
-- reconciliation at startup. The rows are in Rows, the operations in Store.
pub mod Rows
pub mod Store
pub mod Reconcile
mod Examples
