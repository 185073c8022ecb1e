-- ===== src/Metadata.antt =====
-- src/ambient_recorder/storage/metadata.py: the sessions of the recorder, their tracks, chunks and
-- events. Rows has the tables, Store the operations, Reconcile what a start does with sessions that a
-- crash has left active.
pub mod Rows
pub mod Store
pub mod Reconcile
mod Examples
