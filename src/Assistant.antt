-- ===== src/Assistant.antt =====
-- src/ambient_recorder/assistant/: answers and summaries of a transcript. Markers has the citation
-- markers [n], Grounding the check of an answer, Prompts the prompts, Windows the parts of a meeting,
-- Sections the reading of what the model writes, Checked a call of the model, Summary the pipeline.
pub mod Markers
pub mod Grounding
pub mod Prompts
pub mod Windows
pub mod Sections
pub mod Checked
pub mod Summary
pub mod Rows
pub mod Store
pub mod Worker
mod Examples
mod Asked
mod Queued
