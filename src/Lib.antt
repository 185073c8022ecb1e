-- ===== src/Lib.antt =====
-- A verification library of the ambient recorder: a local recorder of meetings that captures a
-- microphone and the system's output, transcribes both, and streams the transcript to clients.
--
-- The parts, the files that model them, and how the models correspond to the code (all paths under
-- src/ambient_recorder/ of the repository):
--
-- - Base: shared names, lists, rows with keys and stable sorting, and texts as lists of code points.
--   Models has the enumerations of models/session.py and models/transcript.py that every part uses.
-- - Attribution (transcription/attribution.py): Segment has the records, Energy the rolling window of
--   loudness (`EnergyBuffer`), Twin the text tests (`_tokens`, `_overlap_ratio`, `_trim_twin_edge`,
--   `find_twin`), Decide the decision about each candidate and `attribute`.
-- - Transcripts (storage/transcripts.py): Rows has the tables, Store each operation of
--   `SqliteTranscriptStore`, Reconcile the startup's `reconcile_transcription`.
-- - Stream (transcription/stream.py): subscriptions, `publish` and `close`.
-- - Worker (transcription/worker.py): State has the records and the parameter `Speech`, Chunk the path
--   of one chunk (`_transcribe_chunk`, `_attribute_and_emit`), Live the life of a live session
--   (`_begin_live` to `_finalise_live`), OnDemand the on-demand job, Loop the queue and `_run`.
-- - Metadata (storage/metadata.py): Rows has the tables of sessions, tracks, chunks and events, Store
--   each operation of `SqliteMetadataStore`, Reconcile the startup's `reconcile_interrupted`.
-- - Capture (audio/engine.py): Writer has the lane of one writer thread (`_SourceWorker`), from the
--   frames to the stored chunks; Engine the sessions of `CaptureEngine`: State its state, Start, End and
--   Machine what starts and ends a session, Actives the gaps and losses of a source, Broken a full disk,
--   and the relation Step of what clients, devices, threads and the disk may do next.
-- - Retrieval (assistant/retrieval.py): `select_excerpts`, which packs excerpts into a budget.
-- - Assistant (assistant/): Markers has the citation markers `[n]`, Grounding `validate_citations`
--   (grounding.py), Prompts the prompts (prompts.py); of summarize.py, Windows has `windows` and the
--   division by budget, Sections `_parse_sections`, `_bullet_citations` and `_parse_action`, Checked
--   `_call_checked`, Summary `summarize`. Rows and Store have the tables and operations of
--   storage/assistant.py with its `reconcile_assistant`, Worker the queue and the thread of worker.py:
--   State its requests, Ask `_run_ask`, Loop `_run_summary` and `_run`; Kept is about any predicate that
--   no write of a step breaks, and Sound about every run of requests, notices and rounds. The heap of
--   items is a list in the order of the pushes, of which a round takes the least item.
-- - Follow (api/ws.py): `transcript_stream`, the handler that replays the stored segments and then
--   follows its queue; Answer has `answer_stream`, which follows the answer to a question.
--
-- How the parts interact: the capture engine starts and ends sessions in the metadata store and
-- hands finished chunks to the transcription worker; that worker gives the candidates of each track
-- to `attribute`, appends what is emitted to the store, and publishes it; a client subscribes, reads
-- the store from its cursor, and drops from its queue what it has read. The assistant reads the
-- segments of the transcript store, asks the model, checks the citations of what it says, and keeps
-- the answer or the summary in its own store.
--
-- What stands for what. Times of the audio are counted in samples at 16 kHz (one second is 16000),
-- in which chunk boundaries and the constants of the code are whole numbers; rounding of floats is
-- not modelled. Identifiers are numbers, as ULIDs order like their values; timestamps count
-- microseconds and are arguments. A store is the list of its rows in the order of insertion, and
-- each call, which holds the store's lock and runs in one transaction, is a function on it.
-- Exceptions are values of a result type. Lower case is that of ASCII letters. What numpy and `math`
-- compute of loudness is the parameter `Acoustics` (Attribution.Energy), and the speech engine, the
-- `wave` files and the inventory of chunks are the parameter `Speech` (Worker.State); nothing here
-- relies on laws of theirs. A step of the worker's thread is one function on the state of the
-- worker, between two of which the capture threads may announce a chunk or a stop; an entry of the
-- queue that cannot be handled leaves what was written before the exception. In the capture engine
-- `none` is a call that never returns; `thread.join` is taken to end within its ten seconds, and
-- what a writer thread does with one entry of its queue is one step. Writer threads do not take the
-- engine's lock, so that the record of a device also says whether its thread dies of the entry that
-- it has in hand while the engine waits for a place in its full queue (`dies_in_hand`), and what the
-- system's track hears and writes while the microphone's thread is joined (`meanwhile`). Frames that
-- a device gives before its session is published are steps after that. Devices are the parameter `Device`, the
-- files of chunks `write_chunk`, the serialisation of events is `dumps`, the replies of the language
-- model are `generate` and `answer`, and the similarity of difflib is `ratio`, in millionths;
-- nothing relies on laws of these but where a hypothesis says so. Digits and lower case are those of
-- ASCII. A record of answers that are told (`told`) stands for the streams of the subscribers.
--
-- Loops are recursion on the list that they go through. Some have fuel: the loop that cuts chunks
-- off a buffer has the length of the buffer, and each of its rounds takes at least one byte; the
-- edge of a window moves at most as often as the start of the segment counts samples, where windows have
-- some length, as the configuration demands; the tiers of a
-- reduce have the number of notes, which each tier makes smaller; digits are written with the number
-- as fuel. The loops of the two streams run over the list of what they are given: frames, the
-- publisher's end, timeouts.
--
-- Not modelled: device capture and resampling (audio/wasapi.py, audio/resample.py: device I/O and
-- float arithmetic); the files and inventory of chunks (storage/chunks.py: file I/O, of which the results
-- are parameters of the capture engine and of the transcription worker); readiness and configuration,
-- which choose an engine before the parts run (the worker reads whether one is ready); the speech and
-- language engines (calls of other libraries); the HTTP glue of api/ beside its streams; and the browser
-- client in ui/.
pub mod Base
pub mod Models
pub mod Attribution
pub mod Transcripts
pub mod Stream
pub mod Follow
pub mod Worker
pub mod Metadata
pub mod Retrieval
pub mod Assistant
pub mod Capture
