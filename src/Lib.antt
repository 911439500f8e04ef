-- ===== src/Lib.antt =====
-- Chronicler records, imports, transcribes, cleans and summarises conversations. A service queues tasks
-- in a table of the archive database; workers claim them one at a time, run the handler of their type
-- and write the outcome; handlers read and write a project's own database. This library models that
-- core (chronicler/core) and proves what its parts promise.
--
-- Base         shared names: Boolean tests, equality, lists, tables of rows with a key
-- Text         Python's `str` as a list of code points, with strip, split, join and decimal numbers
-- Models       chronicler/core/models.py: Task, TranscriptLine, SourceState
-- Formatting   chronicler/core/formatting.py: one function for each of the module
-- Regex        chronicler/core/processing/regex_guard.py over the tree of Python's pattern parser;
--              Spec says what is unsafe, Overlap compares the leading sets with it, Sound and Complete
--              the walk, and Guard concludes
-- Queue        chronicler/core/sqlite/task_repository.py: the table is the list of its rows, one
--              function for each method. Claim is about `claim_next`, Retry about the life of a row,
--              Recovery about a restart, Schedule and Race about workers whose statements interleave
-- Worker       chronicler/core/workers.py with the event of chronicler/core/task_events.py: the state
--              is the table, the number of runs and the events published; Change is about the table,
--              Progress about one run, Drain about the loop, Startup about a restart, and Outcomes about a locked database
-- Cleaning     chronicler/core/processing/cleaners.py: the rules as a data type, `apply` for their
--              `apply` methods, `clean` for `TranscriptCleaner.clean`
-- Summary      chronicler/core/processing/summarizer.py: a run gives the requests it made, and the draft
-- Sources      chronicler/core/sqlite/audio_source_repository.py and the properties of `AudioSource` in
--              chronicler/core/models.py
-- Import       chronicler/core/processing/importers.py
-- Service      chronicler/core/services/task_service.py and the reading of its payloads in
--              chronicler/core/processing/handlers/transcribing.py
-- Session      a database session as a computation that raises or goes on, and the frame of try, commit,
--              rollback and raise
-- Project      chronicler/core/sqlite/transcript_repository.py over the tables of
--              chronicler/core/project_database.py
-- Handlers     the transactions of the handlers in chronicler/core/processing/handlers: Speakers about
--              `attach_speakers`, Tracks about a transcription, Append about an import,
--              Snapshots about the copies before a clean, and
--              Normalizing about the levelled copies, with `normalized_path_for` of
--              chronicler/core/processing/normalizer.py
-- KnownSpeakers  chronicler/core/sqlite/known_speaker_repository.py
-- Transcripts  chronicler/core/services/transcript_service.py: Editing about corrections, Listing about
--              the tracks on disk
-- Search       chronicler/core/sqlite/patterns.py
-- Chronicles   chronicler/core/sqlite/chronicle_repository.py and tag_repository.py: Links about any
--              calls of both, Deletion about one; Service is about what is filled in of a chronicle
--              from its project, `hydrate_from_project` and the handlers' back-fills
-- Workspace    chronicler/core/workspace_lock.py: processes as a step relation
-- Intake       chronicler/core/file_staging.py and the files that
--              chronicler/core/services/chronicle_service.py moves and removes
--
-- The parts meet as in the program: Worker runs on the functions of Queue, Service stores through
-- `Queue.create` behind `Regex.assert_safe_pattern`, Import reads times with Formatting, whose
-- `looks_synthetic` reads the flag that Import writes, and Cleaning rounds times as Formatting does.
-- Handlers and Transcripts run on the tables of Project, which hold those of Sources, and Handlers store
-- what Import and Cleaning return; Chronicles deletes the tasks of Queue and searches by Search.
--
-- Environment. What the program takes from outside is a parameter: the order of SQLite's rows with the
-- laws of ORDER BY (`TaskOrder`), the handlers, the clock, the registered types and what the rest of the
-- program writes to the task table between and during the worker's runs (`Environment`), the
-- pattern parser, matching, case folding and the Unicode database (`TextEngine`, `Importer`), the
-- language model's answers, SQLite's `LIKE` (`Like`) and the system's file locks (`Os`), each with the
-- laws of its documentation. `insertion_order` of Queue/Sorted is an order that has the laws.
--
-- Bounds and fuel. `process_tasks` takes fuel for its `while True` loop, and one more than the attempts
-- that the PENDING rows have left, and that the rest of the program brings, is enough. `write_outcome` takes fuel for its retries, and 302 is
-- enough, since each costs 100 ms of the 30 s and 100 ms. `decimal` takes one more than the number,
-- which is more than its digits. `free_name` takes fuel for the loop that looks for a free file name, and
-- one more than the files of the directory is enough. Everything else is structural recursion.
--
-- Representation. A UUID is a number. A `datetime`, a duration and a position in a recording, a float in
-- the source, are whole milliseconds, never below zero. The JSON text of `Task.data` is the object it
-- encodes. Numbers do not overflow, as Python's do not.
--
-- Left out: the `updated_at` columns, which only views read, and `created_at` of a chronicle; log
-- messages; the cases of a database that stays locked while a worker stops; what the handlers do around
-- their transactions but for the snapshots and the levelled copies; the views, the servers, the
-- recorder, the engines that transcribe and level a recording, exports, settings files and migrations.
pub mod Base
pub mod Text
pub mod Formatting
pub mod Models
pub mod Queue
pub mod Worker
pub mod Regex
pub mod Cleaning
pub mod Summary
pub mod Sources
pub mod Import
pub mod Service
pub mod Session
pub mod Project
pub mod Handlers
pub mod KnownSpeakers
pub mod Transcripts
pub mod Search
pub mod Chronicles
pub mod Workspace
pub mod Intake
