-- ===== src/Lib.antt =====
-- The pipeline that extracts MSME records of the Udyam register state by state, keeps them as
-- batches, and loads them into Snowflake.
--
-- The parts, and the files that model them:
--
-- - udyam_extractor.py: `Extractor`. `Env` holds the settings, the exceptions, the durable state
--   `World` and the outside `Env`; `Manifest` is get_batch_id, write_batch_manifest and
--   get_persisted_batch; `Checkpoints` is load_checkpoint, save_checkpoint and mark_state_failed;
--   `Batches` is write_batch_file and the paths; `Fetch` is fetch_batch; `State` is extract_state, whose
--   `while True` is `loop` and its body `turn`; `States` is extract_states and get_run_id.
-- - run_udyam.py: `Run`. main from the validated settings on, reconcile_run and the run's summary.
-- - storage.py: `Storage`. `Local` is LocalStorage, `Object` is ObjectStorage with its two subclasses,
--   `Uri` is urlparse as far as it is used, `Disk` the files and the bucket's client.
-- - scripts/compact_batches.py: `Compaction`. `Sources` is _successful_batches and _stage_source_file,
--   `Existing` is _existing_compaction_is_valid, `Chunks` is the loop of compact_run,
--   `Process` is compact_run as a whole and main.
-- - scripts/load_to_snowflake.py: `Loader`. `Names` is the quoting, `Checks` the validation of a
--   compacted file's record, `Compacted` is process_compacted_file, `Batches` is should_skip,
--   copy_batch and a round of the loop of process_run, `Process` is load_manifest and process_run,
--   `Main` is Settings.from_environment, create_connection and main.
-- - config.py: `Config`. load_settings with _get_int, _get_float and _get_test_state.
-- - webapp/backend: `Web`. `Cache` is cache.py, `Pool` is snowflake_client.py; of main.py, `Dates` is
--   _next_schedule_date and _next_periods, `Lookups` the cached look-ups and counts, `Filters` the
--   condition and the parameters of a search, `Paging` its numbers, and `Search` is search,
--   export_search and get_enterprise; `Values` is the state of the process and what is outside it.
-- - dags/udyam_incremental_pipeline.py: `Dags`. The tasks get_or_create_run_id and
--   clear_run_id_after_success, and the chain of tasks as a step relation.
-- - `Prelude`, `Exec`, `Records` and `Dict` are shared: numbers and texts, code that changes a state
--   and may raise, with Hoare triples, the records of the manifests, and dictionaries.
-- - `Tests` runs the parts at concrete inputs.
--
-- The parts meet in the manifest: the extractor appends a line for each batch it has published through
-- `Storage`, the compactor reads these lines, and the loader reads the compactor's or the extractor's.
--
-- Code that changes state is `Exec`: the state comes back beside an exception too, so that a raise, or
-- the death of the process, leaves what was written before it. The outside is a parameter: what curl
-- answers, whether a write to the disk succeeds, whether a shutdown is requested and the jitter are
-- functions of a running count, so that every sequence of outcomes is covered; the client libraries
-- of the buckets are `Storage.Disk.Client`, the SQL statements are `Loader.Warehouse.Warehouse`, and
-- sha256 and unquote are functions. `extract_state` runs on fuel, the number of turns of its loop; how
-- much is enough is stated below. `fetch_batch` needs none: its attempts are bounded by max_retries.
--
-- Simplified: a decoded JSON value is a record of its fields, with `none` for a missing one; texts are
-- ASCII in lower, upper and strip; the settings that are floats are natural numbers of one small unit;
-- times of day and log lines are left out; the workers of the thread pool run one after another; the
-- compactor's files are written when they are closed.
--
-- In the web application the threads of a process are modelled where they share state: the steps of
-- `Web.Cache.Fresh` and `Web.Pool.Slots` interleave in any order. A request by itself is a function
-- on the state of the process, with no other thread between; the client library of the database, the
-- clock, `str` of a database value and pydantic's reading of a text as an integer are `Driver`. The
-- floats of config.py are the parameter `Floats`.
--
-- Not modelled: the by-year and by-month analytics of main.py with their forecast, which compute with
-- floats; the frontend; the full refresh DAG, which only chains commands; dbt models and SQL files;
-- deployment scripts; and in the loader the reading of JSON lines.
pub mod Prelude
pub mod Exec
pub mod Records
pub mod Dict
pub mod Config
pub mod Storage
pub mod Extractor
pub mod Run
pub mod Loader
pub mod Compaction
pub mod Web
pub mod Dags
pub mod Tests
