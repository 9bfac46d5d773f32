-- ===== src/Loader.antt =====
-- scripts/load_to_snowflake.py. `Warehouse` is what the SQL statements do, `Checks` the validation
-- of manifest records, `Compacted` and `Batches` the two kinds of manifest, `Process` the whole run.
pub mod Warehouse
pub mod Names
pub mod Checks
pub mod Compacted
pub mod Batches
pub mod Yields
pub mod Skip
pub mod Plan
pub mod Quoting
pub mod Literals
pub mod Process
pub mod Main
