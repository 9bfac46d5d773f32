-- ===== src/Web.antt =====
-- webapp/backend: the read-only search service. `Cache` is cache.py, `Pool` is snowflake_client.py,
-- `Dates`, `Lookups` and `Search` are main.py.
pub mod Cache
pub mod Values
pub mod Pool
pub mod Dates
pub mod Filters
pub mod Paging
pub mod Search
pub mod Lookups
