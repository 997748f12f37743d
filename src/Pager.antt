-- ===== src/Pager.antt =====
-- include/pager.h and src/pager.c: a page cache, with a hash directory from page ids to headers and a
-- CLOCK ring for eviction.
pub mod Types
pub mod Directory
pub mod Hash
pub mod Lookup
pub mod Create
pub mod Evict
pub mod Fix
pub mod Open
pub mod Close
pub mod Links
pub mod Invariant
pub mod Runs
mod Examples
