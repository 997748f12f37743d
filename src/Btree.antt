-- ===== src/Btree.antt =====
-- src/btree.c: a B+-tree whose nodes are the pages of the pager, as byte memory.
pub mod Layout
pub mod Page
pub mod Local
pub mod Node
pub mod Compact
pub mod Find
pub mod Leaf
pub mod Split
pub mod Inner
pub mod Keys
pub mod Full
pub mod Twice
pub mod Cached
pub mod Held
pub mod Whole
pub mod World
pub mod Insert
pub mod Lookup
pub mod Search
pub mod Walk
pub mod Open
pub mod Table
mod Examples
mod Runs
