-- ===== src/KeyValueStore.antt =====
-- subsys/storage/src/fd_key_value_store.c: keys and encoded messages in a ring of flash pages.
pub mod Types
pub mod Pages
pub mod Lookup
pub mod Stream
pub mod Collect
pub mod Api
pub mod Contract
pub mod Streaming
pub mod Passing
pub mod Records
pub mod Flushing
pub mod Log
pub mod Invariant
pub mod Commit
pub mod Adding
pub mod Allocating
pub mod Layout
pub mod Adds
pub mod Pushing
pub mod Mapping
pub mod Operations
pub mod Beside
pub mod Comparing
pub mod Setting
pub mod Blank
pub mod Recovery
pub mod Restart
pub mod Example
mod Tests
pub mod Erasing
pub mod SamePages
pub mod Ending
