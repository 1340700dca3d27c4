-- ===== src/Retry.antt =====
-- crates/retry. The children follow the files of the crate: `Defs` is lib.rs, `Backoff` the
-- backoff of a pair, `Single` the retry of one function, `Pair` the retry of a pair of functions,
-- and `Builder` builder.rs, which makes them. `Elapse` says what functions see of the time.
pub mod Defs
pub mod Elapse
pub mod Backoff
pub mod Single
pub mod Pair
pub mod Builder
mod Tests
