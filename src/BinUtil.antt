-- ===== src/BinUtil.antt =====
-- crates/bin-util: what the binaries share. `Config` is the loading and checking of configurations,
-- `Blank` what `trim` leaves of a text, `HealthCheck` the server of the probes, and `SimpleMetrics` and
-- `BlockChainIngesterMetrics` the counters.
pub mod Config
pub mod Blank
pub mod HealthCheck
pub mod SimpleMetrics
pub mod BlockChainIngesterMetrics
