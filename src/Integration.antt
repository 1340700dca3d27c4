-- ===== src/Integration.antt =====
-- crates/relayer-amplifier-api-integration: `FromAmplifier` is from_amplifier.rs over the trait `State`
-- of crates/relayer-amplifier-state, `ToAmplifier` to_amplifier.rs and the result of the component,
-- component.rs. `Polls` and `Dispatch` are their streams as step relations. Its health check is in
-- WorkLoop.antt, `Config` is config.rs, and `Amplifier` the constructor and the clock of component.rs.
pub mod Config
pub mod FromAmplifier
pub mod ToAmplifier
pub mod Dispatch
pub mod Polls
pub mod Amplifier
