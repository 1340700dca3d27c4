-- ===== src/AmplifierApi.antt =====
-- crates/amplifier-api. `Types` is types.rs, `TxEvent` the event identifiers of that file, `BigInt`
-- is big_int.rs, `Time` util.rs, `Requests` client/requests.rs and `Client` client.rs.
pub mod Types
pub mod Order
pub mod Lines
pub mod Display
pub mod TxEvent
pub mod BigInt
pub mod Time
pub mod Requests
pub mod Client
pub mod Config
mod Tests
