-- ===== src/Bitso.antt =====
-- Package data_server/bitso: the exchange's data types and its API client.
pub mod Json
pub mod Enums
pub mod Currency
pub mod Book
pub mod Tid
pub mod Time
pub mod Value
pub mod Payload
pub mod Answers
pub mod Atoi
pub mod Ranges
pub mod Client
pub mod Order
pub mod Websocket
