-- ===== src/Bitso/Enums.antt =====
-- The exchange's enumerations: order sides, order statuses, ledger operations and order types.
-- Each is a byte with a table of names, read one way to print and the other way to parse.
pub mod Side
pub mod Status
pub mod Operation
pub mod OrderType
pub mod Laws
mod Tests
