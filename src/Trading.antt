-- ===== src/Trading.antt =====
-- The programs around the two halves: the prices saved to the database, the page that forwards the
-- exchange's messages, and the strategies.
pub mod Fate
pub mod Store
pub mod Socket
pub mod Strategy
pub mod Printing
pub mod Web
mod Tests
