-- ===== src/Mock.antt =====
-- The sample data of the token console, netstars/token/console/src/lib/mock.ts: a seeded generator of
-- numbers, and what is made with it.
mod Random
mod Types
unfoldable pub use Random.*
unfoldable pub use Types.*
pub mod Usage
pub mod Keys
pub mod Invoices
pub mod Platform
pub mod Ranges
