-- ===== src/Checkout.antt =====
-- The consumer checkout, haba/src/app/api/checkout/order/route.ts.
mod Cart
mod Order
unfoldable pub use Cart.*
pub mod Pricing
pub mod Settlement
unfoldable pub use Order.*
