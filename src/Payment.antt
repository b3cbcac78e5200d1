-- ===== src/Payment.antt =====
-- Payment transactions: app/models/payment.py and app/repositories/payment_repository.py.
pub mod Status
pub mod Rows
pub mod Repository
pub mod Rules
pub mod Traces
pub mod Finality
pub mod Creation
pub mod Listing
pub mod Cursor
pub mod CursorPages
mod Concrete
mod Examples
