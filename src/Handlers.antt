-- ===== src/Handlers.antt =====
-- The event handlers of src/api/v1/webhook.py.
pub mod Checkout
pub mod Payment
pub mod Lifecycle
pub mod Scope
pub mod Gate
pub mod Conflict
