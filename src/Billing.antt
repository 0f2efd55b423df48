-- ===== src/Billing.antt =====
-- Billing (src/casino_bot/billing/ and src/casino_bot/services/billing_service.py).
pub mod Events
pub mod Signatures
pub mod Masking
pub mod Stripe
pub mod Paddle
pub mod Providers
pub mod Sync
pub mod Webhooks
pub mod Requests
pub mod Operations
pub mod Routes
pub mod Metrics
pub mod Lifecycle
pub mod Reachable
pub mod Authentic
pub mod Readings
pub mod Retention
pub mod Upserts
