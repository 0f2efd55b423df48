-- ===== src/Tests.antt =====
-- Runs of the model on small states, and the theorems at concrete inputs.
mod Data
mod Tokens
mod Money
mod Rounds
mod Games
mod RateLimits
mod Admin
mod Login
mod Staff
mod Http
mod Billing
mod Entitlements
mod Bot
mod Backups
