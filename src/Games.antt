-- ===== src/Games.antt =====
-- The games and their engine (src/casino_bot/games/).
pub mod Types
pub mod Doubles
pub mod CoinFlip
pub mod BonusWheel
pub mod Policy
pub mod Registry
pub mod Presentation
pub mod Outcomes
pub mod Engine
