-- ===== src/TelegramBot.antt =====
-- The Telegram side of the bot (src/casino_bot/telegram_bot/).
pub mod GameTexts
pub mod Texts
pub mod RateLimit
pub mod Chat
pub mod Delivery
pub mod Stakes
pub mod Users
pub mod Redelivery
pub mod Answered
pub mod Keys
pub mod Buttons
pub mod Listing
pub mod Handlers
pub mod Polling
pub mod Sound
pub mod Sends
pub mod Ledger
pub mod Updates
