-- ===== src/TelegramBot/Handlers.antt =====
-- The handlers of the bot (src/casino_bot/telegram_bot/handlers.py): what they read of an update, and
-- the steps that they share.
pub mod Work
pub mod Replies
pub mod Flip
pub mod Wheel
pub mod History
pub mod Commands
