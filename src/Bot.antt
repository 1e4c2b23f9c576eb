-- ===== src/Bot.antt =====
-- app/services/bot_conversation.py: the chat flow.
pub mod Render
pub mod Flow
pub mod Keep
pub mod Plain
pub mod Every
pub mod Offered
pub mod Admission
