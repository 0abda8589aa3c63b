-- ===== src/Messages.antt =====
-- The pages of messages (src/main/js/modules/messages.js): the inbox and its conversations, the
-- page that writes a message, and the controller 'display'.
pub mod Object
pub mod Tabs
pub mod Inbox
pub mod Compose
pub mod Display
mod Tests
