-- ===== src/Chat.antt =====
-- wire-app/src/chat.rs: messages, their delivery to the members of a conversation, and the warm
-- sessions that carry them.
pub mod Retention
pub mod Message
pub mod Records
pub mod Backoff
pub mod Schedule
pub mod Service
pub mod Delivery
pub mod Sessions
pub mod Control
pub mod Deletions
pub mod Invites
pub mod Timeline
pub mod Document
pub mod Attachments
pub mod Receipts
pub mod Publish
mod Tests
