-- ===== src/Communication.antt =====
-- backend/services/ai-kernel/src/agents/communication: messages, inboxes, outboxes and the bus.
pub mod Message
pub mod Inbox
pub mod Outbox
pub mod Log
pub mod Bus
pub mod Channel
pub mod Examples
