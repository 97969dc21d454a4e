-- ===== src/Scheduler.antt =====
-- backend/services/ai-kernel/src/agents/scheduler/agent-scheduler.ts
pub mod State
pub mod Queues
pub mod Choice
pub mod Operations
pub mod Reports
pub mod Dependencies
pub mod Promotion
pub mod Queued
pub mod Invariant
pub mod Scheduling
pub mod Removal
pub mod Rescheduling
pub mod History
pub mod Selection
pub mod Running
pub mod Counting
pub mod Acceptance
pub mod Refusal
pub mod Examples
