-- ===== src/Lifecycle.antt =====
-- backend/services/ai-kernel/src/agents/lifecycle/agent-lifecycle-manager.ts
pub mod State
pub mod Operations
pub mod Effects
pub mod History
pub mod Outcomes
pub mod Examples
