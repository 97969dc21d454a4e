-- ===== src/Priority.antt =====
-- AgentPriority and the table `priorityOrder` of the scheduler, the inbox, the outbox and the
-- planner (backend/services/ai-kernel/src/agents).
use nexus_ai_workspace.Common.{ℕ, String, ◌===◌, if◌then◌else◌, Option, none, some}

pub data AgentPriority : Type 0 where
  low normal high critical : AgentPriority

-- The enum has no other value, so the table's default is never taken.
unfoldable pub priority_order : AgentPriority → ℕ
priority_order critical = 0
priority_order high = 1
priority_order normal = 2
priority_order low = 3

-- The spellings that `reschedule` accepts; the empty text is not among them.
unfoldable pub parse_priority : String → Option AgentPriority
parse_priority s =
    if s === "critical"
    then some critical
    else if s === "high"
    then some high
    else if s === "normal"
    then some normal
    else if s === "low"
    then some low
    else none

-- The enum's values.
unfoldable pub priority_text : AgentPriority → String
priority_text low = "low"
priority_text normal = "normal"
priority_text high = "high"
priority_text critical = "critical"
