-- ===== src/Lib.antt =====
-- Verification library of the agent layer of the Nexus AI kernel: the code under
-- backend/services/ai-kernel/src/agents. In what follows a path starts there.
--
-- The program. Agents are registered (registry/agent-registry.ts) and taken through their life
-- cycle (lifecycle/agent-lifecycle-manager.ts). They send one another messages over a bus
-- (communication/agent-bus.ts), which holds an inbox (communication/agent-inbox.ts) and an outbox
-- (communication/agent-outbox.ts) for each of them, or over channels with subscribers
-- (communication/agent-channel.ts). Their tasks (planner/agent-task.ts) wait and run under a
-- scheduler (scheduler/agent-scheduler.ts); what became of them stands in a registry of executions
-- (runtime/execution-registry.ts). Workflows stand in a registry (workflow/workflow-registry.ts);
-- an engine (workflow/workflow-engine.ts) runs their steps through a runner
-- (workflow/workflow-runner.ts), which calls the engine back for each step. Agents share values
-- through a memory with versions and locks (memory/shared-memory.ts), and plugins stand in a
-- registry of their own (plugins/plugin-registry.ts).
--
-- The files.
--   Common        names that all share; lists, the insertion before the first element that passes a
--                 test, the search for the first least element, and the `Map` of JavaScript
--   Values        payloads and metadata
--   Priority      AgentPriority of types/agent.types.ts, with the table of its order
--   Task          the data types of planner/agent-task.ts, with AgentTaskBuilder
--   Scheduler     AgentScheduler: State (fields), Queues and Choice (private methods), Operations and
--                 Reports (public methods); the other children hold what is proved
--   Communication Message, Inbox, Outbox, Log (bounded lists of messages), Bus and Channel, each with
--                 its operations and, in its children, what is proved
--   Lifecycle     AgentLifecycleManager: State, Operations, and what a call changes
--   Executions    ExecutionRegistry
--   Registry      AgentRegistry
--   Planner       planner/agent-planner.ts: the topological sort and, in Groups, Planning, Checking and
--                 Merging, the other methods; Plan is planner/agent-plan.ts
--   Workflow      the types of workflow/workflow.types.ts; Steps (the walks over the tree of steps),
--                 Execution (executions and exceptions), Runner (WorkflowRunner over any executor),
--                 Engine (WorkflowEngine over any runner; its Operations), Validation (`validate`) and
--                 Registry (WorkflowRegistry)
--   Memory        the storage of memory/agent-memory.ts, and Shared, SharedMemory
--   Plugins       PluginRegistry of plugins/plugin-registry.ts
-- A field, a method and an enumeration value have their names of the source in lower case with
-- underscores: `completeTask` is `complete_task`, `runningTasksMap` is `running_tasks_map`.
--
-- How the code is modelled. A class is a record of its fields, and a method a function from the
-- record to the record after the call and the result. An exception is a value of the result. The
-- clock (`Date.now()`, `new Date()`), random ids, and what belongs to a caller (the methods of an
-- agent, handlers, filters) are arguments. `Map` and `Set` keep the order of first insertion. Task
-- objects stand in several queues at once and are changed in place, so the scheduler's queues hold
-- references into a heap of tasks; the other components hold values, and a change of an object
-- that stands in a map is written to the map: the engine's executions, if they are there, and the
-- inbox and the outbox that the bus hands out. Numbers are natural numbers, but for the timeouts
-- that `validatePlan` tests and the policies of workflows, which are integers: times are
-- milliseconds, and where the source subtracts times the later one comes first, or the comparison
-- is written with a sum. One call runs from its start to its end: the awaited methods of the
-- scheduler, the bus and the registries do not wait for anything, but for `remove` of
-- AgentRegistry, which awaits the agent's `shutdown`, and `register` of PluginRegistry, which
-- awaits its validator; calls that interleave there, or at an await of the lifecycle manager, are
-- not modelled. A call of the workflow executor may change the execution in any way, the ends of
-- parallel steps come in any order, and what `write`, `lock` and `unlock` of SharedMemory do after
-- their await is a definition of its own. The runner and the engine are each proved against the
-- other's interface; the engine as an executor of the runner is in Workflow/Engine/Leaves.antt. A
-- loop counts its limit down. Recursion is on lists, but for the visits of the topological sort,
-- which count their nesting down: they get one more than the number of tasks, which is enough,
-- since each nested visit enters a task that is not being visited yet.
--
-- Not modelled. The builder of messages, the orchestrator, the coordinator, the loader and the
-- validator of plugins, the other memories and the runtime above the registries are future parts.
-- Of the workflows, `runMixed` is left out, which nothing calls, and `evaluateCondition`, which
-- calls `eval`. Logging to the console is left out. The other services, the frontend and the
-- servers are outside the agent layer.
pub mod Common
pub mod Communication
pub mod Executions
pub mod Lifecycle
pub mod Memory
pub mod Planner
pub mod Plugins
pub mod Priority
pub mod Registry
pub mod Scheduler
pub mod Task
pub mod Values
pub mod Workflow
