-- ===== src/Scheduler/History.antt =====
-- Sequences of calls on one scheduler.
use nexus_ai_workspace.Common.{ℕ, String, Bool, List, [], ◌∷◌, Option, refl, arith}
use mathlib.Core.List.{Nodup-nil}
use nexus_ai_workspace.Common.Map.{get}
use nexus_ai_workspace.Values.{Value}
use nexus_ai_workspace.Scheduler.State.{AgentScheduler, Heap, SchedulingStrategy, create}
use nexus_ai_workspace.Scheduler.Operations.{
  schedule, enqueue, dequeue, cancel, pause, resume, reschedule, complete_task,
}
use nexus_ai_workspace.Scheduler.Reports.{health}
use nexus_ai_workspace.Scheduler.Queued.{SameKeys-refl}
use nexus_ai_workspace.Scheduler.Invariant.{IsValid, IsValid-same}
use nexus_ai_workspace.Scheduler.Scheduling.{schedule-IsValid, enqueue-IsValid, dequeue-IsValid}
use nexus_ai_workspace.Scheduler.Removal.{cancel-IsValid, complete_task-IsValid}
use nexus_ai_workspace.Scheduler.Rescheduling.{reschedule-IsValid}

-- The calls that may change the state.
pub data Call : Type 0 where
  schedules : ℕ → Call
  enqueues : List ℕ → Call
  dequeues : (now : ℕ) → Call
  cancels : String → (now : ℕ) → Call
  pauses resumes : Call
  reschedules : String → Option String → Call
  completes : String → Bool → Option Value → Option String → (now : ℕ) → Call
  reports_health : (now : ℕ) → Call

unfoldable pub step : AgentScheduler → Call → AgentScheduler
step s (schedules r) = (schedule s r).0
step s (enqueues rs) = (enqueue s rs).0
step s (dequeues now) = (dequeue s now).0
step s (cancels id now) = (cancel s id now).0
step s pauses = pause s
step s resumes = resume s
step s (reschedules id p) = (reschedule s id p).0
step s (completes id success output error now) = complete_task s id success output error now
step s (reports_health now) = (health s now).0

unfoldable pub run : AgentScheduler → List Call → AgentScheduler
run s [] = s
run s (c ∷ cs) = run (step s c) cs

pub step-IsValid : (s : AgentScheduler) (c : Call) → IsValid s → IsValid (step s c)
unfolding step pause resume health
step-IsValid s (schedules r) v = schedule-IsValid s r v
step-IsValid s (enqueues rs) v = enqueue-IsValid s rs v
step-IsValid s (dequeues now) v = dequeue-IsValid s now v
step-IsValid s (cancels id now) v = cancel-IsValid s id now v
step-IsValid s pauses v = IsValid-same s _ (SameKeys-refl s.heap) refl refl v.queued v
step-IsValid s resumes v = IsValid-same s _ (SameKeys-refl s.heap) refl refl v.queued v
step-IsValid s (reschedules id p) v = reschedule-IsValid s id p v
step-IsValid s (completes id success output error now) v =
    complete_task-IsValid s id success output error now v
step-IsValid s (reports_health now) v = IsValid-same s _ (SameKeys-refl s.heap) refl refl v.queued v

create-IsValid :
    (heap : Heap) (max_concurrency : ℕ) (strategy : SchedulingStrategy) (now : ℕ)
    → IsValid (create heap max_concurrency strategy now)
unfolding create get
create-IsValid heap max_concurrency strategy now = record {
  queued = record { sorted = tt; distinct = Nodup-nil };
  capacity = omega arith;
  keys = tt;
  keyed = λ k info h. ground arith;
}

run-IsValid : (s : AgentScheduler) (cs : List Call) → IsValid s → IsValid (run s cs)
unfolding run
run-IsValid s [] v = v
run-IsValid s (c ∷ cs) v = run-IsValid (step s c) cs (step-IsValid s c v)

-- After any sequence of calls on a new scheduler, whatever their arguments: the priority queue is
-- sorted by priority, no id stands twice in the priority queue and the waiting queue together, at
-- most `maxConcurrency` tasks run, the map of running tasks has each key once, and each running
-- task is filed under its own id.
pub scheduler_run-IsValid :
    (heap : Heap) (max_concurrency : ℕ) (strategy : SchedulingStrategy) (now : ℕ) (cs : List Call)
    → IsValid (run (create heap max_concurrency strategy now) cs)
scheduler_run-IsValid heap max_concurrency strategy now cs =
    run-IsValid _ cs (create-IsValid heap max_concurrency strategy now)
