-- ===== src/Executions.antt =====
-- backend/services/ai-kernel/src/agents/runtime/execution-registry.ts. A set of ids is a map to the
-- unit type; the clock is an argument.
pub mod Laws
pub mod Cleanup
pub mod History
pub mod Examples
use nexus_ai_workspace.Common.{
  ℕ, suc, String, Bool, true, false, List, [], ◌∷◌, ◌++◌, Option, none, some, ◌+◌, ◌===◌, ltb,
  length, is_some, if◌then◌else◌, ◌&&◌, not, select,
}
use nexus_ai_workspace.Common.Map.{Map, set, get, delete, has, keys, values}
use nexus_ai_workspace.Values.{Value, Metadata}

pub data ExecutionStatus : Type 0 where
  pending running completed cancelled failed timeout : ExecutionStatus

pub record Usage : Type 0 where
  pub memory_used : Option ℕ
  pub cpu_time : Option ℕ
  pub tokens_used : Option ℕ
  pub cost : Option ℕ

pub record ExecutionResult : Type 0 where
  pub execution_id : String
  pub agent_id : String
  pub success : Bool
  pub output : Option Value
  pub started_at : ℕ
  pub finished_at : ℕ
  pub latency : ℕ
  pub usage : Option Usage
  pub errors : List String
  pub metadata : Metadata
  pub status : ExecutionStatus

pub record ExecutionRegistry : Type 0 where
  pub executions : Map ExecutionResult
  pub active_executions : Map (Unit {0})

pub data ExecutionError : Type 0 where
  execution_not_found : String → ExecutionError

unfoldable pub create : ExecutionRegistry
create = record { executions = []; active_executions = [] }

-- `status === RUNNING || status === PENDING`
unfoldable pub is_active_status : ExecutionStatus → Bool
is_active_status pending = true
is_active_status running = true
is_active_status completed = false
is_active_status cancelled = false
is_active_status failed = false
is_active_status timeout = false

unfoldable pub register : ExecutionRegistry → ExecutionResult → ExecutionRegistry
register s e = record {
  executions = set e.execution_id e s.executions;
  active_executions =
      if is_active_status e.status
      then set e.execution_id tt s.active_executions
      else s.active_executions;
}

unfoldable pub update :
    ExecutionRegistry → String → ExecutionResult → ExecutionRegistry × Option ExecutionError
update s id e =
    if has id s.executions
    then (
      record {
        executions = set id e s.executions;
        active_executions =
            if is_active_status e.status
            then set id tt s.active_executions
            else delete id s.active_executions;
      },
      none,
    )
    else (s, some (execution_not_found id))

unfoldable pub get_execution : ExecutionRegistry → String → Option ExecutionResult
get_execution s id = get id s.executions

unfoldable pub list : ExecutionRegistry → List ExecutionResult
list s = values s.executions

unfoldable pub same_status : ExecutionStatus → ExecutionStatus → Bool
same_status pending pending = true
same_status running running = true
same_status completed completed = true
same_status cancelled cancelled = true
same_status failed failed = true
same_status timeout timeout = true
same_status _ _ = false

unfoldable pub list_by_status : ExecutionRegistry → ExecutionStatus → List ExecutionResult
list_by_status s status = select (λ e. same_status e.status status) (values s.executions)

unfoldable pub list_by_agent : ExecutionRegistry → String → List ExecutionResult
list_by_agent s agent = select (λ e. e.agent_id === agent) (values s.executions)

unfoldable pub remove : ExecutionRegistry → String → ExecutionRegistry
remove s id = record {
  executions = delete id s.executions;
  active_executions = delete id s.active_executions;
}

-- Not active, and finished before `now - max_age`; the difference may be negative in the source.
abbrev pub is_expired : Map (Unit {0}) → (max_age now : ℕ) → String → ExecutionResult → Bool
is_expired active max_age now id e = not (has id active) && ltb (e.finished_at + max_age) now

-- The loop over the entries: those that stay, and the number of those that go.
unfoldable pub cleanup_loop :
    Map (Unit {0}) → (max_age now : ℕ) → Map ExecutionResult → Map ExecutionResult × ℕ
cleanup_loop active max_age now [] = ([], 0)
cleanup_loop active max_age now ((id, e) ∷ rest) =
    let (kept, n) = cleanup_loop active max_age now rest in
    if is_expired active max_age now id e then (kept, suc n) else ((id, e) ∷ kept, n)

unfoldable pub cleanup : ExecutionRegistry → (max_age now : ℕ) → ExecutionRegistry × ℕ
cleanup s max_age now =
    let (kept, n) = cleanup_loop s.active_executions max_age now s.executions in
    (record s { executions = kept }, n)

unfoldable pub count : ExecutionRegistry → ℕ
count s = length s.executions

pub record ExecutionMetrics : Type 0 where
  pub total : ℕ
  pub active : ℕ
  pub completed_count : ℕ
  pub failed_count : ℕ
  pub cancelled_count : ℕ
  pub timeout_count : ℕ

unfoldable pub get_metrics : ExecutionRegistry → ExecutionMetrics
get_metrics s = record {
  total = length (values s.executions);
  active = length s.active_executions;
  completed_count = length (list_by_status s completed);
  failed_count = length (list_by_status s failed);
  cancelled_count = length (list_by_status s cancelled);
  timeout_count = length (list_by_status s timeout);
}

unfoldable pub is_active : ExecutionRegistry → String → Bool
is_active s id = has id s.active_executions

unfoldable pub list_active_executions : ExecutionRegistry → List String
list_active_executions s = keys s.active_executions
