-- ===== src/Tasks.antt =====
-- internal/tasks: model.go, the in-memory store of store.go, and the orchestrator of
-- orchestrator.go. What the clock and the generator of identifiers answer are arguments. The state
-- is the store's three maps and the events that were handed to the publisher.
pub mod Orchestrator
pub mod Effects
pub mod Follows
pub mod Final
use Prim.Native.String
use agentnexus.Base.{
  String, Bool, true, false, not, ◌&&◌, ◌||◌, Option, none, some, List, [], ◌∷◌, ◌=ₛ◌,
  if◌then◌else◌, Dict, lookup, insert,
}
use agentnexus.Errors.{Err, sentinel, task_not_found, invalid_task_transition, Result, ok, err}
use agentnexus.Runtime.Types.{Time}

-- `TaskStatus`, with any text that is not one of the constants
pub data TaskStatus : Type 0 where
  queued running waiting_confirmation succeeded failed cancelled : TaskStatus
  other_status : (status : String) → TaskStatus

pub record TaskRun : Type 0 where
  pub id : String
  pub enterprise_id : String
  pub actor_user_id : String
  pub request_id : String
  pub trace_id : String
  pub status : TaskStatus
  pub created_at : Time
  pub updated_at : Time

pub record TaskStep : Type 0 where
  pub id : String
  pub enterprise_id : String
  pub task_run_id : String
  pub name : String
  pub status : TaskStatus
  pub input_hash : String
  pub output_hash : String
  pub created_at : Time
  pub updated_at : Time

pub record ConfirmationCheckpoint : Type 0 where
  pub id : String
  pub enterprise_id : String
  pub task_run_id : String
  pub task_step_id : String
  pub status : String
  pub reason : String
  pub created_at : Time
  pub resolved_at : Option Time

pub record TaskEvent : Type 0 where
  pub subject : String
  pub enterprise_id : String
  pub task_run_id : String
  pub task_step_id : String
  pub status : TaskStatus
  pub payload : List (String × String)
  pub occurred_at : Time

pub record CreateTaskRunInput : Type 0 where
  pub enterprise_id : String
  pub actor_user_id : String
  pub request_id : String
  pub trace_id : String

pub record AppendTaskStepInput : Type 0 where
  pub enterprise_id : String
  pub task_run_id : String
  pub name : String
  pub status : TaskStatus
  pub input_hash : String
  pub output_hash : String

pub record WaitForConfirmationInput : Type 0 where
  pub enterprise_id : String
  pub task_run_id : String
  pub reason : String

pub record CompleteTaskInput : Type 0 where
  pub enterprise_id : String
  pub task_run_id : String
  pub status : TaskStatus

-- `isTerminal`
unfoldable pub is_terminal : TaskStatus → Bool
is_terminal queued = false
is_terminal running = false
is_terminal waiting_confirmation = false
is_terminal succeeded = true
is_terminal failed = true
is_terminal cancelled = true
is_terminal (other_status status) = false

-- `isKnownStatus`
unfoldable pub is_known_status : TaskStatus → Bool
is_known_status queued = true
is_known_status running = true
is_known_status waiting_confirmation = true
is_known_status succeeded = true
is_known_status failed = true
is_known_status cancelled = true
is_known_status (other_status status) = false

abbrev pub is_queued : TaskStatus → Bool
is_queued queued = true
is_queued _ = false

abbrev pub is_running : TaskStatus → Bool
is_running running = true
is_running _ = false

abbrev pub is_waiting : TaskStatus → Bool
is_waiting waiting_confirmation = true
is_waiting _ = false

-- the edges of `canTransition` past its guards
abbrev pub task_edge : TaskStatus → TaskStatus → Bool
task_edge from queued = false
task_edge from running = is_queued from || is_waiting from
task_edge from waiting_confirmation = is_running from
task_edge from succeeded = is_queued from || is_running from || is_waiting from
task_edge from failed = is_queued from || is_running from || is_waiting from
task_edge from cancelled = is_queued from || is_running from || is_waiting from
task_edge from (other_status status) = false

abbrev pub same_status : TaskStatus → TaskStatus → Bool
same_status queued queued = true
same_status running running = true
same_status waiting_confirmation waiting_confirmation = true
same_status succeeded succeeded = true
same_status failed failed = true
same_status cancelled cancelled = true
same_status (other_status a) (other_status b) = a =ₛ b
same_status _ _ = false

-- `canTransition`
unfoldable pub can_transition : TaskStatus → TaskStatus → Bool
unfolding is_known_status is_terminal
can_transition from to =
    if not (is_known_status from) || not (is_known_status to) || same_status from to
    then false
    else if is_terminal from
    then false
    else task_edge from to

pub record Tasks : Type 0 where
  pub runs : Dict TaskRun
  pub steps : Dict TaskStep
  pub checkpoints : Dict ConfirmationCheckpoint
  pub sent : List TaskEvent

abbrev pub Call : Type 0 → Type 0
Call A = Tasks → Result A × Tasks

-- `taskKey`
abbrev pub task_key : String → String → String
task_key enterprise_id id = String.◌++◌ enterprise_id (String.◌++◌ ":" id)

-- the store's `CreateTaskRun`
abbrev pub put_run : TaskRun → Tasks → Tasks
put_run run w = record w { runs = insert (task_key run.enterprise_id run.id) run w.runs }

-- the store's `UpdateTaskRunStatus`, which asks nothing about the status that it replaces
abbrev pub moved : TaskRun → TaskStatus → Time → TaskRun
moved run status now = record run { status = status; updated_at = now }

abbrev pub update_found : Option TaskRun → String → TaskStatus → Time → Call TaskRun
update_found none key status now w = (err (sentinel task_not_found), w)
update_found (some run) key status now w =
    (ok (moved run status now), record w { runs = insert key (moved run status now) w.runs })

unfoldable pub update_task_run_status : String → String → TaskStatus → Time → Call TaskRun
update_task_run_status enterprise_id id status now w =
    let key = task_key enterprise_id id in update_found (lookup key w.runs) key status now w

abbrev pub is_there : Option TaskRun → Bool
is_there none = false
is_there (some run) = true

-- the store's `AppendTaskStep` and `CreateConfirmationCheckpoint`
unfoldable pub put_step : TaskStep → Call TaskStep
put_step step w =
    if is_there (lookup (task_key step.enterprise_id step.task_run_id) w.runs)
    then (ok step, record w { steps = insert (task_key step.enterprise_id step.id) step w.steps })
    else (err (sentinel task_not_found), w)

unfoldable pub put_checkpoint : ConfirmationCheckpoint → Call ConfirmationCheckpoint
put_checkpoint c w =
    if is_there (lookup (task_key c.enterprise_id c.task_run_id) w.runs)
    then (ok c, record w { checkpoints = insert (task_key c.enterprise_id c.id) c w.checkpoints })
    else (err (sentinel task_not_found), w)

abbrev pub Publisher : Type 0
Publisher = Option (TaskEvent → Option Err)

-- `publish`, and then the operation's answer
abbrev pub answer_with : {A : Type 0} → A → Option Err → Tasks → Result A × Tasks
answer_with a none w = (ok a, w)
answer_with a (some e) w = (err e, w)

unfoldable pub announce : {A : Type 0} → Publisher → TaskEvent → A → Call A
announce none event a w = (ok a, w)
announce (some send) event a w = answer_with a (send event) (record w { sent = event ∷ w.sent })
