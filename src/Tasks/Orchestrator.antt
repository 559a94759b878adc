-- ===== src/Tasks/Orchestrator.antt =====
-- internal/tasks/orchestrator.go: the operations on a task run.
use agentnexus.Base.{
  String, not, ◌&&◌, ◌||◌, Option, none, some, List, [], ◌∷◌, ◌=ₛ◌, if◌then◌else◌, lookup,
}
use agentnexus.Errors.{sentinel, task_not_found, invalid_task_transition, Result, ok, err}
use agentnexus.Runtime.Types.{Time}
use agentnexus.Tasks.{
  TaskStatus, queued, running, waiting_confirmation, other_status, TaskRun, TaskStep,
  ConfirmationCheckpoint, TaskEvent, CreateTaskRunInput, AppendTaskStepInput,
  WaitForConfirmationInput, CompleteTaskInput, is_terminal, is_known_status, is_running,
  can_transition, Tasks, Call, task_key, put_run, update_task_run_status, put_step, put_checkpoint,
  Publisher, announce,
}

abbrev pub new_run : String → Time → CreateTaskRunInput → TaskRun
new_run id now input = record {
  id = id;
  enterprise_id = input.enterprise_id;
  actor_user_id = input.actor_user_id;
  request_id = input.request_id;
  trace_id = input.trace_id;
  status = queued;
  created_at = now;
  updated_at = now;
}

abbrev pub run_event : String → TaskRun → List (String × String) → Time → TaskEvent
run_event subject run payload occurred = record {
  subject = subject;
  enterprise_id = run.enterprise_id;
  task_run_id = run.id;
  task_step_id = "";
  status = run.status;
  payload = payload;
  occurred_at = occurred;
}

-- `CreateTaskRun`
unfoldable pub create_task_run :
    Publisher → String → Time → Time → CreateTaskRunInput → Call TaskRun
create_task_run p id now occurred input w =
    let run = new_run id now input in
    announce p (run_event "agentnexus.tasks.created" run [] occurred) run (put_run run w)

-- an empty status is running
abbrev pub step_status : TaskStatus → TaskStatus
step_status (other_status status) = if status =ₛ "" then running else other_status status
step_status status = status

abbrev pub new_step : String → Time → AppendTaskStepInput → TaskStep
new_step id now input = record {
  id = id;
  enterprise_id = input.enterprise_id;
  task_run_id = input.task_run_id;
  name = input.name;
  status = step_status input.status;
  input_hash = input.input_hash;
  output_hash = input.output_hash;
  created_at = now;
  updated_at = now;
}

abbrev pub step_event : TaskStep → Time → TaskEvent
step_event step occurred = record {
  subject = "agentnexus.tasks.step";
  enterprise_id = step.enterprise_id;
  task_run_id = step.task_run_id;
  task_step_id = step.id;
  status = step.status;
  payload = ("name", step.name) ∷ [];
  occurred_at = occurred;
}

-- after the update of the run
unfoldable pub step_updated :
    Publisher → Time → TaskStep → Result TaskRun × Tasks → Result TaskStep × Tasks
step_updated p occurred step (ok run, w) = announce p (step_event step occurred) step w
step_updated p occurred step (err e, w) = (err e, w)

-- after the store has the step
unfoldable pub step_stored :
    Publisher
    → Time
    → Time
    → TaskRun
    → AppendTaskStepInput
    → Result TaskStep × Tasks
    → Result TaskStep × Tasks
step_stored p updated occurred run input (err e, w) = (err e, w)
step_stored p updated occurred run input (ok step, w) =
    if is_running (step_status input.status) && not (is_running run.status)
    then if not (can_transition run.status running)
      then (err (sentinel invalid_task_transition), w)
      else step_updated p occurred step
          (update_task_run_status input.enterprise_id input.task_run_id running updated w)
    else announce p (step_event step occurred) step w

unfoldable pub append_to :
    Publisher → String → Time → Time → Time → AppendTaskStepInput → Option TaskRun → Call TaskStep
append_to p id now updated occurred input none w = (err (sentinel task_not_found), w)
append_to p id now updated occurred input (some run) w =
    if is_terminal run.status
    then (err (sentinel invalid_task_transition), w)
    else if not (is_known_status (step_status input.status))
    then (err (sentinel invalid_task_transition), w)
    else step_stored p updated occurred run input (put_step (new_step id now input) w)

-- `AppendTaskStep`
unfoldable pub append_task_step :
    Publisher → String → Time → Time → Time → AppendTaskStepInput → Call TaskStep
append_task_step p id now updated occurred input w =
    append_to p id now updated occurred input
      (lookup (task_key input.enterprise_id input.task_run_id) w.runs) w

abbrev pub new_checkpoint : String → Time → WaitForConfirmationInput → ConfirmationCheckpoint
new_checkpoint id now input = record {
  id = id;
  enterprise_id = input.enterprise_id;
  task_run_id = input.task_run_id;
  task_step_id = "";
  status = "pending";
  reason = input.reason;
  created_at = now;
  resolved_at = none;
}

abbrev pub wait_event :
    WaitForConfirmationInput → TaskRun → ConfirmationCheckpoint → Time → TaskEvent
wait_event input run c occurred = record {
  subject = "agentnexus.tasks.step";
  enterprise_id = input.enterprise_id;
  task_run_id = input.task_run_id;
  task_step_id = "";
  status = run.status;
  payload = ("checkpoint_id", c.id) ∷ ("reason", input.reason) ∷ [];
  occurred_at = occurred;
}

unfoldable pub checkpointed :
    Publisher
    → Time
    → WaitForConfirmationInput
    → TaskRun
    → Result ConfirmationCheckpoint × Tasks
    → Result TaskRun × Tasks
checkpointed p occurred input run (err e, w) = (err e, w)
checkpointed p occurred input run (ok c, w) = announce p (wait_event input run c occurred) run w

unfoldable pub paused :
    Publisher
    → String
    → Time
    → Time
    → WaitForConfirmationInput
    → Result TaskRun × Tasks
    → Result TaskRun × Tasks
paused p id now occurred input (err e, w) = (err e, w)
paused p id now occurred input (ok run, w) =
    checkpointed p occurred input run (put_checkpoint (new_checkpoint id now input) w)

unfoldable pub wait_on :
    Publisher
    → String
    → Time
    → Time
    → Time
    → WaitForConfirmationInput
    → Option TaskRun
    → Call TaskRun
wait_on p id updated now occurred input none w = (err (sentinel task_not_found), w)
wait_on p id updated now occurred input (some run) w =
    if not (can_transition run.status waiting_confirmation)
    then (err (sentinel invalid_task_transition), w)
    else paused p id now occurred input (
        update_task_run_status input.enterprise_id input.task_run_id waiting_confirmation updated w)

-- `WaitForConfirmation`
unfoldable pub wait_for_confirmation :
    Publisher → String → Time → Time → Time → WaitForConfirmationInput → Call TaskRun
wait_for_confirmation p id updated now occurred input w =
    wait_on p id updated now occurred input
      (lookup (task_key input.enterprise_id input.task_run_id) w.runs) w

abbrev pub completed_event : CompleteTaskInput → TaskRun → Time → TaskEvent
completed_event input run occurred = record {
  subject = "agentnexus.tasks.completed";
  enterprise_id = input.enterprise_id;
  task_run_id = input.task_run_id;
  task_step_id = "";
  status = run.status;
  payload = [];
  occurred_at = occurred;
}

unfoldable pub completed :
    Publisher → Time → CompleteTaskInput → Result TaskRun × Tasks → Result TaskRun × Tasks
completed p occurred input (err e, w) = (err e, w)
completed p occurred input (ok run, w) = announce p (completed_event input run occurred) run w

unfoldable pub complete_found :
    Publisher → Time → Time → CompleteTaskInput → Option TaskRun → Call TaskRun
complete_found p updated occurred input none w = (err (sentinel task_not_found), w)
complete_found p updated occurred input (some run) w =
    if not (is_terminal input.status) || not (can_transition run.status input.status)
    then (err (sentinel invalid_task_transition), w)
    else completed p occurred input
        (update_task_run_status input.enterprise_id input.task_run_id input.status updated w)

-- `CompleteTask`
unfoldable pub complete_task : Publisher → Time → Time → CompleteTaskInput → Call TaskRun
complete_task p updated occurred input w =
    complete_found p updated occurred input
      (lookup (task_key input.enterprise_id input.task_run_id) w.runs) w
