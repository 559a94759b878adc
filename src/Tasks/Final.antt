-- ===== src/Tasks/Final.antt =====
-- internal/tasks: a task run that is finished stays finished.
use agentnexus.Base.{String, true, false, some, List, ◌≡◌, sym, ◌∙◌, ap, subst, arith, lookup}
use agentnexus.Errors.{Err, sentinel, invalid_task_transition, err}
use agentnexus.Runtime.Types.{Time}
use agentnexus.Tasks.{
  TaskStatus, TaskRun, AppendTaskStepInput, WaitForConfirmationInput, CompleteTaskInput,
  is_terminal, can_transition, Tasks, task_key, Publisher, waiting_confirmation,
}
use agentnexus.Tasks.Orchestrator.{
  append_task_step, append_to, wait_for_confirmation, wait_on, complete_task, complete_found,
}
use agentnexus.Tasks.Follows.{⇝-terminal, TaskCall, task_run, AllFresh, task_run-Lives}

stuck : (s t : TaskStatus) → is_terminal s ≡ true → can_transition s t ≡ false
unfolding can_transition
stuck s t over = ground arith

module _ (p : Publisher) (w : Tasks) (run : TaskRun) (over : is_terminal run.status ≡ true) where
  complete_task-refused :
      (updated occurred : Time) (input : CompleteTaskInput)
      → lookup (task_key input.enterprise_id input.task_run_id) w.runs ≡ some run
      → complete_task p updated occurred input w ≡ (err (sentinel invalid_task_transition), w)
  unfolding complete_task complete_found
  complete_task-refused updated occurred input found =
      let no = stuck run.status input.status over in ground arith

  wait_for_confirmation-refused :
      (id : String) (updated now occurred : Time) (input : WaitForConfirmationInput)
      → lookup (task_key input.enterprise_id input.task_run_id) w.runs ≡ some run
      → wait_for_confirmation p id updated now occurred input w
        ≡ (err (sentinel invalid_task_transition), w)
  unfolding wait_for_confirmation wait_on
  wait_for_confirmation-refused id updated now occurred input found =
      let no = stuck run.status waiting_confirmation over in ground arith

  append_task_step-refused :
      (id : String) (now updated occurred : Time) (input : AppendTaskStepInput)
      → lookup (task_key input.enterprise_id input.task_run_id) w.runs ≡ some run
      → append_task_step p id now updated occurred input w
        ≡ (err (sentinel invalid_task_transition), w)
  unfolding append_task_step append_to
  append_task_step-refused id now updated occurred input found = ground arith

-- A task run that has succeeded, failed or been cancelled keeps that status under any sequence of
-- the orchestrator's calls that gives every new run an unused identifier; and every later call
-- that would complete it, pause it or add a step to it is refused and changes nothing.
pub finished_for_good :
    (p : Publisher) (cs : List TaskCall) (w : Tasks) (run : TaskRun) (done : CompleteTaskInput)
    (pause : WaitForConfirmationInput) (step : AppendTaskStepInput) (id : String)
    (updated now occurred : Time)
    → AllFresh p cs w
    → lookup (task_key done.enterprise_id done.task_run_id) w.runs ≡ some run
    → is_terminal run.status ≡ true
    → task_key pause.enterprise_id pause.task_run_id ≡ task_key done.enterprise_id done.task_run_id
    → task_key step.enterprise_id step.task_run_id ≡ task_key done.enterprise_id done.task_run_id
    → let w' = task_run p cs w in
      let refused : Err = sentinel invalid_task_transition in
      (later : TaskRun) × (lookup (task_key done.enterprise_id done.task_run_id) w'.runs
        ≡ some later)
      × (later.status ≡ run.status)
      × (complete_task p updated occurred done w' ≡ (err refused, w'))
      × (wait_for_confirmation p id updated now occurred pause w' ≡ (err refused, w'))
      × (append_task_step p id now updated occurred step w' ≡ (err refused, w'))
finished_for_good p cs w run done pause step id updated now occurred fresh found over same same' =
    let w' = task_run p cs w in
    let key = task_key done.enterprise_id done.task_run_id in
    let (later, row, follows) = (task_run-Lives p cs w fresh).row key run found in
    let status = ⇝-terminal follows.path over in
    let over' = subst (λ s. is_terminal s ≡ true) status over in
    let at = λ (k : String) (e : k ≡ key). ap (λ j. lookup j w'.runs) e ∙ row in
    (
      later,
      row,
      sym status,
      complete_task-refused p w' later over' updated occurred done row,
      wait_for_confirmation-refused p w' later over' id updated now occurred pause (at _ same),
      append_task_step-refused p w' later over' id now updated occurred step (at _ same'),
    )
