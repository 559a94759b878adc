-- ===== src/Tasks/Effects.antt =====
-- internal/tasks: what each operation of the orchestrator does to the stored runs.
use agentnexus.Base.{
  String, true, false, none, some, ◌≡◌, refl, ap, arith, ◌⊎◌, inl, inr, Dict, lookup, insert,
}
use agentnexus.Errors.{is_ok}
use agentnexus.Runtime.Types.{Time}
use agentnexus.Tasks.{
  TaskStatus, running, waiting_confirmation, TaskRun, TaskEvent, CreateTaskRunInput,
  AppendTaskStepInput, WaitForConfirmationInput, CompleteTaskInput, is_terminal, can_transition,
  Tasks, task_key, moved, Publisher, announce, put_step, put_checkpoint, update_task_run_status,
}
use agentnexus.Tasks.Orchestrator.{
  create_task_run, new_run, append_task_step, append_to, step_stored, step_updated,
  wait_for_confirmation, wait_on, paused, checkpointed, complete_task, complete_found, completed,
}

-- a publish leaves the runs as they are
announce-runs :
    {A : Type 0} (p : Publisher) (event : TaskEvent) (a : A) (w : Tasks)
    → (announce p event a w).1.runs ≡ w.runs
unfolding announce
announce-runs none event a w = refl
announce-runs (some send) event a w = ground arith

-- The runs stay, or the run under the key moves along an edge.
abbrev pub Advances : String → Dict TaskRun → Dict TaskRun → Type 0
Advances key m m' =
    (m' ≡ m)
    ⊎ ((run : TaskRun) × (to : TaskStatus) × (now : Time) × (lookup key m ≡ some run)
        × (can_transition run.status to ≡ true)
        × (m' ≡ insert key (moved run to now) m))

pub create_task_run_effect :
    (p : Publisher) (id : String) (now occurred : Time) (input : CreateTaskRunInput) (w : Tasks)
    → (create_task_run p id now occurred input w).1.runs
      ≡ insert (task_key input.enterprise_id id) (new_run id now input) w.runs
unfolding create_task_run
create_task_run_effect p id now occurred input w = announce-runs p _ _ _

pub complete_task_effect :
    (p : Publisher) (updated occurred : Time) (input : CompleteTaskInput) (w : Tasks)
    → let key = task_key input.enterprise_id input.task_run_id in
      let w' = (complete_task p updated occurred input w).1 in
      ((w' ≡ w) × (is_ok (complete_task p updated occurred input w).0 ≡ false))
      ⊎ ((run : TaskRun) × (lookup key w.runs ≡ some run)
          × (is_terminal input.status ≡ true)
          × (can_transition run.status input.status ≡ true)
          × (w'.runs ≡ insert key (moved run input.status updated) w.runs))
unfolding complete_task complete_found completed update_task_run_status announce
complete_task_effect p updated occurred input w = ground arith

pub complete_task-Advances :
    (p : Publisher) (updated occurred : Time) (input : CompleteTaskInput) (w : Tasks)
    → Advances
        (task_key input.enterprise_id input.task_run_id)
        w.runs
        (complete_task p updated occurred input w).1.runs
complete_task-Advances p updated occurred input w =
    elim (complete_task_effect p updated occurred input w) [
      | inl (same, _) ↦ inl (ap (λ (x : Tasks). x.runs) same)
      | inr (run, found, _, may, written) ↦ inr (run, input.status, updated, found, may, written)
    ]

-- the runs stay, or the run under the key moves to this status
abbrev MovesTo : String → TaskStatus → Time → Dict TaskRun → Dict TaskRun → Type 0
MovesTo key to now m m' =
    (m' ≡ m)
    ⊎ ((run : TaskRun) × (lookup key m ≡ some run)
        × (can_transition run.status to ≡ true)
        × (m' ≡ insert key (moved run to now) m))

MovesTo-Advances :
    (key : String) (to : TaskStatus) (now : Time) (m m' : Dict TaskRun)
    → MovesTo key to now m m'
    → Advances key m m'
MovesTo-Advances key to now m m' (inl same) = inl same
MovesTo-Advances key to now m m' (inr (run, found, may, written)) =
    inr (run, to, now, found, may, written)

wait_for_confirmation_effect :
    (p : Publisher) (id : String) (updated now occurred : Time) (input : WaitForConfirmationInput)
    (w : Tasks)
    → MovesTo
        (task_key input.enterprise_id input.task_run_id)
        waiting_confirmation
        updated
        w.runs
        (wait_for_confirmation p id updated now occurred input w).1.runs
unfolding wait_for_confirmation wait_on paused checkpointed update_task_run_status announce
    put_checkpoint
wait_for_confirmation_effect p id updated now occurred input w = ground arith

append_task_step_effect :
    (p : Publisher) (id : String) (now updated occurred : Time) (input : AppendTaskStepInput)
    (w : Tasks)
    → MovesTo
        (task_key input.enterprise_id input.task_run_id)
        running
        updated
        w.runs
        (append_task_step p id now updated occurred input w).1.runs
unfolding append_task_step append_to step_stored step_updated update_task_run_status announce
    put_step
append_task_step_effect p id now updated occurred input w = ground arith

pub wait_for_confirmation-Advances :
    (p : Publisher) (id : String) (updated now occurred : Time) (input : WaitForConfirmationInput)
    (w : Tasks)
    → Advances
        (task_key input.enterprise_id input.task_run_id)
        w.runs
        (wait_for_confirmation p id updated now occurred input w).1.runs
wait_for_confirmation-Advances p id updated now occurred input w =
    MovesTo-Advances _ _ _ _ _ (wait_for_confirmation_effect p id updated now occurred input w)

pub append_task_step-Advances :
    (p : Publisher) (id : String) (now updated occurred : Time) (input : AppendTaskStepInput)
    (w : Tasks)
    → Advances
        (task_key input.enterprise_id input.task_run_id)
        w.runs
        (append_task_step p id now updated occurred input w).1.runs
append_task_step-Advances p id now updated occurred input w =
    MovesTo-Advances _ _ _ _ _ (append_task_step_effect p id now updated occurred input w)
