-- ===== src/Tests/TaskRuns.antt =====
-- One task run: created, given a step, and completed.
use agentnexus.Base.{true, none, some, List, [], ◌∷◌, ◌≡◌, refl, lookup, insert}
use agentnexus.Base.Grows.{Grows}
use agentnexus.Errors.{Err, sentinel, invalid_task_transition, err}
use agentnexus.Tasks.{
  TaskRun, CreateTaskRunInput, AppendTaskStepInput, WaitForConfirmationInput, CompleteTaskInput,
  succeeded, other_status, Tasks, task_key, is_terminal, is_known_status, can_transition,
  update_task_run_status, put_step, put_checkpoint, announce, moved,
}
use agentnexus.Tasks.Orchestrator.{
  new_run, create_task_run, append_task_step, append_to, step_stored, step_updated,
  wait_for_confirmation, wait_on, paused, checkpointed, complete_task, complete_found, completed,
}
use agentnexus.Tasks.Follows.{
  Follows, TaskCall, create, append, wait, complete, task_exec, task_run, task_run-Lives,
}
use agentnexus.Tasks.Final.{finished_for_good}

abbrev asked : CreateTaskRunInput
asked = record { enterprise_id = "acme"; actor_user_id = "ada"; request_id = "r1"; trace_id = "" }

abbrev step : AppendTaskStepInput
step = record {
  enterprise_id = "acme";
  task_run_id = "t1";
  name = "fetch";
  status = other_status "";
  input_hash = "";
  output_hash = "";
}

abbrev pause : WaitForConfirmationInput
pause = record { enterprise_id = "acme"; task_run_id = "t1"; reason = "check" }

abbrev done : CompleteTaskInput
done = record { enterprise_id = "acme"; task_run_id = "t1"; status = succeeded }

abbrev empty : Tasks
empty = record { runs = []; steps = []; checkpoints = []; sent = [] }

abbrev calls : List TaskCall
calls =
    create "t1" 1 1 asked
    ∷ append "s1" 2 2 2 step
    ∷ wait "c1" 3 3 3 pause
    ∷ append "s2" 4 4 4 step
    ∷ complete 5 5 done
    ∷ []

abbrev begun : List TaskCall
begun = create "t1" 1 1 asked ∷ []

abbrev finished : Tasks
finished = record empty {
  runs = (task_key "acme" "t1", moved (new_run "t1" 1 asked) succeeded 5) ∷ [];
}

-- the calls take the run through running and waiting to its end
calls_end :
    lookup (task_key "acme" "t1") (task_run none calls empty).runs
    ≡ some (moved (new_run "t1" 1 asked) succeeded 5)
unfolding task_run task_exec create_task_run append_task_step append_to step_stored step_updated
    wait_for_confirmation wait_on paused checkpointed complete_task complete_found completed
    announce put_step put_checkpoint update_task_run_status lookup insert can_transition is_terminal
    is_known_status
calls_end = refl

unused : lookup (task_key "acme" "t1") empty.runs ≡ none
unfolding lookup
unused = refl

task_run-Lives_example : Grows Follows empty.runs (task_run none calls empty).runs
task_run-Lives_example = task_run-Lives none calls empty (unused, (tt, (tt, (tt, (tt, tt)))))

found :
    lookup (task_key "acme" "t1") finished.runs ≡ some (moved (new_run "t1" 1 asked) succeeded 5)
unfolding lookup
found = refl

over : is_terminal succeeded ≡ true
unfolding is_terminal
over = refl

abbrev knocks : List TaskCall
knocks = append "s3" 6 6 6 step ∷ complete 7 7 done ∷ []

finished_for_good_example :
    let w' = task_run none knocks finished in
    let refused : Err = sentinel invalid_task_transition in
    (later : TaskRun) × (lookup (task_key "acme" "t1") w'.runs ≡ some later)
    × (later.status ≡ succeeded)
    × (complete_task none 8 9 done w' ≡ (err refused, w'))
    × (wait_for_confirmation none "x" 8 8 9 pause w' ≡ (err refused, w'))
    × (append_task_step none "x" 8 8 9 step w' ≡ (err refused, w'))
finished_for_good_example =
    finished_for_good none knocks finished (moved (new_run "t1" 1 asked) succeeded 5) done pause
      step "x" 8 8 9 (tt, (tt, tt)) found over refl refl
