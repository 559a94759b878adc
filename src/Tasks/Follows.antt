-- ===== src/Tasks/Follows.antt =====
-- internal/tasks: the life of a task run under any calls of the orchestrator.
use agentnexus.Base.{
  String, true, none, List, [], ◌∷◌, ◌≡◌, refl, sym, ◌∙◌, subst, arith, inl, inr, Dict, lookup,
}
use agentnexus.Base.Grows.{Grows, Grows-refl, Grows-trans, Grows-written, Grows-added}
use agentnexus.Runtime.Types.{Time}
use agentnexus.Tasks.{
  TaskStatus, TaskRun, CreateTaskRunInput, AppendTaskStepInput, WaitForConfirmationInput,
  CompleteTaskInput, is_terminal, can_transition, Tasks, task_key, moved, Publisher,
}
use agentnexus.Tasks.Orchestrator.{
  create_task_run, append_task_step, wait_for_confirmation, complete_task,
}
use agentnexus.Tasks.Effects.{
  Advances, create_task_run_effect, append_task_step-Advances, wait_for_confirmation-Advances,
  complete_task-Advances,
}

-- zero or more edges of the task states
infix 40 ◌⇝◌
pub data ◌⇝◌ : TaskStatus → TaskStatus → Type 0 where
  stays : {s : TaskStatus} → s ⇝ s
  goes : {s t u : TaskStatus} → s ⇝ t → can_transition t u ≡ true → s ⇝ u

⇝-trans : {s t u : TaskStatus} → s ⇝ t → t ⇝ u → s ⇝ u
⇝-trans p stays = p
⇝-trans p (goes q e) = goes (⇝-trans p q) e

no_edge : (s t : TaskStatus) → is_terminal s ≡ true → can_transition s t ≡ true → ⊥
unfolding can_transition
no_edge s t over e = ground arith

-- A terminal status is never left.
pub ⇝-terminal : {s t : TaskStatus} → s ⇝ t → is_terminal s ≡ true → s ≡ t
⇝-terminal stays over = refl
⇝-terminal {s} (goes {t = t} {u} p e) over =
    let same = ⇝-terminal p over in
    absurd (no_edge t u (subst (λ x. is_terminal x ≡ true) same over) e)

-- A later state of a run: the same run, further along its life.
pub record Follows (a b : TaskRun) : Type 0 where
  pub id : b.id ≡ a.id
  pub enterprise_id : b.enterprise_id ≡ a.enterprise_id
  pub actor_user_id : b.actor_user_id ≡ a.actor_user_id
  pub created_at : b.created_at ≡ a.created_at
  pub path : a.status ⇝ b.status

pub Follows-refl : (a : TaskRun) → Follows a a
Follows-refl a = record {
  id = refl;
  enterprise_id = refl;
  actor_user_id = refl;
  created_at = refl;
  path = stays;
}

pub Follows-trans : (a b c : TaskRun) → Follows a b → Follows b c → Follows a c
Follows-trans a b c p q = record {
  id = q.id ∙ p.id;
  enterprise_id = q.enterprise_id ∙ p.enterprise_id;
  actor_user_id = q.actor_user_id ∙ p.actor_user_id;
  created_at = q.created_at ∙ p.created_at;
  path = ⇝-trans p.path q.path;
}

Follows-moved :
    (a : TaskRun) (to : TaskStatus) (now : Time)
    → can_transition a.status to ≡ true
    → Follows a (moved a to now)
Follows-moved a to now e = record {
  id = refl;
  enterprise_id = refl;
  actor_user_id = refl;
  created_at = refl;
  path = goes stays e;
}

abbrev pub Lives : Tasks → Tasks → Type 0
Lives w w' = Grows Follows w.runs w'.runs

pub Advances-Lives : (key : String) (m m' : Dict TaskRun) → Advances key m m' → Grows Follows m m'
Advances-Lives key m m' (inl same) = subst (Grows Follows m) (sym same) (Grows-refl Follows-refl m)
Advances-Lives key m m' (inr (run, to, now, found, may, written)) =
    subst (Grows Follows m) (sym written) (
      Grows-written Follows Follows-refl m key run (moved run to now) found
        (Follows-moved run to now may))

-- One call of the orchestrator, with what its clock and its generator of identifiers answer.
pub data TaskCall : Type 0 where
  create : (id : String) (now occurred : Time) (input : CreateTaskRunInput) → TaskCall
  append : (id : String) (now updated occurred : Time) (input : AppendTaskStepInput) → TaskCall
  wait : (id : String) (updated now occurred : Time) (input : WaitForConfirmationInput) → TaskCall
  complete : (updated occurred : Time) (input : CompleteTaskInput) → TaskCall

unfoldable pub task_exec : Publisher → TaskCall → Tasks → Tasks
task_exec p (create id now occurred input) w = (create_task_run p id now occurred input w).1
task_exec p (append id now updated occurred input) w =
    (append_task_step p id now updated occurred input w).1
task_exec p (wait id updated now occurred input) w =
    (wait_for_confirmation p id updated now occurred input w).1
task_exec p (complete updated occurred input) w = (complete_task p updated occurred input w).1

unfoldable pub task_run : Publisher → List TaskCall → Tasks → Tasks
task_run p [] w = w
task_run p (c ∷ cs) w = task_run p cs (task_exec p c w)

-- a run that is created is given an identifier that its enterprise does not use
abbrev pub IsFresh : TaskCall → Tasks → Type 0
IsFresh (create id now occurred input) w = lookup (task_key input.enterprise_id id) w.runs ≡ none
IsFresh _ w = Unit

abbrev pub AllFresh : Publisher → List TaskCall → Tasks → Type 0
AllFresh p [] w = Unit
AllFresh p (c ∷ cs) w = IsFresh c w × AllFresh p cs (task_exec p c w)

pub task_exec-Lives :
    (p : Publisher) (c : TaskCall) (w : Tasks) → IsFresh c w → Lives w (task_exec p c w)
unfolding task_exec
task_exec-Lives p (create id now occurred input) w fresh =
    subst (Grows Follows w.runs) (sym (create_task_run_effect p id now occurred input w))
      (Grows-added Follows Follows-refl w.runs (task_key input.enterprise_id id) _ fresh)
task_exec-Lives p (append id now updated occurred input) w fresh =
    Advances-Lives _ _ _ (append_task_step-Advances p id now updated occurred input w)
task_exec-Lives p (wait id updated now occurred input) w fresh =
    Advances-Lives _ _ _ (wait_for_confirmation-Advances p id updated now occurred input w)
task_exec-Lives p (complete updated occurred input) w fresh =
    Advances-Lives _ _ _ (complete_task-Advances p updated occurred input w)

-- Under any sequence of the orchestrator's calls that gives every new run an unused identifier,
-- and whatever the publisher answers: no task run is lost, every run keeps its identifier, its
-- enterprise, its actor and its time of creation, and its status moves along allowed transitions
-- only.
pub task_run-Lives :
    (p : Publisher) (cs : List TaskCall) (w : Tasks) → AllFresh p cs w → Lives w (task_run p cs w)
unfolding task_run
task_run-Lives p [] w fresh = Grows-refl Follows-refl w.runs
task_run-Lives p (c ∷ cs) w (first, rest) =
    Grows-trans Follows-trans (task_exec-Lives p c w first)
      (task_run-Lives p cs (task_exec p c w) rest)
