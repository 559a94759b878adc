-- ===== src/Actions/Lifecycle/Paths.antt =====
-- The transition table as a graph: what the paths of state_machine.go can and cannot do.
use agentnexus.Base.{
  ℕ, ◌<◌, Bool, true, false, ◌≡◌, refl, sym, ◌≢◌, ◌↔◌, ◌⊎◌, inl, inr, some, arith,
}
use agentnexus.Runtime.Types.{
  ActionStatus, requested, awaiting_approval, granted, dispatched, executing, succeeded, failed,
  result_unknown, reconciling, compensating, human_takeover,
}
use agentnexus.Actions.Lifecycle.{can_transition, compensable, terminal_receipt_status}

-- The steps of a life: zero or more allowed edges.
infix 40 ◌⟶*◌
pub data ◌⟶*◌ : ActionStatus → ActionStatus → Type 0 where
  here : {s : ActionStatus} → s ⟶* s
  next : {s t u : ActionStatus} → s ⟶* t → can_transition t u ≡ true → s ⟶* u

-- How far along its life an action is: every edge moves it up.
abbrev pub stage : ActionStatus → ℕ
stage requested = 0
stage awaiting_approval = 1
stage granted = 2
stage dispatched = 3
stage executing = 4
stage result_unknown = 5
stage reconciling = 6
stage succeeded = 7
stage failed = 7
stage compensating = 8
stage human_takeover = 9
stage (ActionStatus.other text) = 10

stage-lt : (s t : ActionStatus) → can_transition s t ≡ true → stage s < stage t
unfolding can_transition
stage-lt s t h = ground arith

⟶*-stage : {s t : ActionStatus} → s ⟶* t → (s ≡ t) ⊎ (stage s < stage t)
⟶*-stage here = inl refl
⟶*-stage (next {s} {t} {u} p e) = elim (⟶*-stage p) [
  | inl same ↦ inr (subst_stage same)
  | inr lower ↦ inr (omega (arith, stage-lt t u e))
]
  where
    subst_stage : s ≡ t → stage s < stage u
    subst_stage same = rw same (stage-lt t u e)

-- No life returns to a status that it has left: two statuses with a path each way are equal.
pub ⟶*_antisym : {s t : ActionStatus} → s ⟶* t → t ⟶* s → s ≡ t
⟶*_antisym p q = elim (⟶*-stage p) [
  | inl same ↦ same
  | inr lower ↦ elim (⟶*-stage q) [ inl same ↦ sym same | inr upper ↦ absurd (omega arith) ]
]

-- A side effect may have run, or its outcome is being determined.
abbrev pub past_dispatch : ActionStatus → Bool
past_dispatch dispatched = true
past_dispatch executing = true
past_dispatch succeeded = true
past_dispatch result_unknown = true
past_dispatch reconciling = true
past_dispatch _ = false

-- The life goes through the status.
abbrev pub Visits : {s t : ActionStatus} → s ⟶* t → ActionStatus → Type 0
Visits {s} here x = s ≡ x
Visits (next {u = u} p e) x = Visits p x ⊎ (u ≡ x)

end-Visits : {s t x : ActionStatus} (p : s ⟶* t) → t ≡ x → Visits p x
end-Visits here same = same
end-Visits (next p e) same = inr same

past_dispatch-step :
    (t u : ActionStatus)
    → can_transition t u ≡ true
    → past_dispatch u ≡ true
    → (past_dispatch t ≡ true) ⊎ ((t ≡ granted) × (u ≡ dispatched))
unfolding can_transition
past_dispatch-step t u e h = ground arith

-- A life that starts as requested and has come past the dispatch has itself gone through
-- `granted` and through `dispatched`.
pub dispatch_on_path :
    {t : ActionStatus} (p : requested ⟶* t)
    → past_dispatch t ≡ true
    → Visits p granted × Visits p dispatched
dispatch_on_path here h = cc
dispatch_on_path (next {t} {u} p e) h = elim (past_dispatch-step t u e h) [
  | inl past ↦ let (a, c) = dispatch_on_path p past in (inl a, inl c)
  | inr (from, to) ↦ (inl (end-Visits p from), inr to)
]

-- The statuses from which a receipt has not been seen to settle the outcome.
abbrev unsettled : ActionStatus → Bool
unsettled result_unknown = true
unsettled compensating = true
unsettled human_takeover = true
unsettled _ = false

unsettled-step :
    (t u : ActionStatus)
    → can_transition t u ≡ true
    → unsettled t ≡ true
    → (unsettled u ≡ true) ⊎ (u ≡ reconciling)
unfolding can_transition
unsettled-step t u e h = ground arith

unsettled_path :
    {t : ActionStatus} (p : result_unknown ⟶* t) → (unsettled t ≡ true) ⊎ Visits p reconciling
unsettled_path here = inl refl
unsettled_path (next {t} {u} p e) = elim (unsettled_path p) [
  | inr rest ↦ inr (inl rest)
  | inl loose ↦ elim (unsettled-step t u e loose) [ inl still ↦ inl still | inr to ↦ inr (inr to) ]
]

settled : (t : ActionStatus) → unsettled t ≡ true → terminal_receipt_status t ≡ some t → ⊥
unfolding terminal_receipt_status
settled t loose h = ground arith

-- Every life that starts from an unknown result and ends in success or failure goes through
-- `reconciling`.
pub result_unknown_needs_reconciling :
    {t : ActionStatus} (p : result_unknown ⟶* t)
    → terminal_receipt_status t ≡ some t
    → Visits p reconciling
result_unknown_needs_reconciling {t} p h = elim (unsettled_path p) [
  | inr rest ↦ rest
  | inl loose ↦ absurd (settled t loose h)
]

-- A compensation can be entered from exactly the compensable statuses other than `reconciling`.
pub compensating_iff :
    (s : ActionStatus)
    → (can_transition s compensating ≡ true) ↔ ((compensable s ≡ true) × (s ≢ reconciling))
unfolding can_transition compensable
compensating_iff s = ground arith
