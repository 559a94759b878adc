-- ===== src/Actions/Store/Backing.antt =====
-- What a grant is to its action in each status, and how a grant may change.
use agentnexus.Base.{
  Bool, true, false, Option, none, some, ◌≡◌, refl, sym, ◌∙◌, ap, ◌⊎◌, inl, inr, arith, ◌<◌,
}
use agentnexus.Runtime.Types.{
  ActionStatus, requested, awaiting_approval, granted, dispatched, executing, succeeded, failed,
  result_unknown, reconciling, compensating, human_takeover, other,
}
use agentnexus.Actions.Lifecycle.{can_transition}
use agentnexus.Actions.Model.{Action, Grant}
use agentnexus.Actions.Store.{consumed_grant}

-- The grant authorizes exactly this action's operation, once.
pub record Binds (a : Action) (g : Grant) : Type 0 where
  pub ref : g.grant_ref ≡ a.grant_ref
  pub capability : g.capability ≡ a.capability
  pub parameter_hash : g.parameter_hash ≡ a.parameter_hash
  pub business_context_ref : g.business_context_ref ≡ a.business_context_ref
  pub one_use : g.one_use ≡ true

abbrev pub Unconsumed : Action → Option Grant → Type 0
Unconsumed a none = ⊥
Unconsumed a (some g) = Binds a g × (g.consumed_at ≡ 0)

abbrev pub Consumed : Action → Option Grant → Type 0
Consumed a none = ⊥
Consumed a (some g) = Binds a g × (0 < g.consumed_at)

-- A grant that is there authorizes exactly this action's operation.
abbrev pub Loose : Action → Option Grant → Type 0
Loose a none = Unit
Loose a (some g) = Binds a g

abbrev pub Backing : ActionStatus → Action → Option Grant → Type 0
Backing requested a g = g ≡ none
Backing awaiting_approval a g = g ≡ none
Backing granted a g = Unconsumed a g
Backing dispatched a g = Consumed a g
Backing executing a g = Consumed a g
Backing succeeded a g = Consumed a g
Backing result_unknown a g = Consumed a g
Backing reconciling a g = Consumed a g
Backing _ a g = Loose a g

-- A status that neither needs a fresh grant nor consumes one.
abbrev pub settles : ActionStatus → Bool
settles executing = true
settles succeeded = true
settles failed = true
settles result_unknown = true
settles reconciling = true
settles compensating = true
settles human_takeover = true
settles _ = false

-- Whatever the status, a grant that is there is bound to the operation.
Backing-Loose : (s : ActionStatus) (a : Action) (g : Option Grant) → Backing s a g → Loose a g
Backing-Loose s a none h = tt
Backing-Loose requested a (some g) h = cc h
Backing-Loose awaiting_approval a (some g) h = cc h
Backing-Loose granted a (some g) h = h.0
Backing-Loose dispatched a (some g) h = h.0
Backing-Loose executing a (some g) h = h.0
Backing-Loose succeeded a (some g) h = h.0
Backing-Loose result_unknown a (some g) h = h.0
Backing-Loose reconciling a (some g) h = h.0
Backing-Loose failed a (some g) h = h
Backing-Loose compensating a (some g) h = h
Backing-Loose human_takeover a (some g) h = h
Backing-Loose (other _) a (some g) h = h

module _ (a b : Action) (ref : b.grant_ref ≡ a.grant_ref) (capability : b.capability ≡ a.capability)
    (parameters : b.parameter_hash ≡ a.parameter_hash)
    (context : b.business_context_ref ≡ a.business_context_ref) where
  Consumed-moved : (g : Option Grant) → Consumed a g → Consumed b g
  Consumed-moved none h = h
  Consumed-moved (some g) h = ground arith

  Loose-moved : (g : Option Grant) → Loose a g → Loose b g
  Loose-moved none h = tt
  Loose-moved (some g) h = ground arith

  -- The backing survives an edge to a settling status.
  pub Backing-moved :
      (s t : ActionStatus) (g : Option Grant)
      → can_transition s t ≡ true
      → settles t ≡ true
      → Backing s a g
      → Backing t b g
  unfolding can_transition
  Backing-moved dispatched executing g e p h = Consumed-moved g h
  Backing-moved dispatched succeeded g e p h = Consumed-moved g h
  Backing-moved dispatched result_unknown g e p h = Consumed-moved g h
  Backing-moved executing succeeded g e p h = Consumed-moved g h
  Backing-moved executing result_unknown g e p h = Consumed-moved g h
  Backing-moved result_unknown reconciling g e p h = Consumed-moved g h
  Backing-moved reconciling succeeded g e p h = Consumed-moved g h
  Backing-moved s failed g e p h = Loose-moved g (Backing-Loose s a g h)
  Backing-moved s compensating g e p h = Loose-moved g (Backing-Loose s a g h)
  Backing-moved s human_takeover g e p h = Loose-moved g (Backing-Loose s a g h)
  Backing-moved s t g e p h = cc

-- A grant stays the one that it is; only the time of its use is set, once.
pub record GrantKept (a b : Grant) : Type 0 where
  pub same : b ≡ consumed_grant a b.consumed_at
  pub once : (b.consumed_at ≡ a.consumed_at) ⊎ (a.consumed_at ≡ 0)

pub GrantKept-refl : (a : Grant) → GrantKept a a
GrantKept-refl a = record { same = refl; once = inl refl }

pub GrantKept-trans : (a b c : Grant) → GrantKept a b → GrantKept b c → GrantKept a c
GrantKept-trans a b c h k = record {
  same = k.same ∙ ap (λ g. consumed_grant g c.consumed_at) h.same;
  once = elim k.once [
    | inl e ↦ elim h.once [ inl e' ↦ inl (e ∙ e') | inr unset ↦ inr unset ]
    | inr unset ↦ elim h.once [ inl e' ↦ inr (sym e' ∙ unset) | inr unset' ↦ inr unset' ]
  ];
}
