-- ===== src/Actions/Safety/Kept.antt =====
-- The state that an operation leaves behind, compared with the store that it found: every action
-- is still there, moved along allowed edges only, and every action is backed by its grant;
-- every grant is still there, and none is used twice.
use agentnexus.Base.{ℕ, ◌≤◌, ◌≡◌, refl, sym, subst, arith}
use agentnexus.Errors.{Result, ok, err}
use agentnexus.Actions.Store.{MemoryStore}
use agentnexus.Actions.Store.Evolves.{Evolves, Evolves-refl, Evolves-trans}
use agentnexus.Base.Grows.{Grows, Grows-refl, Grows-trans}
use agentnexus.Actions.Store.Backing.{GrantKept, GrantKept-refl, GrantKept-trans}
use agentnexus.Actions.Store.Backed.{IsBacked, Holds}
use agentnexus.Actions.World.{World, M, ◌>>=◌, carry_on}
use agentnexus.Actions.Steps.{on_store}
use agentnexus.Actions.Safety.Quiet.{IsQuiet, Quiet}

pub record Kept (s : MemoryStore) (w : World) : Type 0 where
  pub evolves : Evolves s.actions w.store.actions
  pub backed : IsBacked w.store
  pub grants : Grows GrantKept s.grants w.store.grants

pub Kept-same : (w : World) → IsBacked w.store → Kept w.store w
Kept-same w h = record {
  evolves = Evolves-refl w.store.actions;
  backed = h;
  grants = Grows-refl GrantKept-refl w.store.grants;
}

pub Kept_trans : {s : MemoryStore} {w w' : World} → Kept s w → Kept w.store w' → Kept s w'
Kept_trans k k' = record {
  evolves = Evolves-trans k.evolves k'.evolves;
  backed = k'.backed;
  grants = Grows-trans GrantKept-trans k.grants k'.grants;
}

-- The store is the one that the operation found, and n identifiers at least were drawn.
pub record Unmoved (s : MemoryStore) (n : ℕ) (w : World) : Type 0 where
  pub store : w.store ≡ s
  pub drawn : n ≤ w.env.minted

pub Unmoved-start : (w : World) → Unmoved w.store w.env.minted w
Unmoved-start w = ground arith

pub Unmoved-quiet :
    {s : MemoryStore} {n : ℕ} {w w' : World} → Unmoved s n w → IsQuiet w w' → Unmoved s n w'
Unmoved-quiet u q = ground arith

module _ {s : MemoryStore} (h : IsBacked s) where
  pub Kept_unmoved : {n : ℕ} {w : World} → Unmoved s n w → Kept s w
  Kept_unmoved {w} u =
      subst (λ (r : MemoryStore). Kept r w) u.store (Kept-same w (subst IsBacked (sym u.store) h))

  module _ {n : ℕ} {A B : Type 0} (m : M A) (f : A → M B) (w : World) where
    -- a quiet step, then the rest, which may use what the step answered
    pub quiet_then :
        Quiet m
        → Unmoved s n w
        → ((a : A) (w' : World) → (m w).0 ≡ ok a → Unmoved s n w' → Kept s (f a w').1)
        → Kept s ((m >>= f) w).1
    unfolding ◌>>=◌
    quiet_then q u rest = go (m w).0 refl
      where
        moved : Unmoved s n (m w).1
        moved = Unmoved-quiet u (q.at w)

        go : (r : Result A) → (m w).0 ≡ r → Kept s (carry_on r f (m w).1).1
        go (ok a) e = rest a (m w).1 e moved
        go (err x) e = Kept_unmoved moved

  pub stored :
      {n : ℕ} {A : Type 0} (f : MemoryStore → Result A × MemoryStore) (w : World)
      → Unmoved s n w
      → Evolves s.actions (f s).1.actions
      → Holds s (f s).1
      → Kept s (on_store f w).1
  unfolding on_store
  stored f w u e b = record {
    evolves = subst (λ r. Evolves s.actions (f r).1.actions) (sym u.store) e;
    backed = subst (λ r. IsBacked (f r).1) (sym u.store) b.backed;
    grants = subst (λ r. Grows GrantKept s.grants (f r).1.grants) (sym u.store) b.grants;
  }

module _ {s : MemoryStore} {A B : Type 0} (m : M A) (f : A → M B) (w : World) where
  -- a step that may write, then a rest that keeps what it finds
  pub kept_then :
      Kept s (m w).1
      → ((a : A) (w' : World) → Kept s w' → Kept s (f a w').1)
      → Kept s ((m >>= f) w).1
  unfolding ◌>>=◌
  kept_then k rest = go (m w).0
    where
      go : (r : Result A) → Kept s (carry_on r f (m w).1).1
      go (ok a) = rest a (m w).1 k
      go (err x) = k
