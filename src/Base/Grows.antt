-- ===== src/Base/Grows.antt =====
-- Two states of a `map[string]V`, compared row by row: every key of the first is in the second, with
-- values that a relation joins.
use mathlib.Core.Path.{◌≡◌, sym, ap, ◌∙◌, subst}
use mathlib.Core.Logic.{◌⊎◌, inl, inr}
use mathlib.Core.Option.{none, some}
use Prim.Native.String.{String}
use text.Mathlib.TextEquality.{eq_iff}
use agentnexus.Base.Tests.{◌=ₛ◌, Bool-cases}
use agentnexus.Base.Maps.{Dict, lookup, insert, lookup-insert}

module _ {ℓ κ} {V : Type ℓ} (R : V → V → Type κ) where
  pub record Grows (m m' : Dict V) : Type (ℓ ⊔ κ) where
    pub row :
        (key : String) (a : V) → lookup key m ≡ some a → (b : V) × (lookup key m' ≡ some b) × R a b

module _ {ℓ κ} {V : Type ℓ} {R : V → V → Type κ} where
  pub Grows-refl : ((a : V) → R a a) → (m : Dict V) → Grows R m m
  Grows-refl r m = record { row = λ key a h. (a, h, r a) }

  pub Grows-trans :
      ((a b c : V) → R a b → R b c → R a c)
      → {m m' m'' : Dict V} → Grows R m m'
      → Grows R m' m''
      → Grows R m m''
  Grows-trans t f g = record {
    row = λ key a h.
        let (b, hb, r) = f.row key a h in let (c, hc, r') = g.row key b hb in (c, hc, t a b c r r');
  }

module _ {ℓ κ} {V : Type ℓ} (R : V → V → Type κ) (r : (a : V) → R a a) where
  -- one row is rewritten to a related value
  module _ (m : Dict V) (key : String) (old v : V) (found : lookup key m ≡ some old)
      (step : R old v) where
    written_row :
        (k : String) (a : V)
        → lookup k m ≡ some a
        → (b : V) × (lookup k (insert key v m) ≡ some b) × R a b
    written_row k a h = elim (Bool-cases (key =ₛ k)) [
      | inl eq ↦
          let both : some old ≡ some a =
            sym found ∙ ap (λ j. lookup j m) ((eq_iff key k).0 eq) ∙ h in
          let row : old ≡ a = cc both in
          (v, rw (lookup-insert key k v m, eq), subst (λ x. R x v) row step)
      | inr ne ↦ (a, rw (lookup-insert key k v m, ne) h, r a)
    ]

    pub Grows-written : Grows R m (insert key v m)
    Grows-written = record { row = written_row }

  -- a row is added under an unused key
  module _ (m : Dict V) (key : String) (v : V) (unused : lookup key m ≡ none) where
    kept_row :
        (k : String) (a : V)
        → lookup k m ≡ some a
        → (b : V) × (lookup k (insert key v m) ≡ some b) × R a b
    kept_row k a h = elim (Bool-cases (key =ₛ k)) [
      | inl eq ↦
          let clash : none ≡ some a = sym unused ∙ ap (λ j. lookup j m) ((eq_iff key k).0 eq) ∙ h in
          cc clash
      | inr ne ↦ (a, rw (lookup-insert key k v m, ne) h, r a)
    ]

    pub Grows-added : Grows R m (insert key v m)
    Grows-added = record { row = kept_row }

-- a row that is read after a write is the written one or an old one
pub written_or_old {ℓ} :
    {V : Type ℓ} (key k : String) (v a : V) (m : Dict V)
    → lookup k (insert key v m) ≡ some a
    → ((key ≡ k) × (v ≡ a)) ⊎ (lookup k m ≡ some a)
written_or_old key k v a m h = elim (Bool-cases (key =ₛ k)) [
  | inl eq ↦
      let both : some v ≡ some a = sym (rw (lookup-insert key k v m, eq)) ∙ h in
      inl ((eq_iff key k).0 eq, cc both)
  | inr ne ↦ inr (sym (rw (lookup-insert key k v m, ne)) ∙ h)
]
