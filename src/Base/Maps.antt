-- ===== src/Base/Maps.antt =====
-- Go's `map[string]V` as an association list: a read, a write, a `delete`, and their laws.
use Prim.Native.String.{String}
use mathlib.Core.Path.{◌≡◌, refl}
use mathlib.Core.Option.{Option, none, some}
use mathlib.Core.List.{List, [], ◌∷◌}
use native.Mathlib.Omega.{arith}
use text.Mathlib.TextEquality.{eq_iff}
use agentnexus.Base.Tests.{◌=ₛ◌, if◌then◌else◌}

abbrev pub Dict {ℓ} : Type ℓ → Type ℓ
Dict V = List (String × V)

module _ {ℓ} {V : Type ℓ} where
  -- `v, ok := m[k]`
  unfoldable pub lookup : String → Dict V → Option V
  lookup key [] = none
  lookup key (row ∷ rows) = if row.0 =ₛ key then some row.1 else lookup key rows

  -- `m[k] = v`
  unfoldable pub insert : String → V → Dict V → Dict V
  insert key value [] = (key, value) ∷ []
  insert key value (row ∷ rows) =
      if row.0 =ₛ key then (key, value) ∷ rows else row ∷ insert key value rows

  -- `delete(m, k)`
  unfoldable pub delete : String → Dict V → Dict V
  delete key [] = []
  delete key (row ∷ rows) = if row.0 =ₛ key then delete key rows else row ∷ delete key rows

  -- A write changes what is read under its own key alone.
  pub lookup-insert :
      (key asked : String) (value : V) (rows : Dict V)
      → lookup asked (insert key value rows)
        ≡ (if key =ₛ asked then some value else lookup asked rows)
  unfolding lookup insert
  lookup-insert key asked value [] = refl
  lookup-insert key asked value (row ∷ rows) =
      let rest = lookup-insert key asked value rows in
      ground (arith, rest, eq_iff row.0 asked, eq_iff row.0 key, eq_iff key asked)

  -- Nothing is read under a deleted key, and the other keys are as they were.
  pub lookup-delete :
      (key asked : String) (rows : Dict V)
      → lookup asked (delete key rows) ≡ (if key =ₛ asked then none else lookup asked rows)
  unfolding lookup delete
  lookup-delete key asked [] = ground arith
  lookup-delete key asked (row ∷ rows) =
      let rest = lookup-delete key asked rows in
      ground (arith, rest, eq_iff row.0 asked, eq_iff row.0 key, eq_iff key asked)
