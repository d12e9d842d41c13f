-- ===== src/Common/Select.antt =====
-- `match x { k => v, …, _ => d }` on numbers, as a list of arms.
use Prim.Native.Nat.{ℕ}
use mathlib.Core.List.{List, [], ◌∷◌}
use riapyx.Common.Tests.{◌==◌, if◌then◌else◌, Bool-cases}
use mathlib.Core.Logic.{inl, inr}

-- One arm and the rest.
infixr 3 ◌also◌
abbrev pub ◌also◌ {ℓ κ} : {A : Type ℓ} {B : Type κ} → A → B → A × B
p also q = (p, q)

module _ {ℓ} {A : Type ℓ} where
  abbrev pub select : ℕ → List (ℕ × A) → A → A
  select x [] d = d
  select x ((k, v) ∷ arms) d = if x == k then v else select x arms d

  -- `P` holds of the value of every arm.
  abbrev pub AllArms : (A → Type 0) → List (ℕ × A) → Type 0
  AllArms P [] = Unit {0}
  AllArms P ((k, v) ∷ arms) = P v × AllArms P arms

  pub select-AllArms :
      (P : A → Type 0) (x : ℕ) (arms : List (ℕ × A)) (d : A)
      → AllArms P arms
      → P d
      → P (select x arms d)
  select-AllArms P x [] d h p = p
  select-AllArms P x ((k, v) ∷ arms) d h p = elim (Bool-cases (x == k)) [
    | inl e ↦ rw e h.0
    | inr e ↦ rw e (select-AllArms P x arms d h.1 p)
  ]
