-- ===== src/Prelude/Enums.antt =====
-- Equality tests as an interface, and enumerations through their index.
use Prim.Native.Nat.{ℕ}
use Prim.Native.String.{String}
use mathlib.Core.Path.{◌≡◌, refl, sym, ap, ◌∙◌}
use mathlib.Core.Logic.{◌≢◌, ◌↔◌}
use mathlib.Core.Bool.{Bool, true, false}
use mathlib.Core.Option.{Option, none, some}
use native.Mathlib.Omega.{arith}
use text.Mathlib.Text.{◌==◌ as str_eq}
use text.Mathlib.TextEquality.{eq_iff}
use autonomous_agent_runtime.Prelude.Tests.{nat_eq, nat_eq_iff}

pub record Eq {ℓ} (A : Type ℓ) : Type ℓ where
  pub beq : A → A → Bool
  pub beq_iff : (a b : A) → (beq a b ≡ true) ↔ (a ≡ b)

module _ {ℓ} {A : Type ℓ} (index : A → ℕ) (of_index : ℕ → A)
    (recover : (a : A) → of_index (index a) ≡ a) where
  pub index_beq_iff : (a b : A) → (nat_eq (index a) (index b) ≡ true) ↔ (a ≡ b)
  index_beq_iff a b = (
    λ h. sym (recover a) ∙ ap of_index ((nat_eq_iff (index a) (index b)).0 h) ∙ recover b,
    λ e. (nat_eq_iff (index a) (index b)).1 (ap index e),
  )

instance abbrev pub string_instance : Eq String
string_instance = record { beq = str_eq; beq_iff = eq_iff }

infix 50 ◌==◌
abbrev pub ◌==◌ {ℓ} : {A : Type ℓ} ⦃e : Eq A⦄ → A → A → Bool
◌==◌ ⦃e⦄ = e.beq

instance abbrev pub nat_instance : Eq ℕ
nat_instance = record { beq = nat_eq; beq_iff = nat_eq_iff }

module _ {ℓ} {A : Type ℓ} ⦃e : Eq A⦄ where
  -- `expected is None or expected == value`
  abbrev pub unset_or_eq : Option A → A → Bool
  unset_or_eq none a = true
  unset_or_eq (some b) a = b == a

  pub ==-refl : (a : A) → (a == a) ≡ true
  ==-refl a = (e.beq_iff a a).1 refl

  pub ==-ne : (a b : A) → a ≢ b → (a == b) ≡ false
  ==-ne a b h = ground (arith, e.beq_iff a b)
