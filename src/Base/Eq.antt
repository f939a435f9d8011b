-- ===== src/Base/Eq.antt =====
-- Go's `==` on the keys of a map: numbers and texts.
use Prim.Native.Nat.{ℕ}
use Prim.Native.String.{String}
use mathlib.Core.Path.{◌≡◌}
use mathlib.Core.Logic.{◌↔◌}
use mathlib.Core.Bool.{Bool, true}
use text.Mathlib.Text.{◌==◌ as text_test}
use text.Mathlib.TextEquality.{eq_iff}
use neo4j_go_driver.Base.Tests.{nat_beq, nat_beq_iff}

pub record Comparable {κ} (K : Type κ) : Type κ where
  pub same : K → K → Bool
  pub same_iff : (j k : K) → (same j k ≡ true) ↔ (j ≡ k)

instance abbrev pub name_comparable : Comparable String
name_comparable = record { same = text_test; same_iff = eq_iff }

instance abbrev pub id_comparable : Comparable ℕ
id_comparable = record { same = nat_beq; same_iff = nat_beq_iff }

infix 50 ◌==◌
abbrev pub ◌==◌ {κ} : {K : Type κ} ⦃c : Comparable K⦄ → K → K → Bool
◌==◌ ⦃c⦄ j k = c.same j k
