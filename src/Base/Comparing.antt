-- ===== src/Base/Comparing.antt =====
-- Decidable equality as an interface: the keys of a dictionary, and texts.
use Prim.Native.Nat.{ℕ}
use Prim.Native.String.{String}
use mathlib.Core.Path.{◌≡◌, ap}
use mathlib.Core.Logic.{◌↔◌}
use mathlib.Core.Bool.{Bool, true, ◌&&◌}
use native.Mathlib.Omega.{arith}
use text.Mathlib.Text.{◌==◌ as str_eq}
use text.Mathlib.TextEquality.{eq_iff}
use cauco.Base.Tests.{nat_beq, nat_beq_iff, &&-true}

-- A test whose answer `true` stands for a path.
pub record Equality {ℓ} (K : Type ℓ) : Type ℓ where
  pub is_same : K → K → Bool
  pub same_iff : (j k : K) → (is_same j k ≡ true) ↔ (j ≡ k)

-- The keys of the program are texts, numbers and pairs of them.
instance abbrev pub string_eq : Equality String
string_eq = record { is_same = λ s t. str_eq s t; same_iff = λ s t. eq_iff s t }

instance abbrev pub nat_eq : Equality ℕ
nat_eq = record { is_same = λ m n. nat_beq m n; same_iff = λ m n. nat_beq_iff m n }

infix 50 ◌==◌
abbrev pub ◌==◌ {ℓ} : {K : Type ℓ} ⦃test : Equality K⦄ → K → K → Bool
◌==◌ ⦃test⦄ j k = test.is_same j k

module _ {ℓ} {J K : Type ℓ} ⦃left : Equality J⦄ ⦃right : Equality K⦄ where
  abbrev pub pair_is_same : J × K → J × K → Bool
  pair_is_same p q = left.is_same p.0 q.0 && right.is_same p.1 q.1

  pub pair_same_iff : (p q : J × K) → (pair_is_same p q ≡ true) ↔ (p ≡ q)
  pair_same_iff p q = (
    λ h.
        let (x, y) = &&-true h in
        λ i. ((left.same_iff p.0 q.0).0 x i, (right.same_iff p.1 q.1).0 y i),
    λ e. ground (
      arith,
      (left.same_iff p.0 q.0).1 (ap (λ r. r.0) e),
      (right.same_iff p.1 q.1).1 (ap (λ r. r.1) e),
    ),
  )

  instance abbrev pub pair_eq : Equality (J × K)
  pair_eq = record { is_same = pair_is_same; same_iff = pair_same_iff }
