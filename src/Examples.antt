-- ===== src/Examples.antt =====
-- Concrete inputs for the theorems: an environment, and the tests of each component.
mod Executions
mod Previews
mod Memories
mod Decisions
mod Plans
mod Operations
mod Inputs
mod Outcomes
mod Creations
use cauco.Base.{ℕ, zero, suc, ◌+◌, ◌≡◌, refl, sym, ap, ◌∙◌, String, str_append, length, arith}
use cauco.Base.Ids.{codes}
use cauco.Base.Environment.{Environment}

-- The clock ticks, and each token is longer than the one before.
unfoldable pub tick_token : ℕ → String
tick_token zero = "0123456789_abcdefghijkl"
tick_token (suc n) = String.◌∷◌ "x" (tick_token n)

abbrev pub env : Environment
env = record { clock = λ n. n; token = tick_token }

length-tick_token : (n : ℕ) → length (codes (tick_token n)) ≡ 23 + n
unfolding tick_token codes
length-tick_token zero = refl
length-tick_token (suc n) = omega (arith, length-tick_token n)

pub tick_token-injective : (m n : ℕ) → tick_token m ≡ tick_token n → m ≡ n
tick_token-injective m n e =
    omega (arith, length-tick_token m, length-tick_token n, ap (λ t. length (codes t)) e)

abbrev pub digest : String
digest = "0123456789abcdef0123456789abcdef0123456789abcdef0123456789abcdef"
