-- ===== src/Base/Environment.antt =====
-- What the stores ask of the outside: the injected clock and `secrets.token_urlsafe`.
use cauco.Base.{ℕ, String}

-- The answers to the calls, numbered in the order in which they are made.
pub record Environment : Type 0 where
  pub clock : ℕ → ℕ
  pub token : ℕ → String
