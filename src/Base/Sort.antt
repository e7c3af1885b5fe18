-- ===== src/Base/Sort.antt =====
-- Python's `sorted`: a stable sort by a strict order on the keys.
pub mod Laws
pub mod Least
use cauco.Base.{Bool, List, [], ◌∷◌, if◌then◌else◌}

module _ {ℓ} {A : Type ℓ} where
  -- An equal element that comes later stays later.
  unfoldable pub insert : (A → A → Bool) → A → List A → List A
  insert lt x [] = x ∷ []
  insert lt x (y ∷ ys) = let rest = insert lt x ys in if lt y x then y ∷ rest else x ∷ y ∷ ys

  -- `sorted(xs)` under `lt`; `sorted(xs, reverse=True)` is the sort under the reversed order.
  unfoldable pub sorted : (A → A → Bool) → List A → List A
  unfolding insert
  sorted lt [] = []
  sorted lt (x ∷ xs) = insert lt x (sorted lt xs)

  abbrev pub reversed : (A → A → Bool) → A → A → Bool
  reversed lt a b = lt b a
