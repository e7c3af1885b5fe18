-- ===== src/Base/Pairs.antt =====
-- Two lists of one length whose elements are related place by place.
use cauco.Base.{ℕ, zero, suc, ◌≡◌, refl, some, List, [], ◌∷◌, map, set, get_elem?}
use mathlib.Core.Path.{subst}

module _ {ℓ} {A : Type ℓ} (R : A → A → Type 0) where
  abbrev pub Pairs : List A → List A → Type 0
  Pairs [] [] = Unit
  Pairs (x ∷ xs) (y ∷ ys) = R x y × Pairs xs ys
  Pairs _ _ = ⊥

  pub Pairs-refl : ((x : A) → R x x) → (xs : List A) → Pairs xs xs
  Pairs-refl r [] = tt
  Pairs-refl r (x ∷ xs) = (r x, Pairs-refl r xs)

  pub Pairs-set :
      ((x : A) → R x x)
      → (xs : List A) (i : ℕ) (x y : A) → get_elem? xs i ≡ some x
      → R x y
      → Pairs xs (set xs i y)
  Pairs-set r [] i x y e h = tt
  Pairs-set r (z ∷ xs) zero x y e h =
      let same : x ≡ z = cc in (subst (λ w. R w y) same h, Pairs-refl r xs)
  Pairs-set r (z ∷ xs) (suc i) x y e h = (r z, Pairs-set r xs i x y e h)

  pub Pairs-map : (f : A → A) → ((x : A) → R x (f x)) → (xs : List A) → Pairs xs (map f xs)
  Pairs-map f h [] = tt
  Pairs-map f h (x ∷ xs) = (h x, Pairs-map f h xs)

  -- The element at a place, and the one that it became.
  pub Pairs-get_elem? :
      (xs ys : List A) (i : ℕ) (x : A)
      → Pairs xs ys
      → get_elem? xs i ≡ some x
      → (y : A) × (get_elem? ys i ≡ some y) × R x y
  Pairs-get_elem? [] ys i x p e = cc
  Pairs-get_elem? (z ∷ xs) [] i x p e = elim p [ ]
  Pairs-get_elem? (z ∷ xs) (y ∷ ys) zero x p e =
      let same : z ≡ x = cc in (y, refl, subst (λ w. R w y) same p.0)
  Pairs-get_elem? (z ∷ xs) (y ∷ ys) (suc i) x p e = Pairs-get_elem? xs ys i x p.1 e
