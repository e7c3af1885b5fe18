-- ===== src/Base/Sort/Least.antt =====
-- A sort puts an element with the least key first.
use mathlib.Core.Path.{subst}
use cauco.Base.{
  ℕ, ◌≤◌, ◌≡◌, Bool, true, false, List, [], ◌∷◌, arith, All, keep, Option, some, Bool-cases, inl,
  inr, Equality, ◌==◌,
}
use cauco.Base.Dict.{Dict, get, values}
use cauco.Base.Sort.{insert, sorted}
use cauco.Base.Sort.Laws.{All-insert}

module _ {ℓ κ} {A : Type ℓ} (P : A → Type κ) (lt : A → A → Bool) where
  All-of-insert : (x : A) (xs : List A) → All P (insert lt x xs) → P x × All P xs
  unfolding insert
  All-of-insert x [] h = h
  All-of-insert x (y ∷ ys) h = elim (Bool-cases (lt y x)) [
    | inl later ↦
        let kept : P y × All P (insert lt x ys) = rw later at h in
        let (p, ps) = All-of-insert x ys kept.1 in (p, (kept.0, ps))
    | inr first ↦ let kept : P x × (P y × All P ys) = rw first at h in kept
  ]

  -- What holds of what is sorted held before.
  pub All-of-sorted : (xs : List A) → All P (sorted lt xs) → All P xs
  unfolding sorted
  All-of-sorted [] h = tt
  All-of-sorted (x ∷ xs) h =
      let (p, ps) = All-of-insert x (sorted lt xs) h in (p, All-of-sorted xs ps)

module _ {ℓ κ} {A : Type ℓ} (P : A → Type κ) (p : A → Bool) where
  -- What holds of all that a comprehension keeps holds of all that pass its test.
  pub All-of-keep : (xs : List A) → All P (keep p xs) → All (λ x. p x ≡ true → P x) xs
  All-of-keep [] h = tt
  All-of-keep (x ∷ xs) h = elim (Bool-cases (p x)) [
    | inl kept ↦
        let both : P x × All P (keep p xs) = rw kept at h in (λ _. both.0, All-of-keep xs both.1)
    | inr dropped ↦
        let rest : All P (keep p xs) = rw dropped at h in
        (λ passes. absurd (cc (passes, dropped)), All-of-keep xs rest)
  ]

module _ {ℓ κ} {K V : Type ℓ} ⦃e : Equality K⦄ (P : V → Type κ) where
  -- What holds of all values holds of what a lookup finds.
  pub values-Each : (d : Dict K V) → All P (values d) → (k : K) (v : V) → get d k ≡ some v → P v
  unfolding get
  values-Each [] h k v found = absurd (cc)
  values-Each ((j, w) ∷ d) h k v found = elim (Bool-cases (j == k)) [
    | inl here ↦
        let same : ◌≡◌ {A = Option V} (some w) (some v) = rw here at found in
        let one : w ≡ v = cc in subst P one h.0
    | inr there ↦ values-Each d h.1 k v (rw there at found)
  ]

module _ {ℓ} {A : Type ℓ} (lt : A → A → Bool) (key : A → ℕ)
    (below : (a b : A) → lt a b ≡ true → key a ≤ key b)
    (above : (a b : A) → lt a b ≡ false → key b ≤ key a) where
  abbrev pub IsLeast : A → List A → Type 0
  IsLeast x xs = All (λ y. key x ≤ key y) xs

  -- Each element has the least key of those from it on.
  abbrev pub IsAscending : List A → Type 0
  IsAscending [] = Unit
  IsAscending (x ∷ xs) = IsLeast x xs × IsAscending xs

  IsLeast-trans : (x y : A) (zs : List A) → key x ≤ key y → IsLeast y zs → IsLeast x zs
  IsLeast-trans x y [] before h = tt
  IsLeast-trans x y (z ∷ zs) before h =
      (omega (arith, before, h.0), IsLeast-trans x y zs before h.1)

  insert-IsAscending : (x : A) (xs : List A) → IsAscending xs → IsAscending (insert lt x xs)
  unfolding insert
  insert-IsAscending x [] h = (tt, tt)
  insert-IsAscending x (y ∷ ys) h = elim (Bool-cases (lt y x)) [
    | inl later ↦
        rw later (
          All-insert (λ z. key y ≤ key z) lt x ys (below y x later) h.0,
          insert-IsAscending x ys h.1,
        )
    | inr first ↦
        let before : key x ≤ key y = above y x first in
        rw first ((before, IsLeast-trans x y ys before h.0), h)
  ]

  pub sorted-IsAscending : (xs : List A) → IsAscending (sorted lt xs)
  unfolding sorted
  sorted-IsAscending [] = tt
  sorted-IsAscending (x ∷ xs) = insert-IsAscending x (sorted lt xs) (sorted-IsAscending xs)
