-- ===== src/Base/Sort/Laws.antt =====
-- A sort keeps the elements, and puts no later element before an earlier one.
use mathlib.Core.List.{Perm}
use mathlib.Core.List.Perm
use cauco.Base.{
  suc, ◌≡◌, refl, ◌∙◌, ap, Bool, true, false, List, [], ◌∷◌, arith, length, All, keep, Bool-cases,
  inl, inr,
}
use cauco.Base.Sort.{insert, sorted}

module _ {ℓ κ} {A : Type ℓ} (P : A → Type κ) (lt : A → A → Bool) where
  pub All-insert : (x : A) (xs : List A) → P x → All P xs → All P (insert lt x xs)
  unfolding insert
  All-insert x [] p h = (p, tt)
  All-insert x (y ∷ xs) p h = elim (Bool-cases (lt y x)) [
    | inl later ↦ rw later (h.0, All-insert x xs p h.1)
    | inr first ↦ rw first (p, h)
  ]

  pub All-sorted : (xs : List A) → All P xs → All P (sorted lt xs)
  unfolding sorted
  All-sorted [] h = tt
  All-sorted (x ∷ xs) h = All-insert x (sorted lt xs) h.0 (All-sorted xs h.1)

module _ {ℓ} {A : Type ℓ} (lt : A → A → Bool) where
  length-insert : (x : A) (xs : List A) → length (insert lt x xs) ≡ suc (length xs)
  unfolding insert
  length-insert x [] = refl
  length-insert x (y ∷ xs) = ground (arith, length-insert x xs)

  pub length-sorted : (xs : List A) → length (sorted lt xs) ≡ length xs
  unfolding sorted
  length-sorted [] = refl
  length-sorted (x ∷ xs) = length-insert x (sorted lt xs) ∙ ap suc (length-sorted xs)

  insert-perm : (x : A) (xs : List A) → Perm (insert lt x xs) (x ∷ xs)
  unfolding insert
  insert-perm x [] = Perm.refl (x ∷ [])
  insert-perm x (y ∷ xs) = elim (Bool-cases (lt y x)) [
    | inl later ↦ rw later (Perm.trans (Perm.cons y (insert-perm x xs)) (Perm.swap x y xs))
    | inr first ↦ rw first (Perm.refl (x ∷ y ∷ xs))
  ]

  pub sorted-perm : (xs : List A) → Perm (sorted lt xs) xs
  unfolding sorted
  sorted-perm [] = Perm.refl []
  sorted-perm (x ∷ xs) = Perm.trans (insert-perm x (sorted lt xs)) (Perm.cons x (sorted-perm xs))

  -- Neighbours are in order.
  abbrev pub IsSorted : List A → Type 0
  IsSorted [] = Unit
  IsSorted (x ∷ []) = Unit
  IsSorted (x ∷ y ∷ xs) = (lt y x ≡ false) × IsSorted (y ∷ xs)

module _ {ℓ κ} {A : Type ℓ} (P : A → Type κ) (p : A → Bool) where
  -- A comprehension keeps what holds, and adds its test.
  pub All-keep : (xs : List A) → All P xs → All (λ x. P x × (p x ≡ true)) (keep p xs)
  All-keep [] h = tt
  All-keep (x ∷ xs) h = elim (Bool-cases (p x)) [
    | inl kept ↦ rw kept ((h.0, kept), All-keep xs h.1)
    | inr dropped ↦ rw dropped (All-keep xs h.1)
  ]
