-- ===== src/Base/Dict/Laws.antt =====
-- What a dictionary holds after a write or a removal, how large it is, and what its values are.
use mathlib.Core.Path.{subst}
use cauco.Base.{
  ◌+◌, ◌≤◌, ◌<◌, ◌≡◌, false, refl, ap, ◌∙◌, inl, inr, none, some, [], ◌∷◌, arith, Equality, ◌==◌,
  All, Bool-cases, if◌then◌else◌,
}
use cauco.Base.Dict.{Dict, get, put, remove, size, values}

module _ {ℓ} {K V : Type ℓ} ⦃e : Equality K⦄ where
  pub get-put :
      (d : Dict K V) (k : K) (v : V) (j : K)
      → get (put d k v) j ≡ (if k == j then some v else get d j)
  unfolding get put
  get-put [] k v j = refl
  get-put ((i, w) ∷ d) k v j =
      ground (arith, e.same_iff k j, e.same_iff i k, e.same_iff i j, get-put d k v j)

  pub get-remove :
      (d : Dict K V) (k j : K) → get (remove d k) j ≡ (if k == j then none else get d j)
  unfolding get remove
  get-remove [] k j = ground arith
  get-remove ((i, w) ∷ d) k j =
      ground (arith, e.same_iff k j, e.same_iff i k, e.same_iff i j, get-remove d k j)

  pub get-put_self : (d : Dict K V) (k : K) (v : V) → get (put d k v) k ≡ some v
  get-put_self d k v =
      get-put d k v k ∙ ap (λ b. if b then some v else get d k) ((e.same_iff k k).1 refl)

  pub size-put-le : (d : Dict K V) (k : K) (v : V) → size (put d k v) ≤ size d + 1
  unfolding put
  size-put-le [] k v = omega arith
  size-put-le ((i, w) ∷ d) k v = ground (arith, size-put-le d k v)

  pub size-put_old : (d : Dict K V) (k : K) (v w : V) → get d k ≡ some w → size (put d k v) ≡ size d
  unfolding get put
  size-put_old [] k v w h = cc
  size-put_old ((i, u) ∷ d) k v w h = ground (arith, size-put_old d k v w)

  pub size-remove-le : (d : Dict K V) (k : K) → size (remove d k) ≤ size d
  unfolding remove
  size-remove-le [] k = omega arith
  size-remove-le ((i, w) ∷ d) k = ground (arith, size-remove-le d k)

  pub size-remove_old :
      (d : Dict K V) (k : K) (w : V) → get d k ≡ some w → size (remove d k) < size d
  unfolding get remove
  size-remove_old [] k w h = cc
  size-remove_old ((i, u) ∷ d) k w h = ground (arith, size-remove_old d k w, size-remove-le d k)

  -- What is left after a removal is another entry, as it was.
  pub get_of_remove :
      (d : Dict K V) (k j : K) (v : V)
      → get (remove d k) j ≡ some v
      → ((k == j) ≡ false) × (get d j ≡ some v)
  get_of_remove d k j v h = elim (Bool-cases (k == j)) [
    | inl same ↦ absurd (cc (get-remove d k j, same))
    | inr other ↦ (other, cc (get-remove d k j, other))
  ]

  pub get-remove_ne :
      (d : Dict K V) (k j : K) (v : V)
      → ((k == j) ≡ false)
      → get d j ≡ some v
      → get (remove d k) j ≡ some v
  get-remove_ne d k j v other h = cc (get-remove d k j, other)

  -- Every entry that a lookup finds satisfies `P`.
  abbrev pub Each {κ} : (K → V → Type κ) → Dict K V → Type (ℓ ⊔ κ)
  Each P d = (k : K) (v : V) → get d k ≡ some v → P k v

  pub Each-put {κ} :
      (P : K → V → Type κ) (d : Dict K V) (k : K) (v : V) → Each P d → P k v → Each P (put d k v)
  Each-put P d k v h p j w q = elim (Bool-cases (k == j)) [
    | inl same ↦
        let here : k ≡ j = (e.same_iff k j).0 same in
        let new : v ≡ w = cc (get-put d k v j, same) in subst (λ i. P i w) here (subst (P k) new p)
    | inr other ↦ h j w (cc (get-put d k v j, other))
  ]

  pub Each-remove {κ} : (P : K → V → Type κ) (d : Dict K V) (k : K) → Each P d → Each P (remove d k)
  Each-remove P d k h j w q = elim (Bool-cases (k == j)) [
    | inl same ↦ absurd (cc (get-remove d k j, same))
    | inr other ↦ h j w (cc (get-remove d k j, other))
  ]

  -- No key stands twice: what a Python `dict` guarantees.
  abbrev pub Unique : Dict K V → Type ℓ
  Unique [] = Unit
  Unique ((k, v) ∷ d) = (get d k ≡ none) × Unique d

  pub Unique-put : (d : Dict K V) (k : K) (v : V) → Unique d → Unique (put d k v)
  unfolding put get
  Unique-put [] k v u = (refl, tt)
  Unique-put ((j, w) ∷ d) k v u = elim (Bool-cases (j == k)) [
    | inl same ↦ rw same u
    | inr other ↦
        rw other
          (ground (arith, get-put d k v j, e.same_iff k j, e.same_iff j k), Unique-put d k v u.1)
  ]

  pub Unique-remove : (d : Dict K V) (k : K) → Unique d → Unique (remove d k)
  unfolding remove get
  Unique-remove [] k u = u
  Unique-remove ((j, w) ∷ d) k u = elim (Bool-cases (j == k)) [
    | inl same ↦ rw same (Unique-remove d k u.1)
    | inr other ↦ rw other (ground (arith, get-remove d k j), Unique-remove d k u.1)
  ]

  -- What holds of every entry holds of every value.
  pub Each-values {κ} :
      (P : V → Type κ) (d : Dict K V) → Unique d → Each (λ k v. P v) d → All P (values d)
  unfolding get
  Each-values P [] u h = tt
  Each-values P ((k, v) ∷ d) u h = (
    h k v (ground (arith, e.same_iff k k)),
    Each-values P d u.1 λ j w q. h j w (ground (arith, e.same_iff k j, u.0)),
  )

module _ {ℓ κ} {K V : Type ℓ} ⦃e : Equality K⦄ (P : K → V → Type κ) where
  pub Each-empty : Each P []
  unfolding get
  Each-empty k v h = absurd (cc)

  pub Each-one : (k : K) (v : V) → P k v → Each P ((k, v) ∷ [])
  unfolding put
  Each-one k v p = Each-put P [] k v Each-empty p
