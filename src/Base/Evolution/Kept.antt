-- ===== src/Base/Evolution/Kept.antt =====
-- Stores whose entries all satisfy a predicate of the identifier and the entry.
use text.Mathlib.TextEquality.{eq_iff}
use cauco.Base.{
  ℕ, ◌≤◌, ◌<◌, ◌≡◌, false, String, str_append, some, ◌∙◌, sym, List, [], ◌∷◌, arith, Bool-cases,
  inl, inr, string_eq, ◌==◌, All,
}
use cauco.Base.Dict.{Dict, get, put, remove, values}
use cauco.Base.Dict.Laws.{
  Each, Each-put, Each-remove, Each-values, Unique, Unique-put, Unique-remove,
}
use cauco.Base.Environment.{Environment}
use cauco.Base.Evolution.{
  NeverRepeats, Preorder, Evolved, Evolved-tick, Evolved-trans, Evolved-put, Evolved-remove,
  Evolved-new,
}

module _ {V : Type 0} (P : String → V → Type 0) where
  -- Every entry satisfies `P`, and no key stands twice.
  pub record Kept (d : Dict String V) : Type 0 where
    pub each : Each P d
    pub unique : Unique d

  -- An evolution that ends in such a store.
  abbrev pub Keeps :
      (env : Environment) (prefix : String) (R : V → V → Type 0)
      → ℕ
      → Dict String V
      → ℕ
      → Dict String V
      → Type 0
  Keeps env prefix R n d n' d' = Evolved env prefix R n d n' d' × Kept d'

module _ (env : Environment) (prefix : String) {V : Type 0} {R : V → V → Type 0}
    (order : Preorder R) {P : String → V → Type 0} where
  pub Keeps-tick :
      (d : Dict String V) (n n' : ℕ) → Kept P d → n ≤ n' → Keeps P env prefix R n d n' d
  Keeps-tick d n n' kept later = (Evolved-tick env prefix order d n n' later, kept)

  pub Keeps-trans :
      {n m k : ℕ} {a b c : Dict String V}
      → Keeps P env prefix R n a m b
      → (Kept P b → Keeps P env prefix R m b k c)
      → Keeps P env prefix R n a k c
  Keeps-trans f g = let (e, kept) = g f.1 in (Evolved-trans env prefix order f.0 e, kept)

  pub Keeps-put :
      (d : Dict String V) (n : ℕ) (id : String) (v w : V)
      → Kept P d
      → get d id ≡ some v
      → R v w
      → P id w
      → Keeps P env prefix R n d n (put d id w)
  Keeps-put d n id v w kept found step good = (
    Evolved-put env prefix order d n id v w found step,
    record { each = Each-put P d id w kept.each good; unique = Unique-put d id w kept.unique },
  )

  pub Keeps-remove :
      (d : Dict String V) (n : ℕ) (id : String)
      → Kept P d
      → Keeps P env prefix R n d n (remove d id)
  Keeps-remove d n id kept = (
    Evolved-remove env prefix order d n id,
    record { each = Each-remove P d id kept.each; unique = Unique-remove d id kept.unique },
  )

  pub Keeps-new :
      NeverRepeats env
      → (d : Dict String V) (n k n' : ℕ) (v : V) → Kept P d
      → n ≤ k
      → k < n'
      → P (str_append prefix (env.token k)) v
      → Keeps P env prefix R n d n' (put d (str_append prefix (env.token k)) v)
  Keeps-new distinct d n k n' v kept from till good =
      let id = str_append prefix (env.token k) in
      (
        Evolved-new env prefix order distinct d n k n' v from till,
        record { each = Each-put P d id v kept.each good; unique = Unique-put d id v kept.unique },
      )

-- A list of entries with an identifier each.
module _ {V : Type 0} (id_of : V → String) where
  -- No identifier stands twice.
  abbrev pub Apart : List V → Type 0
  Apart [] = Unit
  Apart (v ∷ vs) = All (λ w. (id_of v == id_of w) ≡ false) vs × Apart vs

  pub values-Apart :
      (d : Dict String V) → Unique d → Each (λ id v. id_of v ≡ id) d → Apart (values d)
  unfolding get
  values-Apart [] unique own = tt
  values-Apart ((k, v) ∷ d) unique own =
      let rest : Each (λ id w. id_of w ≡ id) d =
        λ j w q. own j w (ground (arith, eq_iff k j, unique.0)) in
      let here : id_of v ≡ k = own k v (ground (arith, eq_iff k k)) in
      (
        Each-values (λ w. (id_of v == id_of w) ≡ false) d unique.1
            λ j w q. elim (Bool-cases (id_of v == id_of w)) [
              | inl same ↦
                  let keys : k ≡ j = sym here ∙ (eq_iff (id_of v) (id_of w)).0 same ∙ rest j w q in
                  absurd (cc (unique.0, q, keys))
              | inr differ ↦ differ
            ],
        values-Apart d unique.1 rest,
      )
