-- ===== src/Base/Evolution.antt =====
-- A dictionary whose entries are made under identifiers that the environment issues, and change only
-- along a preorder: what the methods of such a store do to it, and that it composes.
pub mod Kept
use mathlib.Core.Path.{subst}
use text.Mathlib.TextEquality.{eq_iff}
use text.Mathlib.TextLemmas.{append_cancel_left}
use cauco.Base.{
  ℕ, ◌≤◌, ◌<◌, ◌≡◌, refl, ◌∙◌, String, str_append, false, none, some, arith, ◌⊎◌, inl, inr, ◌==◌,
  string_eq, Bool-cases,
}
use cauco.Base.Dict.{Dict, get, put, remove}
use cauco.Base.Dict.Laws.{get-put, get-remove, get_of_remove, get-remove_ne, Each, Each-put}
use cauco.Base.Environment.{Environment}

-- Identifiers with a prefix, as one of the first `n` calls of the environment issued them.
abbrev pub IsIssued : Environment → String → ℕ → String → Type 0
IsIssued env prefix n id = (m : ℕ) × (m < n) × (id ≡ str_append prefix (env.token m))

-- The token source never repeats itself.
abbrev pub NeverRepeats : Environment → Type 0
NeverRepeats env = (m n : ℕ) → env.token m ≡ env.token n → m ≡ n

-- A preorder on the entries.
pub record Preorder {V : Type 0} (R : V → V → Type 0) : Type 0 where
  pub reflexive : (a : V) → R a a
  pub transitive : {a b c : V} → R a b → R b c → R a c

module _ (env : Environment) (prefix : String) {V : Type 0} (R : V → V → Type 0) where
  -- From a store `d` after `n` calls of the environment to `d'` after `n'`.
  pub record Evolved (n : ℕ) (d : Dict String V) (n' : ℕ) (d' : Dict String V) : Type 0 where
    pub calls : n ≤ n'
    pub issued :
        Each (λ id r. IsIssued env prefix n id) d → Each (λ id r. IsIssued env prefix n' id) d'
    pub moved :
        (id : String) (r : V)
        → IsIssued env prefix n id
        → get d id ≡ some r
        → (get d' id ≡ none) ⊎ ((r' : V) × (get d' id ≡ some r') × R r r')
    pub gone : (id : String) → IsIssued env prefix n id → get d id ≡ none → get d' id ≡ none

module _ (env : Environment) (prefix : String) where
  IsIssued-later :
      (m n : ℕ) (id : String) → m ≤ n → IsIssued env prefix m id → IsIssued env prefix n id
  IsIssued-later m n id later (k, before, e) = (k, omega arith, e)

module _ (env : Environment) (prefix : String) {V : Type 0} {R : V → V → Type 0}
    (order : Preorder R) where
  -- Calls of the environment alone.
  pub Evolved-tick : (d : Dict String V) (n n' : ℕ) → n ≤ n' → Evolved env prefix R n d n' d
  Evolved-tick d n n' later = record {
    calls = later;
    issued = λ h id r e. IsIssued-later env prefix n n' id later (h id r e);
    moved = λ id r i e. inr (r, e, order.reflexive r);
    gone = λ id i e. e;
  }

  pub Evolved-trans :
      {n m k : ℕ} {a b c : Dict String V}
      → Evolved env prefix R n a m b
      → Evolved env prefix R m b k c
      → Evolved env prefix R n a k c
  Evolved-trans {n} {m} {k} f g = record {
    calls = omega (arith, f.calls, g.calls);
    issued = λ h. g.issued (f.issued h);
    moved = λ id r i e. elim (f.moved id r i e) [
      | inl gone ↦ inl (g.gone id (IsIssued-later env prefix n m id f.calls i) gone)
      | inr (x, there, step) ↦
          elim (g.moved id x (IsIssued-later env prefix n m id f.calls i) there) [
            | inl gone ↦ inl gone
            | inr (y, now, more) ↦ inr (y, now, order.transitive step more)
          ]
    ];
    gone = λ id i e. g.gone id (IsIssued-later env prefix n m id f.calls i) (f.gone id i e);
  }

  -- An entry that is there moves along the order.
  pub Evolved-put :
      (d : Dict String V) (n : ℕ) (j : String) (r r' : V)
      → get d j ≡ some r
      → R r r'
      → Evolved env prefix R n d n (put d j r')
  Evolved-put d n j r r' found step = record {
    calls = omega arith;
    issued = λ h. Each-put (λ id x. IsIssued env prefix n id) d j r' h (h j r found);
    moved = λ id x i e. elim (Bool-cases (j == id)) [
      | inl same ↦
          let ids : j ≡ id = (eq_iff j id).0 same in
          let one : r ≡ x = cc in
          inr (r', cc (get-put d j r' id, same), subst (λ y. R y r') one step)
      | inr other ↦ inr (x, cc (get-put d j r' id, other), order.reflexive x)
    ];
    gone = λ id i e.
        let differ : (j == id) ≡ false = ground (arith, eq_iff j id) in
        cc (get-put d j r' id, differ);
  }

  -- An entry leaves.
  pub Evolved-remove :
      (d : Dict String V) (n : ℕ) (j : String) → Evolved env prefix R n d n (remove d j)
  Evolved-remove d n j = record {
    calls = omega arith;
    issued = λ h id x e. h id x (get_of_remove d j id x e).1;
    moved = λ id x i e. elim (Bool-cases (j == id)) [
      | inl same ↦ inl (cc (get-remove d j id, same))
      | inr other ↦ inr (x, get-remove_ne d j id x other e, order.reflexive x)
    ];
    gone = λ id i e. ground (arith, get-remove d j id);
  }

  -- An entry comes in under an identifier just issued.
  pub Evolved-new :
      NeverRepeats env
      → (d : Dict String V) (n k n' : ℕ) (r : V) → n ≤ k
      → k < n'
      → Evolved env prefix R n d n' (put d (str_append prefix (env.token k)) r)
  Evolved-new distinct d n k n' r from till = record {
    calls = omega arith;
    issued = λ h.
        Each-put (λ id x. IsIssued env prefix n' id) d (str_append prefix (env.token k)) r
          (λ id x e. IsIssued-later env prefix n n' id (omega arith) (h id x e)) (k, till, refl);
    moved = λ id x i e.
        inr (
          x,
          cc (get-put d (str_append prefix (env.token k)) r id, differ id i),
          order.reflexive x,
        );
    gone = λ id i e. cc (get-put d (str_append prefix (env.token k)) r id, differ id i);
  }
    where
      differ :
          (id : String) → IsIssued env prefix n id → (str_append prefix (env.token k) == id) ≡ false
      differ id (m, before, e) = elim (Bool-cases (str_append prefix (env.token k) == id)) [
        | inl equal ↦
            let ids : str_append prefix (env.token k) ≡ id = (eq_iff _ id).0 equal in
            let clash : k ≡ m =
              distinct k m (append_cancel_left prefix (env.token k) (env.token m) (ids ∙ e)) in
            absurd (omega arith)
        | inr other ↦ other
      ]
