-- ===== src/Base/Results/Rules.antt =====
-- Rules for the state that a method leaves, one for each way to begin a method.
use mathlib.Core.Path.{◌≡◌, refl, sym, subst}
use mathlib.Core.Bool.{Bool, true, false}
use mathlib.Core.Option.{Option, none, some}
use cauco.Base.Tests.{if◌then◌else◌}
use cauco.Base.Results.{Result, Method, ok, raised, carry_on, need, ensure, ◌>>=◌}

module _ {ℓ κ} {E S A B : Type ℓ} (Q : S → Type κ) (s : S) where
  -- An entry that may be missing.
  pub need_rule :
      (o : Option A) (e : E) (body : A → Method E S B)
      → (o ≡ none → Q s)
      → ((a : A) → o ≡ some a → Q (body a s).1)
      → Q ((need o e >>= body) s).1
  need_rule none e body h k = h refl
  need_rule (some a) e body h k = k a refl

  -- A call whose outcome is known.
  pub ok_rule :
      (m : Method E S A) (body : A → Method E S B) (a : A) (t : S)
      → m s ≡ (ok a, t)
      → Q (body a t).1
      → Q ((m >>= body) s).1
  ok_rule m body a t e h = subst (λ r. Q (carry_on r.0 r.1 body).1) (sym e) h

  -- A call that raises.
  pub raised_rule :
      (m : Method E S A) (body : A → Method E S B) (e : E) (t : S)
      → m s ≡ (raised e, t)
      → Q t
      → Q ((m >>= body) s).1
  raised_rule m body e t h q = subst (λ r. Q (carry_on r.0 r.1 body).1) (sym h) q

module _ {ℓ κ} {E S A : Type ℓ} (Q : S → Type κ) (s : S) where
  -- A test.
  pub if_rule :
      (b : Bool) (m n : Method E S A)
      → (b ≡ true → Q (m s).1)
      → (b ≡ false → Q (n s).1)
      → Q ((if b then m else n) s).1
  if_rule true m n h k = h refl
  if_rule false m n h k = k refl

module _ {ℓ κ} {E S A B C : Type ℓ} (f : A → Method E S B) (g : B → Method E S C) where
  assoc_case :
      (r : Result E A) (s : S)
      → carry_on (carry_on r s f).0 (carry_on r s f).1 g ≡ carry_on r s (λ a. f a >>= g)
  assoc_case (ok a) s = refl
  assoc_case (raised e) s = refl

  -- A method that begins with a method.
  pub assoc_rule :
      (Q : S → Type κ) (m : Method E S A) (s : S)
      → Q ((m >>= λ a. f a >>= g) s).1
      → Q (((m >>= f) >>= g) s).1
  assoc_rule Q m s q = subst (λ x. Q x.1) (sym (assoc_case (m s).0 (m s).1)) q

module _ {ℓ κ} {E S B : Type ℓ} (Q : S → Type κ) (s : S) where
  -- A check that raises.
  pub ensure_rule :
      (b : Bool) (e : E) (body : Unit {ℓ} → Method E S B)
      → Q s
      → (b ≡ true → Q (body tt s).1)
      → Q ((ensure b e >>= body) s).1
  ensure_rule true e body q k = k refl
  ensure_rule false e body q k = q

module _ {ℓ} {E S A : Type ℓ} where
  -- A method does not both raise and return.
  pub raised_ne : (e : E) (a : A) (s t : S) → ¬ (◌≡◌ {A = Result E A × S} (raised e, s) (ok a, t))
  raised_ne e a s t h = absurd (cc)

  pub ok-injective :
      (a b : A) (s t : S) → ◌≡◌ {A = Result E A × S} (ok a, s) (ok b, t) → (a ≡ b) × (s ≡ t)
  ok-injective a b s t h = (cc, cc)

  pub carry_on-ok :
      {B : Type ℓ} (p : Result E A × S) (f : A → Method E S B) (b : B) (t : S)
      → ◌≡◌ {A = Result E B × S} (carry_on p.0 p.1 f) (ok b, t)
      → (a : A) × (u : S) × (p ≡ (ok a, u)) × (f a u ≡ (ok b, t))
  carry_on-ok (ok a, u) f b t h = (a, u, refl, h)
  carry_on-ok (raised e, u) f b t h = absurd (cc)

  -- Two methods in a row return only if both do.
  pub bind-ok :
      {B : Type ℓ} (m : Method E S A) (f : A → Method E S B) (s : S) (b : B) (t : S)
      → ◌≡◌ {A = Result E B × S} ((m >>= f) s) (ok b, t)
      → (a : A) × (u : S) × (m s ≡ (ok a, u)) × (f a u ≡ (ok b, t))
  bind-ok m f s b t h = carry_on-ok (m s) f b t h

module _ {ℓ} {E S : Type ℓ} where
  -- What a test lets through passes it.
  pub ensure-true :
      (b : Bool) (e : E) (s t : S) (x : Unit {ℓ})
      → ◌≡◌ {A = Result E (Unit {ℓ}) × S} (ensure b e s) (ok x, t)
      → (b ≡ true) × (s ≡ t)
  ensure-true true e s t x h = (refl, cc)
  ensure-true false e s t x h = absurd (cc)

module _ {ℓ κ} {E S A B : Type ℓ} (Q : S → Type κ) where
  -- Two methods in a row, the second of which starts from what the first returned.
  pub bind_rule :
      (m : Method E S A) (f : A → Method E S B) (s : S)
      → Q (m s).1
      → ((a : A) (t : S) → m s ≡ (ok a, t) → Q t → Q (f a t).1)
      → Q ((m >>= f) s).1
  bind_rule m f s h k = go (m s) refl h
    where
      go : (p : Result E A × S) → m s ≡ p → Q p.1 → Q (carry_on p.0 p.1 f).1
      go (ok a, t) e q = k a t e q
      go (raised e', t) e q = q
