-- ===== src/Base/Results.antt =====
-- Methods that change an object and may raise. What was written before a raise stays written, so
-- the state comes back beside the error too.
pub mod Rules
use mathlib.Core.Bool.{Bool, true, false}
use mathlib.Core.Option.{Option, none, some}

pub data Result {ℓ} (E A : Type ℓ) : Type ℓ where
  ok : A → Result E A
  raised : E → Result E A

-- A method of an object with state `S`.
abbrev pub Method {ℓ} : Type ℓ → Type ℓ → Type ℓ → Type ℓ
Method E S A = S → Result E A × S

module _ {ℓ} {E S A : Type ℓ} where
  abbrev pub return : A → Method E S A
  return a s = (ok a, s)

  abbrev pub raise : E → Method E S A
  raise e s = (raised e, s)

  -- Read the object.
  abbrev pub ask : (S → A) → Method E S A
  ask f s = (ok (f s), s)

  -- An entry that must be there.
  abbrev pub need : Option A → E → Method E S A
  need none e = raise e
  need (some a) e = return a

module _ {ℓ} {E S : Type ℓ} where
  -- Change the object.
  abbrev pub update : (S → S) → Method E S (Unit {ℓ})
  update f s = (ok tt, f s)

  -- `if not test: raise e`
  abbrev pub ensure : Bool → E → Method E S (Unit {ℓ})
  ensure true e s = (ok tt, s)
  ensure false e s = (raised e, s)

module _ {ℓ} {E S A B : Type ℓ} where
  abbrev pub carry_on : Result E A → S → (A → Method E S B) → Result E B × S
  carry_on (ok a) s f = f a s
  carry_on (raised e) s f = (raised e, s)

  infixl 5 ◌>>=◌ ◌>>◌
  abbrev pub ◌>>=◌ : Method E S A → (A → Method E S B) → Method E S B
  ◌>>=◌ m f s = let (r, s') = m s in carry_on r s' f

  abbrev pub ◌>>◌ : Method E S A → Method E S B → Method E S B
  m >> n = m >>= λ _. n
