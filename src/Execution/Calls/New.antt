-- ===== src/Execution/Calls/New.antt =====
-- Sequences of calls from the store that `__init__` returns.
use mathlib.Core.Path.{subst}
use cauco.Base.{
  ℕ, ◌≡◌, ◌&&◌, List, [], arith, inl, inr, leb, Bool-cases, All, Result, ok, raised, string_eq,
}
use cauco.Base.Dict.Laws.{Each-empty}
use cauco.Base.Environment.{Environment}
use cauco.Execution.Models.{ExecutionError}
use cauco.Execution.Store.{ExecutionStore, new}
use cauco.Execution.Invariant.{IsHeld, LeadsTo}
use cauco.Execution.Calls.{Call, run, IsAdmissible}
use cauco.Execution.Calls.Trace.{WasIssued, IsDistinct, IsGood, run-IsGood}

new-IsGood :
    (env : Environment) (max_records : ℕ) (s : ExecutionStore)
    → new max_records ≡ ok s
    → IsGood env s
unfolding new
new-IsGood env max_records s e = elim (Bool-cases (leb 1 max_records && leb max_records 10000)) [
  | inr refused ↦ absurd (raised_ne s (rw refused at e))
  | inl fits ↦
      let made : ExecutionStore = record {
        max_records = max_records;
        records = [];
        by_review = [];
        rejected_events = [];
        calls = 0;
      } in
      let same : made ≡ s = ok-injective made s (rw fits at e) in
      subst (λ t. IsGood env t) same
        (record {
          sound = record {
            unique = tt;
            held = Each-empty (IsHeld made);
            reviews = Each-empty (LeadsTo made);
            room = omega arith;
          };
          issued = Each-empty (λ id r. WasIssued env 0 id);
        })
]
  where
    raised_ne :
        {e : ExecutionError} (t : ExecutionStore)
        → ¬ (◌≡◌ {A = Result ExecutionError ExecutionStore} (raised e) (ok t))
    raised_ne t h = absurd (cc)

    ok-injective :
        (t u : ExecutionStore)
        → ◌≡◌ {A = Result ExecutionError ExecutionStore} (ok t) (ok u)
        → t ≡ u
    ok-injective t u h = cc

-- A store that `__init__` returns is sound, and so is what any admissible calls then make of it: the
-- bounds on its size are kept, and it holds no identifier that was not issued. Tokens never repeat.
pub new-run-IsGood :
    (env : Environment) (max_records : ℕ) (s : ExecutionStore) (calls : List Call)
    → IsDistinct env
    → new max_records ≡ ok s
    → All IsAdmissible calls
    → IsGood env (run env calls s)
new-run-IsGood env max_records s calls distinct e a =
    run-IsGood env distinct calls s a (new-IsGood env max_records s e)
