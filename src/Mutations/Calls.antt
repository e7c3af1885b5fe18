-- ===== src/Mutations/Calls.antt =====
-- Sequences of calls of `MutationPreviewStore`, in any order and with any arguments.
use cauco.Base.{
  ℕ, ◌≡◌, String, none, some, List, [], ◌∷◌, ◌⊎◌, inl, inr, Option-cases, ap, ◌∙◌, string_eq,
  nat_eq, pair_eq,
}
use cauco.Base.Dict.{get}
use cauco.Base.Dict.Laws.{Each}
use cauco.Base.Environment.{Environment}
use cauco.Base.Evolution.{IsIssued, NeverRepeats}
use cauco.Mutations.Models.{MutationPreview}
use cauco.Mutations.Store
use cauco.Mutations.Store.{MutationPreviewStore, PreviewFields}
use cauco.Mutations.Lifecycle.{Advances, OwnIds, Step, Step-none, Step-trans, expire-Step}
use cauco.Mutations.Lifecycle.Methods.{claim-Step, consume-Step, cancel-Step, create-Step}

pub data Call : Type 0 where
  create : PreviewFields → Call
  get_preview : (id : String) → Call
  active_preview : (execution_id : String) → ℕ → Call
  claim : (id execution_id : String) → ℕ → Call
  consume : (id : String) → Call
  cancel : (execution_id : String) → ℕ → Call

unfoldable pub apply : Environment → Call → MutationPreviewStore → MutationPreviewStore
apply env (create f) s = (Store.create env f s).1
apply env (get_preview id) s = (Store.get_preview env id s).1
apply env (active_preview execution_id i) s = (Store.active_preview env execution_id i s).1
apply env (claim id execution_id i) s = (Store.claim env id execution_id i s).1
apply env (consume id) s = (Store.consume env id s).1
apply env (cancel execution_id i) s = (Store.cancel env execution_id i s).1

unfoldable pub run : Environment → List Call → MutationPreviewStore → MutationPreviewStore
run env [] s = s
run env (call ∷ calls) s = run env calls (apply env call s)

module _ (env : Environment) (distinct : NeverRepeats env) where
  get_preview-Step :
      (s : MutationPreviewStore)
      → OwnIds s
      → (id : String) → Step env s (Store.get_preview env id s).1
  unfolding Store.get_preview Store.find
  get_preview-Step s own id = elim (Option-cases (get s.records id)) [
    | inl absent ↦ rw absent (Step-none env s own)
    | inr (p, found) ↦
        rw found (expire-Step env s own p (ap (λ j. get s.records j) (own id p found) ∙ found))
  ]

  active_preview-Step :
      (s : MutationPreviewStore)
      → OwnIds s
      → (execution_id : String) (i : ℕ) → Step env s (Store.active_preview env execution_id i s).1
  unfolding Store.active_preview Store.find
  active_preview-Step s own execution_id i = elim (Option-cases (get s.active (execution_id, i))) [
    | inl absent ↦ rw absent (Step-none env s own)
    | inr (id, entry) ↦ rw entry (elim (Option-cases (get s.records id)) [
      | inl lost ↦ rw lost (Step-none env s own)
      | inr (p, found) ↦
          rw found (expire-Step env s own p (ap (λ j. get s.records j) (own id p found) ∙ found))
    ])
  ]

  apply-Step : (call : Call) (s : MutationPreviewStore) → OwnIds s → Step env s (apply env call s)
  unfolding apply
  apply-Step (create f) s own = create-Step env distinct s own f
  apply-Step (get_preview id) s own = get_preview-Step s own id
  apply-Step (active_preview execution_id i) s own = active_preview-Step s own execution_id i
  apply-Step (claim id execution_id i) s own = claim-Step env s own id execution_id i
  apply-Step (consume id) s own = consume-Step env s own id
  apply-Step (cancel execution_id i) s own = cancel-Step env s own execution_id i

  pub run-Step :
      (calls : List Call) (s : MutationPreviewStore) → OwnIds s → Step env s (run env calls s)
  unfolding run
  run-Step [] s own = Step-none env s own
  run-Step (call ∷ calls) s own =
      Step-trans env s (apply env call s) (run env calls (apply env call s)) (apply-Step call s own)
        λ o. run-Step calls (apply env call s) o

-- Whatever calls follow, a stored preview is either evicted or differs from what it was in its status
-- alone, along pending, confirmed, consumed, or from pending to expired or cancelled. Each preview is
-- stored under its own identifier, which the token source issued, and tokens never repeat.
pub run-Advances :
    (env : Environment) (calls : List Call) (s : MutationPreviewStore) (id : String)
    (p : MutationPreview)
    → NeverRepeats env
    → OwnIds s
    → Each (λ j x. IsIssued env "mutprev_" s.calls j) s.records
    → get s.records id ≡ some p
    → (get (run env calls s).records id ≡ none)
      ⊎ ((q : MutationPreview) × (get (run env calls s).records id ≡ some q) × Advances p q)
run-Advances env calls s id p distinct own issued found =
    (run-Step env distinct calls s own).0.moved id p (issued id p found) found
