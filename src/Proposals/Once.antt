-- ===== src/Proposals/Once.antt =====
-- Sequences of calls of `MemoryWriteProposalStore` but for `list`, and what they leave of an
-- application.
use cauco.Base.{
  ℕ, ◌≡◌, refl, sym, ap, ◌∙◌, String, some, List, [], ◌∷◌, inl, inr, Result, ok, raised, carry_on,
  string_eq, true, arith,
}
use cauco.Base.Dict.{get}
use cauco.Base.Dict.Laws.{get-put_self}
use cauco.Base.Environment.{Environment}
use cauco.Proposals
use cauco.Proposals.{
  MemoryWriteProposalState, MemoryWriteProposal, ProposalRecord, MemoryWriteProposalStore,
  ProposalError, apply_found, is_pending,
}
use cauco.Proposals.Applied.{
  is_applied, Keeps, Keeps-trans, get_proposal-Keeps, get_pending-Keeps, mark_applied-Keeps,
  put_proposal-Keeps, apply_found-cases, get_proposal-there, raised_ne, ok-injective,
}

pub data Call : Type 0 where
  put_proposal : MemoryWriteProposal → Call
  get_proposal : (id : String) → Call
  get_pending : (id : String) → Call
  mark_applied : (id : String) → ℕ → Call

unfoldable pub apply : Environment → Call → MemoryWriteProposalStore → MemoryWriteProposalStore
apply env (put_proposal p) s = (Proposals.put_proposal env p s).1
apply env (get_proposal id) s = (Proposals.get_proposal env id s).1
apply env (get_pending id) s = (Proposals.get_pending env id s).1
apply env (mark_applied id time) s = (Proposals.mark_applied env id time s).1

unfoldable pub run : Environment → List Call → MemoryWriteProposalStore → MemoryWriteProposalStore
run env [] s = s
run env (call ∷ calls) s = run env calls (apply env call s)

module _ (env : Environment) where
  apply-Keeps : (call : Call) (s : MemoryWriteProposalStore) → Keeps s (apply env call s)
  unfolding apply
  apply-Keeps (put_proposal p) s = put_proposal-Keeps env s p
  apply-Keeps (get_proposal id) s = get_proposal-Keeps env s id
  apply-Keeps (get_pending id) s = get_pending-Keeps env s id
  apply-Keeps (mark_applied id time) s = mark_applied-Keeps env s id time

  -- A record that is applied stays as it is, whatever calls follow.
  pub run-Keeps : (calls : List Call) (s : MemoryWriteProposalStore) → Keeps s (run env calls s)
  unfolding run
  run-Keeps [] s = λ id r found over. found
  run-Keeps (call ∷ calls) s =
      Keeps-trans s (apply env call s) (run env calls (apply env call s)) (apply-Keeps call s)
        (run-Keeps calls (apply env call s))

  -- How `mark_applied` gets to its outcome.
  mark_applied-cases :
      (s : MemoryWriteProposalStore) (id : String) (time : ℕ) (r : ProposalRecord)
      → (Proposals.mark_applied env id time s).0 ≡ ok r
      → (x : ProposalRecord) × (get (Proposals.get_proposal env id s).1.records id ≡ some x)
        × (is_pending x.state ≡ true)
        × (get (Proposals.mark_applied env id time s).1.records id ≡ some r)
        × (is_applied r.state ≡ true)
  unfolding Proposals.mark_applied
  mark_applied-cases s id time r =
      read (Proposals.get_proposal env id s).0 (Proposals.get_proposal env id s).1
        (λ x e. get_proposal-there env s id x e)
    where
      read :
          (o : Result ProposalError ProposalRecord) (t : MemoryWriteProposalStore)
          → ((x : ProposalRecord) → o ≡ ok x → get t.records id ≡ some x)
          → (carry_on o t (apply_found env id time)).0 ≡ ok r
          → (x : ProposalRecord) × (get t.records id ≡ some x)
            × (is_pending x.state ≡ true)
            × (get (carry_on o t (apply_found env id time)).1.records id ≡ some r)
            × (is_applied r.state ≡ true)
      read (raised e) t there h = absurd (raised_ne e r h)
      read (ok x) t there h = elim (apply_found-cases env t id time x) [
        | inr (e, refused) ↦ absurd (raised_ne e r (sym (ap (λ z. z.0) refused) ∙ h))
        | inl (pending, done) ↦
            let y : ProposalRecord = record x {
              state = MemoryWriteProposalState.applied;
              applied_at = some time;
            } in
            let same : y ≡ r = ok-injective y r (sym (ap (λ z. z.0) done) ∙ h) in
            (
              x,
              there x refl,
              pending,
              ap (λ z. get z.1.records id) done ∙ get-put_self t.records id y ∙ ap some same,
              ap (λ z. is_applied z.state) (sym same),
            )
      ]

-- A proposal that was marked as applied is never marked again, whatever calls of `put`, `get`,
-- `get_pending` and `mark_applied` come between.
pub mark_applied-once :
    (env : Environment) (s : MemoryWriteProposalStore) (id : String) (time later : ℕ)
    (r x : ProposalRecord) (calls : List Call)
    → (Proposals.mark_applied env id time s).0 ≡ ok r
    → ¬ (
        (Proposals.mark_applied env id later
          (run env calls (Proposals.mark_applied env id time s).1)).0
        ≡ ok x)
mark_applied-once env s id time later r x calls h again =
    let t = (Proposals.mark_applied env id time s).1 in
    let u = run env calls t in
    let (_, _, _, there, over) = mark_applied-cases env s id time r h in
    let (y, at_y, pending, _, _) = mark_applied-cases env u id later x again in
    let now = get_proposal-Keeps env u id id r (run-Keeps env calls t id r there over) over in
    let one : r ≡ y = cc in
    absurd (applied_not_pending r.state over (ap (λ z. is_pending z.state) one ∙ pending))
  where
    applied_not_pending :
        (z : MemoryWriteProposalState) → is_applied z ≡ true → ¬ (is_pending z ≡ true)
    applied_not_pending z h k = ground arith
