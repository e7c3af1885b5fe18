-- ===== src/Mutations/SingleUse.antt =====
-- A confirmation is good for one mutation.
use mathlib.Core.Path.{subst}
use cauco.Base.{
  ℕ, suc, ◌≡◌, refl, sym, ap, ◌∙◌, String, true, false, not, ◌&&◌, none, some, List, ◌⊎◌, inl, inr,
  Bool-cases, Option-cases, ◌==◌, string_eq, nat_eq, pair_eq, Result, ok, raised, arith,
}
use cauco.Base.Dict.{get, put, remove}
use cauco.Base.Dict.Laws.{Each, get-put_self}
use cauco.Base.Environment.{Environment}
use cauco.Base.Evolution.{IsIssued, NeverRepeats}
use cauco.Mutations.Models.{MutationPreviewStatus, MutationPreview, MutationError, not_found}
use cauco.Mutations.Store.{
  MutationPreviewStore, key_of, is_pending, is_expired, with_status, find, save, get_preview, claim,
  claim_checked,
}
use cauco.Mutations.Lifecycle.{may_become, OwnIds, expire-cases}
use cauco.Mutations.Lifecycle.Methods.{claim-Step}
use cauco.Mutations.Calls.{Call, run, run-Step}

raised_ne :
    (e : MutationError) (p : MutationPreview)
    → ¬ (◌≡◌ {A = Result MutationError MutationPreview} (raised e) (ok p))
raised_ne e p h = absurd (cc)

-- What was confirmed is not pending any more.
confirmed-final :
    (x : MutationPreviewStatus)
    → may_become MutationPreviewStatus.confirmed x ≡ true
    → ¬ (is_pending x ≡ true)
unfolding may_become
confirmed-final x h k = ground arith

module _ (id execution_id : String) (i : ℕ) (q : MutationPreview) (t : MutationPreviewStore) where
  -- What a claim that returns has done.
  checked-confirms :
      (p : MutationPreview)
      → (claim_checked id execution_id i q t).0 ≡ ok p
      → (is_pending q.status ≡ true)
        × (get (claim_checked id execution_id i q t).1.records id ≡ some p)
        × (p.status ≡ MutationPreviewStatus.confirmed)
  unfolding claim_checked save
  checked-confirms p h = elim (Bool-cases (q.execution_id == execution_id && q.step_index == i)) [
    | inr foreign ↦ absurd (raised_ne _ p (rw foreign at h))
    | inl belongs ↦ elim (Bool-cases (not (is_expired q.status))) [
      | inr over ↦ absurd (raised_ne _ p (rw (belongs, over) at h))
      | inl lasting ↦ elim (Bool-cases (is_pending q.status)) [
        | inr settled ↦ absurd (raised_ne _ p (rw (belongs, lasting, settled) at h))
        | inl pending ↦
            let e = ok-injective _ p (rw (belongs, lasting, pending) at h) in
            (
              pending,
              rw (belongs, lasting, pending) (get-put_self t.records id _ ∙ ap some e),
              sym (ap (λ x. x.status) e),
            )
      ]
    ]
  ]
    where
      ok-injective :
          (a b : MutationPreview)
          → ◌≡◌ {A = Result MutationError MutationPreview} (ok a) (ok b)
          → a ≡ b
      ok-injective a b h = cc

module _ (env : Environment) (s : MutationPreviewStore) (own : OwnIds s) (id execution_id : String)
    (i : ℕ) where
  -- `claim` reads the preview, which may expire on the way, and goes on with it.
  claim-reads :
      ((get s.records id ≡ none)
        × ((e : MutationError) × (claim env id execution_id i s ≡ (raised e, s))))
      ⊎ ((p q : MutationPreview) × (t : MutationPreviewStore) × (get s.records id ≡ some p)
          × (claim env id execution_id i s ≡ claim_checked id execution_id i q t)
          × (is_pending p.status ≡ false → q ≡ p))
  unfolding claim get_preview find
  claim-reads = elim (Option-cases (get s.records id)) [
    | inl absent ↦ inl (absent, (not_found "Mutation preview not found.", rw absent refl))
    | inr (p, found) ↦ elim (expire-cases env s own p) [
      | inl (n, later, e) ↦
          inr (p, p, record s { calls = n }, found, rw (found, e) refl, λ over. refl)
      | inr (pending, e) ↦
          let q = with_status MutationPreviewStatus.expired p in
          let t : MutationPreviewStore = record s {
            records = put s.records p.preview_id q;
            active = remove s.active (key_of p);
            calls = suc s.calls;
          } in
          inr (p, q, t, found, rw (found, e) refl, λ over. absurd (cc))
    ]
  ]

  -- A claim that returns leaves the preview confirmed, and found it pending.
  pub claim-confirms :
      (p : MutationPreview)
      → (claim env id execution_id i s).0 ≡ ok p
      → (get (claim env id execution_id i s).1.records id ≡ some p)
        × (p.status ≡ MutationPreviewStatus.confirmed)
        × ((q : MutationPreview) × (get s.records id ≡ some q) × (is_pending q.status ≡ true))
  claim-confirms p h = elim claim-reads [
    | inl (absent, (e, refused)) ↦ absurd (raised_ne _ p (rw refused at h))
    | inr (q, r, t, found, e, settled) ↦
        let (pending, there, confirmed) = checked-confirms id execution_id i r t p (rw e at h) in
        (
          rw e there,
          confirmed,
          (
            q,
            found,
            elim (Bool-cases (is_pending q.status)) [
              | inl yes_pending ↦ yes_pending
              | inr over ↦ absurd (cc (ap (λ x. is_pending x.status) (settled over)))
            ],
          ),
        )
  ]

-- A preview that a claim confirmed is never claimed again, whatever calls come between and whoever
-- claims it. Previews are stored under their own identifiers, which the token source issued, and tokens
-- never repeat.
pub claim-once :
    (env : Environment) (s : MutationPreviewStore) (id execution_id other_id : String) (i j : ℕ)
    (p q : MutationPreview) (calls : List Call)
    → NeverRepeats env
    → OwnIds s
    → Each (λ k x. IsIssued env "mutprev_" s.calls k) s.records
    → (claim env id execution_id i s).0 ≡ ok p
    → ¬ ((claim env id other_id j (run env calls (claim env id execution_id i s).1)).0 ≡ ok q)
claim-once env s id execution_id other_id i j p q calls distinct own issued h again =
    let (there, confirmed, (before, found, _)) = claim-confirms env s own id execution_id i p h in
    let t = (claim env id execution_id i s).1 in
    let (step, own_t) = claim-Step env s own id execution_id i in
    let (steps, own_u) = run-Step env distinct calls t own_t in
    let (_, _, (last, at_last, pending)) =
      claim-confirms env (run env calls t) own_u id other_id j q again in
    elim (steps.moved id p (step.issued issued id p there) there) [
      | inl gone ↦ absurd (cc)
      | inr (r, at_r, (may, same)) ↦
          let one : r ≡ last = cc in
          absurd (
            confirmed-final r.status (subst (λ x. may_become x r.status ≡ true) confirmed may)
              (ap (λ x. is_pending x.status) one ∙ pending))
    ]
