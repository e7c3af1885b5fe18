-- ===== src/Mutations/Lifecycle/Methods.antt =====
-- What each method of `MutationPreviewStore` that changes a status or a record does to the previews.
use cauco.Base.{
  ℕ, suc, ◌≡◌, refl, ap, ◌∙◌, String, str_append, true, not, ◌&&◌, Option, none, some, List, [],
  ◌∷◌, arith, inl, inr, ◌==◌, string_eq, nat_eq, pair_eq, ltb, Bool-cases, Option-cases, Result, ok,
  raised, carry_on, ◌+◌,
}
use cauco.Base.Dict.{Dict, get, put, remove, size, is_some}
use cauco.Base.Dict.Laws.{Each-put, Each-remove}
use cauco.Base.Environment.{Environment}
use cauco.Base.Evolution.{NeverRepeats, Evolved-put, Evolved-remove, Evolved-new}
use cauco.Mutations.Models.{
  MutationPreviewStatus, MutationPreview, preview_rejection, MutationError,
}
use cauco.Mutations.Store.{
  MutationPreviewStore, StoreMethod, PreviewFields, created, or_else, is_pending, is_confirmed,
  is_expired, with_status, save, release, find, key_of, drop_first, make_room, accepted,
  active_preview, claim, claim_checked, consume, cancel, refuse_second, time_or_clock, store_new,
  create,
}
use cauco.Mutations.Lifecycle.{
  may_become, order, OwnIds, Step, Step-trans, Step-tick, Step-none, pending_may, expire_rule,
  get_preview_rule,
}

module _ (env : Environment) where
  -- A preview that is stored under `id` gets a new status.
  Step-save :
      (s : MutationPreviewStore) (own : OwnIds s) (id : String) (p : MutationPreview)
      (status : MutationPreviewStatus) (active : Dict (String × ℕ) String)
      → p.preview_id ≡ id
      → get s.records id ≡ some p
      → may_become p.status status ≡ true
      → Step env s (record s { records = put s.records id (with_status status p); active = active })
  Step-save s own id p status active ids found may = (
    Evolved-put env "mutprev_" order s.records s.calls id p (with_status status p) found
        (may, refl),
    Each-put (λ j x. x.preview_id ≡ j) s.records id (with_status status p) own ids,
  )

  confirmed_may :
      (x : MutationPreviewStatus)
      → is_confirmed x ≡ true
      → may_become x MutationPreviewStatus.consumed ≡ true
  unfolding may_become
  confirmed_may x h = ground arith

  pub claim-Step :
      (s : MutationPreviewStore)
      → OwnIds s
      → (id execution_id : String) (step_index : ℕ)
      → Step env s (claim env id execution_id step_index s).1
  unfolding claim claim_checked save
  claim-Step s own id execution_id step_index = get_preview_rule env s own id _ λ t q o same there.
      elim (Bool-cases (q.execution_id == execution_id && q.step_index == step_index)) [
        | inr foreign ↦ rw foreign (Step-none env t o)
        | inl belongs ↦ rw belongs (elim (Bool-cases (not (is_expired q.status))) [
          | inr over ↦ rw over (Step-none env t o)
          | inl lasting ↦ rw lasting (elim (Bool-cases (is_pending q.status)) [
            | inr settled ↦ rw settled (Step-none env t o)
            | inl pending ↦ rw pending (
                Step-save t o id q MutationPreviewStatus.confirmed t.active same there
                  (pending_may env t o q.status MutationPreviewStatus.confirmed pending))
          ])
        ])
      ]

  pub consume-Step :
      (s : MutationPreviewStore) → OwnIds s → (id : String) → Step env s (consume env id s).1
  unfolding consume save release
  consume-Step s own id = get_preview_rule env s own id _ λ t q o same there.
      elim (Bool-cases (is_confirmed q.status)) [
        | inr unclaimed ↦ rw unclaimed (Step-none env t o)
        | inl confirmed ↦ rw confirmed (
            Step-save t o id q MutationPreviewStatus.consumed (remove t.active (key_of q)) same
              there (confirmed_may q.status confirmed))
      ]

  pub cancel-Step :
      (s : MutationPreviewStore)
      → OwnIds s
      → (execution_id : String) (step_index : ℕ)
      → Step env s (cancel env execution_id step_index s).1
  unfolding cancel active_preview save release find
  cancel-Step s own execution_id step_index =
      elim (Option-cases (get s.active (execution_id, step_index))) [
        | inl absent ↦ rw absent (Step-none env s own)
        | inr (id, entry) ↦ rw entry (elim (Option-cases (get s.records id)) [
          | inl lost ↦ rw lost (Step-none env s own)
          | inr (p, found) ↦
              let ids : p.preview_id ≡ id = own id p found in
              let there : get s.records p.preview_id ≡ some p =
                ap (λ j. get s.records j) ids ∙ found in
              rw found (
                expire_rule env s own p _ there λ t q o same now.
                  let kept : get t.records q.preview_id ≡ some q =
                    ap (λ j. get t.records j) same ∙ now in
                  elim (Bool-cases (is_pending q.status)) [
                    | inr settled ↦ rw settled (Step-none env t o)
                    | inl pending ↦ rw pending (
                        Step-save t o q.preview_id q MutationPreviewStatus.cancelled
                          (remove t.active (execution_id, step_index)) refl kept
                          (pending_may env t o q.status MutationPreviewStatus.cancelled pending))
                  ])
        ])
      ]

  -- The rule for a call that a method goes on after.
  pub bind_case :
      (s : MutationPreviewStore) {A B : Type 0} (r : Result MutationError A)
      (t : MutationPreviewStore) (body : A → StoreMethod B)
      → Step env s t
      → ((a : A) → OwnIds t → Step env t (body a t).1)
      → Step env s (carry_on r t body).1
  bind_case s (ok a) t body st k = Step-trans env s t (body a t).1 st (k a)
  bind_case s (raised e) t body st k = st

  drop_first-Step :
      (s : MutationPreviewStore)
      → OwnIds s
      → (ps : List MutationPreview) → Step env s (drop_first ps s).1
  unfolding drop_first
  drop_first-Step s own [] = Step-none env s own
  drop_first-Step s own (p ∷ ps) = elim (Bool-cases (is_some (get s.records p.preview_id))) [
    | inr lost ↦ rw lost (Step-none env s own)
    | inl there ↦ rw there (
      Evolved-remove env "mutprev_" order s.records s.calls p.preview_id,
      Each-remove (λ id x. x.preview_id ≡ id) s.records p.preview_id own,
    )
  ]

  make_room-Step : (s : MutationPreviewStore) → OwnIds s → Step env s (make_room s).1
  unfolding make_room
  make_room-Step s own = elim (Bool-cases (ltb (size s.records) s.max_records)) [
    | inl room ↦ rw room (Step-none env s own)
    | inr full ↦ rw full (drop_first-Step s own _)
  ]

  refuse_second-Step :
      (s : MutationPreviewStore)
      → OwnIds s
      → (entry : Option String) → Step env s (refuse_second env entry s).1
  unfolding refuse_second find
  refuse_second-Step s own none = Step-none env s own
  refuse_second-Step s own (some id) = elim (Option-cases (get s.records id)) [
    | inl lost ↦ rw lost (Step-none env s own)
    | inr (p, found) ↦
        let there : get s.records p.preview_id ≡ some p =
          ap (λ j. get s.records j) (own id p found) ∙ found in
        rw found (
          expire_rule env s own p _ there λ t q o same now.
            elim (Bool-cases (not (is_pending q.status))) [
              | inl over ↦ rw over (Step-none env t o)
              | inr pending ↦ rw pending (Step-none env t o)
            ])
  ]

  time_or_clock-Step :
      (s : MutationPreviewStore)
      → OwnIds s
      → (time : Option ℕ) → Step env s (time_or_clock env time s).1
  unfolding time_or_clock
  time_or_clock-Step s own none = Step-tick env s own (suc s.calls) (omega arith)
  time_or_clock-Step s own (some time) = Step-none env s own

  module _ (distinct : NeverRepeats env) where
    store_new-Step :
        (s : MutationPreviewStore)
        → OwnIds s
        → (f : PreviewFields) (now : ℕ) → Step env s (store_new env f now s).1
    unfolding store_new
    store_new-Step s own f now =
        let id = str_append "mutprev_" (env.token s.calls) in
        let p = created id f now (or_else f.expires_at (now + s.ttl)) in
        elim (Option-cases (preview_rejection p)) [
          | inr (message, rejected) ↦ rw rejected (Step-tick env s own (suc s.calls) (omega arith))
          | inl accepted ↦ rw accepted (
            Evolved-new env "mutprev_" order distinct s.records s.calls s.calls (suc s.calls) p
                (omega arith) (omega arith),
            Each-put (λ j x. x.preview_id ≡ j) s.records id p own refl,
          )
        ]

    pub create-Step :
        (s : MutationPreviewStore) → OwnIds s → (f : PreviewFields) → Step env s (create env f s).1
    unfolding create
    create-Step s own f =
        let m0 = refuse_second env (get s.active (f.execution_id, f.step_index)) in
        bind_case s (m0 s).0 (m0 s).1 _ (refuse_second-Step s own _) λ a o.
          let t = (m0 s).1 in
          bind_case t (make_room t).0 (make_room t).1 _ (make_room-Step t o) λ b o1.
            let u = (make_room t).1 in
            let m2 = time_or_clock env f.created_at in
            bind_case u (m2 u).0 (m2 u).1 (store_new env f) (time_or_clock-Step u o1 f.created_at)
              λ now o2. store_new-Step (m2 u).1 o2 f now
