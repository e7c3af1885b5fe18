-- ===== src/Proposals/Applied.antt =====
-- A proposal is applied at most once.
use mathlib.Core.Path.{subst}
use text.Mathlib.TextEquality.{eq_iff}
use cauco.Base.{
  ℕ, suc, ◌≡◌, refl, sym, ap, ◌∙◌, String, Bool, true, false, some, ◌⊎◌, inl, inr, Bool-cases,
  Option-cases, ◌==◌, string_eq, Result, ok, raised, carry_on, str_append, arith,
}
use cauco.Base.Dict.{get, put}
use cauco.Base.Dict.Laws.{get-put, get-put_self}
use cauco.Base.Environment.{Environment}
use cauco.Proposals.{
  MemoryWriteProposalState, MemoryWriteProposal, ProposalRecord, MemoryWriteProposalStore,
  ProposalError, find, aged, need_pending, expire, store_new, put_again, put_over, put_proposal,
  get_proposal, get_pending, apply_found, mark_applied, is_pending, is_expired, is_current,
  StoreMethod, state_value, conflict, expired_error,
}

abbrev pub is_applied : MemoryWriteProposalState → Bool
is_applied MemoryWriteProposalState.applied = true
is_applied _ = false

-- The applied records are there as they were.
abbrev pub Keeps : MemoryWriteProposalStore → MemoryWriteProposalStore → Type 0
Keeps s t =
    (id : String) (r : ProposalRecord)
    → get s.records id ≡ some r
    → is_applied r.state ≡ true
    → get t.records id ≡ some r

pub Keeps-trans : (a b c : MemoryWriteProposalStore) → Keeps a b → Keeps b c → Keeps a c
Keeps-trans a b c f g id r found over = g id r (f id r found over) over

-- A record that is not applied gives way.
Keeps-put :
    (s : MemoryWriteProposalStore) (id : String) (r : ProposalRecord) (n : ℕ)
    → ((x : ProposalRecord) → get s.records id ≡ some x → is_applied x.state ≡ false)
    → Keeps s (record s { records = put s.records id r; calls = n })
Keeps-put s id r n free j x found over = elim (Bool-cases (id == j)) [
  | inl same ↦
      let ids : id ≡ j = (eq_iff id j).0 same in
      let there : get s.records id ≡ some x = ap (λ k. get s.records k) ids ∙ found in
      absurd (cc (free x there))
  | inr other ↦ cc (get-put s.records id r j, other)
]

not_applied : (x : MemoryWriteProposalState) → is_pending x ≡ true → is_applied x ≡ false
not_applied x h = ground arith

not_current : (x : MemoryWriteProposalState) → is_current x ≡ false → is_applied x ≡ false
not_current x h = ground arith

pub raised_ne :
    (e : ProposalError) (r : ProposalRecord)
    → ¬ (◌≡◌ {A = Result ProposalError ProposalRecord} (raised e) (ok r))
raised_ne e r h = absurd (cc)

pub ok-injective :
    (a b : ProposalRecord) → ◌≡◌ {A = Result ProposalError ProposalRecord} (ok a) (ok b) → a ≡ b
ok-injective a b h = cc

module _ (env : Environment) (s : MemoryWriteProposalStore) where
  expire-Keeps :
      (id : String) (r : ProposalRecord) → get s.records id ≡ some r → Keeps s (expire env id r s).1
  unfolding expire
  expire-Keeps id r found = elim (Bool-cases (is_pending r.state)) [
    | inr over ↦ rw over (λ j x e h. e)
    | inl pending ↦ rw pending (
        Keeps-put s id (aged (env.clock s.calls) r) (suc s.calls) λ x there.
          let one : r ≡ x = cc in
          ap (λ y. is_applied y.state) (sym one) ∙ not_applied r.state pending)
  ]

-- What `expire` leaves under the identifier is what it returns.
expire-there :
    (env : Environment) (s : MemoryWriteProposalStore) (id : String) (r : ProposalRecord)
    → get s.records id ≡ some r
    → (x : ProposalRecord) × (expire env id r s ≡ (ok x, (expire env id r s).1))
      × (get (expire env id r s).1.records id ≡ some x)
unfolding expire
expire-there env s id r found = elim (Bool-cases (is_pending r.state)) [
  | inr over ↦ (r, rw over refl, rw over found)
  | inl pending ↦ (
    aged (env.clock s.calls) r,
    rw pending refl,
    rw pending (get-put_self s.records id (aged (env.clock s.calls) r)),
  )
]

module _ (env : Environment) where
  pub get_proposal-Keeps :
      (s : MemoryWriteProposalStore) (id : String) → Keeps s (get_proposal env id s).1
  unfolding get_proposal find
  get_proposal-Keeps s id = elim (Option-cases (get s.records id)) [
    | inl absent ↦ rw absent (λ j x e h. e)
    | inr (r, found) ↦ rw found (expire-Keeps env s id r found)
  ]

  bind_case :
      (s : MemoryWriteProposalStore) {A B : Type 0} (r : Result ProposalError A)
      (t : MemoryWriteProposalStore) (body : A → StoreMethod B)
      → Keeps s t
      → ((a : A) → r ≡ ok a → Keeps t (body a t).1)
      → Keeps s (carry_on r t body).1
  bind_case s (ok a) t body f k = Keeps-trans s t (body a t).1 f (k a refl)
  bind_case s (raised e) t body f k = f

  pub get_pending-Keeps :
      (s : MemoryWriteProposalStore) (id : String) → Keeps s (get_pending env id s).1
  unfolding get_pending need_pending
  get_pending-Keeps s id =
      bind_case s (get_proposal env id s).0 (get_proposal env id s).1 _ (get_proposal-Keeps s id)
        λ r e.
          let t = (get_proposal env id s).1 in
          elim (Bool-cases (is_expired r.state)) [
            | inl over ↦ rw over (λ j x found h. found)
            | inr lasting ↦ rw lasting (elim (Bool-cases (is_pending r.state)) [
              | inl pending ↦ rw pending (λ j x found h. found)
              | inr settled ↦ rw settled (λ j x found h. found)
            ])
          ]

  -- What `mark_applied` does once the record is read: it writes the application, or raises.
  pub apply_found-cases :
      (s : MemoryWriteProposalStore) (id : String) (time : ℕ) (r : ProposalRecord)
      → ((is_pending r.state ≡ true)
          × (apply_found env id time r s ≡ (
            ok (record r { state = MemoryWriteProposalState.applied; applied_at = some time }),
            record s {
              records =
                  put s.records id
                    (record r { state = MemoryWriteProposalState.applied; applied_at = some time });
            },
          )))
        ⊎ ((e : ProposalError) × (apply_found env id time r s ≡ (raised e, s)))
  unfolding apply_found need_pending
  apply_found-cases s id time r = elim (Bool-cases (is_expired r.state)) [
    | inl over ↦ inr (expired_error "The memory write proposal has expired.", rw over refl)
    | inr lasting ↦ elim (Bool-cases (is_pending r.state)) [
      | inl pending ↦ inl (pending, rw (lasting, pending) refl)
      | inr settled ↦ inr (
        conflict (
            str_append "The memory write proposal is already "
              (str_append (state_value r.state) ".")),
        rw (lasting, settled) refl,
      )
    ]
  ]

  -- What `get` returns is what it leaves under the identifier.
  pub get_proposal-there :
      (s : MemoryWriteProposalStore) (id : String) (r : ProposalRecord)
      → (get_proposal env id s).0 ≡ ok r
      → get (get_proposal env id s).1.records id ≡ some r
  unfolding get_proposal find
  get_proposal-there s id r h = elim (Option-cases (get s.records id)) [
    | inl absent ↦ absurd (raised_ne _ r (rw absent at h))
    | inr (x, found) ↦
        let (y, e, there) = expire-there env s id x found in
        let same : y ≡ r = ok-injective y r (sym (ap (λ z. z.0) e) ∙ (rw found at h)) in
        rw found (there ∙ ap some same)
  ]

  pub mark_applied-Keeps :
      (s : MemoryWriteProposalStore) (id : String) (time : ℕ)
      → Keeps s (mark_applied env id time s).1
  unfolding mark_applied
  mark_applied-Keeps s id time =
      bind_case s (get_proposal env id s).0 (get_proposal env id s).1 (apply_found env id time)
        (get_proposal-Keeps s id)
        λ r h.
          let t = (get_proposal env id s).1 in
          elim (apply_found-cases t id time r) [
            | inr (e, refused) ↦ subst (λ x. Keeps t x.1) (sym refused) (λ j x found k. found)
            | inl (pending, done) ↦
                subst (λ x. Keeps t x.1) (sym done)
                  (Keeps-put t id _ t.calls λ x there.
                    let one : x ≡ r = cc (get_proposal-there s id r h) in
                    ap (λ y. is_applied y.state) one ∙ not_applied r.state pending)
          ]

  pub put_proposal-Keeps :
      (s : MemoryWriteProposalStore) (p : MemoryWriteProposal) → Keeps s (put_proposal env p s).1
  unfolding put_proposal put_over store_new put_again
  put_proposal-Keeps s p = elim (Option-cases (get s.records p.proposal_id)) [
    | inl absent ↦ rw absent (Keeps-put s p.proposal_id _ s.calls λ x there. absurd (cc))
    | inr (old, found) ↦
        let m = expire env p.proposal_id old in
        rw found (
          bind_case s (m s).0 (m s).1 (put_again env p) (expire-Keeps env s p.proposal_id old found)
            λ r h.
              let t = (m s).1 in
              elim (Bool-cases (is_current r.state)) [
                | inl current ↦ rw current (λ j x e k. e)
                | inr over ↦ rw over (
                    Keeps-put t p.proposal_id _ t.calls λ x there.
                      let (y, e, now) = expire-there env s p.proposal_id old found in
                      let same : y ≡ r = ok-injective y r (sym (ap (λ z. z.0) e) ∙ h) in
                      let one : x ≡ r = cc in
                      ap (λ z. is_applied z.state) one ∙ not_current r.state over)
              ])
  ]
