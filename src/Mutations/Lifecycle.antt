-- ===== src/Mutations/Lifecycle.antt =====
-- What the methods of `MutationPreviewStore` do to a preview.
pub mod Methods
use mathlib.Core.Path.{subst}
use cauco.Base.{
  ℕ, suc, ◌≤◌, ◌≡◌, refl, sym, ap, ◌∙◌, String, str_append, Bool, true, false, not, ◌&&◌, Option,
  none, some, List, [], ◌∷◌, arith, ◌⊎◌, inl, inr, ◌==◌, string_eq, nat_eq, pair_eq, ltb, leb,
  Bool-cases, Option-cases, Result, ok, raised, carry_on, ◌+◌, ◌>>=◌,
}
use cauco.Base.Dict.{Dict, get, put, remove, size, is_some}
use cauco.Base.Dict.Laws.{Each, Each-put, Each-remove, get-put_self}
use cauco.Base.Results.Rules.{need_rule, ok_rule, assoc_rule}
use cauco.Base.Environment.{Environment}
use cauco.Base.Evolution.{
  NeverRepeats, Preorder, Evolved, Evolved-tick, Evolved-trans, Evolved-put, Evolved-remove,
  Evolved-new,
}
use cauco.Mutations.Models.{
  MutationPreviewStatus, MutationPreview, preview_rejection, MutationError,
}
use cauco.Mutations.Store.{
  MutationPreviewStore, StoreMethod, PreviewFields, created, or_else, is_pending, is_confirmed,
  is_expired, with_status, save, release, find, key_of, expire, drop_first, make_room, accepted,
  get_preview, active_preview, claim, claim_checked, consume, cancel, refuse_second, time_or_clock,
  store_new, create,
}

-- Which status may follow which, in any number of steps.
unfoldable pub may_become : MutationPreviewStatus → MutationPreviewStatus → Bool
may_become MutationPreviewStatus.pending_confirmation _ = true
may_become MutationPreviewStatus.confirmed MutationPreviewStatus.confirmed = true
may_become MutationPreviewStatus.confirmed MutationPreviewStatus.consumed = true
may_become MutationPreviewStatus.expired MutationPreviewStatus.expired = true
may_become MutationPreviewStatus.cancelled MutationPreviewStatus.cancelled = true
may_become MutationPreviewStatus.consumed MutationPreviewStatus.consumed = true
may_become _ _ = false

-- A preview that differs from another in its status alone, and that one may become.
abbrev pub Advances : MutationPreview → MutationPreview → Type 0
Advances a b = (may_become a.status b.status ≡ true) × (b ≡ with_status b.status a)

may_become_refl : (x : MutationPreviewStatus) → may_become x x ≡ true
unfolding may_become
may_become_refl x = ground arith

may_become_trans :
    (x y z : MutationPreviewStatus)
    → may_become x y ≡ true
    → may_become y z ≡ true
    → may_become x z ≡ true
unfolding may_become
may_become_trans x y z h k = ground arith

pub order : Preorder Advances
order = record {
  reflexive = λ a. (may_become_refl a.status, refl);
  transitive = λ {a} {b} {c} f g. (
    may_become_trans a.status b.status c.status f.0 g.0,
    g.1 ∙ ap (λ x. with_status c.status x) f.1,
  );
}

-- Each preview is stored under its own identifier.
abbrev pub OwnIds : MutationPreviewStore → Type 0
OwnIds s = Each (λ id p. p.preview_id ≡ id) s.records

module _ (env : Environment) where
  -- What a method does to the previews of a store.
  abbrev pub Step : MutationPreviewStore → MutationPreviewStore → Type 0
  Step s t = Evolved env "mutprev_" Advances s.calls s.records t.calls t.records × OwnIds t

  pub Step-trans : (a b c : MutationPreviewStore) → Step a b → (OwnIds b → Step b c) → Step a c
  Step-trans a b c f g = let (e, own) = g f.1 in (Evolved-trans env "mutprev_" order f.0 e, own)

  module _ (s : MutationPreviewStore) (own : OwnIds s) where
    pub Step-tick : (n : ℕ) → s.calls ≤ n → Step s (record s { calls = n })
    Step-tick n later = (Evolved-tick env "mutprev_" order s.records s.calls n later, own)

    pub Step-none : Step s s
    Step-none = Step-tick s.calls (omega arith)

    pub Step-put :
        (p q : MutationPreview) (active : Dict (String × ℕ) String) (n : ℕ)
        → s.calls ≤ n
        → get s.records p.preview_id ≡ some p
        → Advances p q
        → Step s (record s { records = put s.records p.preview_id q; active = active; calls = n })
    Step-put p q active n later found adv = (
      Evolved-trans env "mutprev_" order
          (Evolved-put env "mutprev_" order s.records s.calls p.preview_id p q found adv)
          (Evolved-tick env "mutprev_" order _ s.calls n later),
      Each-put (λ id x. x.preview_id ≡ id) s.records p.preview_id q own
          (ap (λ x. x.preview_id) adv.1),
    )

    pub pending_may : (x y : MutationPreviewStatus) → is_pending x ≡ true → may_become x y ≡ true
    unfolding may_become
    pending_may x y h = ground arith

    pub expire-cases :
        (p : MutationPreview)
        → ((n : ℕ) × (s.calls ≤ n) × (expire env p s ≡ (ok p, record s { calls = n })))
          ⊎ ((is_pending p.status ≡ true)
              × (expire env p s ≡ (
                ok (with_status MutationPreviewStatus.expired p),
                record s {
                  records =
                      put s.records p.preview_id (with_status MutationPreviewStatus.expired p);
                  active = remove s.active (key_of p);
                  calls = suc s.calls;
                },
              )))
    unfolding expire
    expire-cases p = elim (Bool-cases (is_pending p.status)) [
      | inr over ↦ inl (s.calls, omega arith, rw over refl)
      | inl pending ↦ elim (Bool-cases (leb p.expires_at (env.clock s.calls))) [
        | inl due ↦ inr (pending, rw (pending, due) refl)
        | inr early ↦ inl (suc s.calls, omega arith, rw (pending, early) refl)
      ]
    ]

    -- The rule for `_expire`: what follows sees the preview as it is stored.
    pub expire_rule :
        {A : Type 0} (p : MutationPreview) (body : MutationPreview → StoreMethod A)
        → get s.records p.preview_id ≡ some p
        → ((t : MutationPreviewStore) (q : MutationPreview)
            → OwnIds t
            → q.preview_id ≡ p.preview_id
            → get t.records p.preview_id ≡ some q
            → Step t (body q t).1)
        → Step s ((expire env p >>= body) s).1
    expire_rule p body found k = elim (expire-cases p) [
      | inl (n, later, e) ↦
          let t = record s { calls = n } in
          ok_rule (Step s) s (expire env p) body p t e
            (Step-trans s t (body p t).1 (Step-tick n later) λ o. k t p o refl found)
      | inr (pending, e) ↦
          let q = with_status MutationPreviewStatus.expired p in
          let t : MutationPreviewStore = record s {
            records = put s.records p.preview_id q;
            active = remove s.active (key_of p);
            calls = suc s.calls;
          } in
          ok_rule (Step s) s (expire env p) body q t e (
            Step-trans s t (body q t).1
              (Step-put p q (remove s.active (key_of p)) (suc s.calls) (omega arith) found
                (pending_may p.status MutationPreviewStatus.expired pending, refl))
              λ o. k t q o refl (get-put_self s.records p.preview_id q))
    ]

  pub expire-Step :
      (s : MutationPreviewStore) (own : OwnIds s) (p : MutationPreview)
      → get s.records p.preview_id ≡ some p
      → Step s (expire env p s).1
  expire-Step s own p found = elim (expire-cases s own p) [
    | inl (n, later, e) ↦ subst (λ x. Step s x.1) (sym e) (Step-tick s own n later)
    | inr (pending, e) ↦
        subst (λ x. Step s x.1) (sym e)
          (Step-put s own p _ (remove s.active (key_of p)) (suc s.calls) (omega arith) found
            (pending_may s own p.status MutationPreviewStatus.expired pending, refl))
  ]

  -- The rule for `get`.
  pub get_preview_rule :
      (s : MutationPreviewStore) (own : OwnIds s) {A : Type 0} (id : String)
      (body : MutationPreview → StoreMethod A)
      → ((t : MutationPreviewStore) (q : MutationPreview)
          → OwnIds t
          → q.preview_id ≡ id
          → get t.records id ≡ some q
          → Step t (body q t).1)
      → Step s ((get_preview env id >>= body) s).1
  unfolding get_preview find
  get_preview_rule s own id body k = assoc_rule (expire env) body (Step s) (find id _) s (
      need_rule (Step s) s (get s.records id) _ (λ p. expire env p >>= body) (λ _. Step-none s own)
        λ p found.
          let ids : p.preview_id ≡ id = own id p found in
          let there : get s.records p.preview_id ≡ some p = ap (λ j. get s.records j) ids ∙ found in
          expire_rule s own p body there
            λ t q o same now. k t q o (same ∙ ids) (ap (λ j. get t.records j) (sym ids) ∙ now))
