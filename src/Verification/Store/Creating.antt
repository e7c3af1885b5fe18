-- ===== src/Verification/Store/Creating.antt =====
-- What `create` of `VerificationStore` leaves, and what is then found.
use mathlib.Core.Path.{subst}
use cauco.Base.{
  ℕ, Bool-cases, leb, ◌&&◌, suc, ◌≡◌, refl, sym, ap, ◌∙◌, str_append, some, List, [], ◌∷◌, ◌⊎◌, inl,
  inr, string_eq, Option-cases, Result, ok, raised, arith,
}
use cauco.Base.Dict.{get}
use cauco.Base.Dict.Laws.{get-put_self, Each-empty}
use cauco.Base.Environment.{Environment}
use cauco.Base.Evolution.{NeverRepeats}
use cauco.Verification.Models.{
  VerificationRecord, VerificationError, verification_rejection, conflict, value_error,
}
use cauco.Verification.Store.{
  VerificationStore, VerificationFields, created, stored, new_record, store_new, create,
  for_execution, new,
}
use cauco.Verification.Store.Index.{
  IsSoundStore, IsHeld, LeadsTo, make_room-cases, fresh, with_new, with_new-IsSoundStore,
}

-- Calls of the environment alone.
later-IsSoundStore :
    (env : Environment) (s : VerificationStore)
    → IsSoundStore env s
    → IsSoundStore env (record s { calls = suc (suc s.calls) })
later-IsSoundStore env s h = record {
  unique = h.unique;
  held =
      λ id r e. let held = h.held id r e in record { own_id = held.own_id; indexed = held.indexed };
  leads = λ v j e. h.leads v j e;
  issued = λ id r e. let (m, before, same) = h.issued id r e in (m, omega arith, same);
  room = h.room;
}

module _ (env : Environment) (distinct : NeverRepeats env) (s : VerificationStore)
    (h : IsSoundStore env s) (f : VerificationFields) where
  -- `create` raises, and the store is sound still; or it has stored a record of the fields.
  pub create-cases :
      ((e : VerificationError) × (t : VerificationStore) × IsSoundStore env t
        × (create env f s ≡ (raised e, t)))
      ⊎ ((r : VerificationRecord) × (t : VerificationStore) × IsSoundStore env (with_new env t r)
          × (r.execution_id ≡ f.execution_id)
          × (create env f s ≡ (ok r, with_new env t r)))
  unfolding create store_new new_record stored created
  create-cases = elim (Option-cases (get s.by_execution f.execution_id)) [
    | inr (id, there) ↦
        inl
          (conflict "A verification record already exists for this execution.", s, h, rw there refl)
    | inl unverified ↦ elim (make_room-cases env s h) [
      | inl (e, full) ↦ inl (e, s, h, rw (unverified, full) refl)
      | inr (t, has_room, makes) ↦
          let r = created (str_append "verify_" (env.token t.calls)) f (env.clock (suc t.calls)) in
          elim (Option-cases (verification_rejection r)) [
            | inr (message, fails) ↦ inl (
              value_error message,
              record t { calls = suc (suc t.calls) },
              later-IsSoundStore env t has_room.sound,
              rw (unverified, makes, fails) refl,
            )
            | inl passes ↦ inr (
              r,
              t,
              with_new-IsSoundStore env t has_room.sound r refl
                  (fresh env distinct t has_room.sound) (has_room.absent f.execution_id unverified)
                  has_room.room,
              refl,
              rw (unverified, makes, passes) refl,
            )
          ]
    ]
  ]

-- The calls of `create` in a row; no other method writes.
unfoldable pub run : Environment → List VerificationFields → VerificationStore → VerificationStore
unfolding create
run env [] s = s
run env (f ∷ fs) s = run env fs (create env f s).1

create-IsSoundStore :
    (env : Environment) (s : VerificationStore) (f : VerificationFields)
    → NeverRepeats env
    → IsSoundStore env s
    → IsSoundStore env (create env f s).1
create-IsSoundStore env s f distinct h = elim (create-cases env distinct s h f) [
  | inl (e, t, sound, fails) ↦ rw fails sound
  | inr (r, t, sound, same, makes) ↦ rw makes sound
]

run-IsSoundStore :
    (env : Environment) (fs : List VerificationFields) (s : VerificationStore)
    → NeverRepeats env
    → IsSoundStore env s
    → IsSoundStore env (run env fs s)
unfolding run
run-IsSoundStore env [] s distinct h = h
run-IsSoundStore env (f ∷ fs) s distinct h =
    run-IsSoundStore env fs (create env f s).1 distinct (create-IsSoundStore env s f distinct h)

new-IsSoundStore :
    (env : Environment) (max_records : ℕ) (s : VerificationStore)
    → new max_records ≡ ok s
    → IsSoundStore env s
unfolding new
new-IsSoundStore env max_records s made =
    elim (Bool-cases (leb 1 max_records && leb max_records 10000)) [
      | inr wrong ↦ absurd (raised_is_not_ok _ (rw wrong at made))
      | inl fits ↦
          let same : empty ≡ s = ok_is (rw fits at made) in
          subst (λ t. IsSoundStore env t) same
            (record {
              unique = tt;
              held = Each-empty (IsHeld empty);
              leads = Each-empty (LeadsTo empty);
              issued = Each-empty _;
              room = omega arith;
            })
    ]
  where
    empty : VerificationStore
    empty = record { max_records = max_records; records = []; by_execution = []; calls = 0 }

    raised_is_not_ok :
        (e : VerificationError)
        → ¬ (◌≡◌ {A = Result VerificationError VerificationStore} (raised e) (ok s))
    raised_is_not_ok e h = absurd (cc)

    ok_is : ◌≡◌ {A = Result VerificationError VerificationStore} (ok empty) (ok s) → empty ≡ s
    ok_is h = cc

-- Whatever is created after `__init__`, with success or not, the store stays within its capacity, each
-- record is found by its own execution and no other, and each entry of the index leads to a record of
-- its execution. Tokens never repeat.
pub new-run-IsSoundStore :
    (env : Environment) (max_records : ℕ) (fs : List VerificationFields) (s : VerificationStore)
    → NeverRepeats env
    → new max_records ≡ ok s
    → IsSoundStore env (run env fs s)
new-run-IsSoundStore env max_records fs s distinct made =
    run-IsSoundStore env fs s distinct (new-IsSoundStore env max_records s made)

-- In a sound store, the record that `create` returns is what `for_execution` then returns for its
-- execution, and a second `create` for that execution raises the conflict and changes nothing. Tokens
-- never repeat.
pub create-for_execution :
    (env : Environment) (s t : VerificationStore) (f g : VerificationFields)
    (r : VerificationRecord)
    → NeverRepeats env
    → IsSoundStore env s
    → create env f s ≡ (ok r, t)
    → g.execution_id ≡ f.execution_id
    → (for_execution f.execution_id t ≡ (ok r, t))
      × (create env g t
          ≡ (raised (conflict "A verification record already exists for this execution."), t))
unfolding for_execution create
create-for_execution env s t f g r distinct h makes same = elim (create-cases env distinct s h f) [
  | inl (e, u, sound, fails) ↦ absurd (raised_ne e u (sym fails ∙ makes))
  | inr (x, u, sound, names, made) ↦
      let (one, at) = ok-injective x (with_new env u x) (sym made ∙ makes) in
      let indexed : get t.by_execution f.execution_id ≡ some r.verification_id =
        subst (λ k. get t.by_execution k ≡ some r.verification_id)
          (ap (λ y. y.execution_id) (sym one) ∙ names)
          (subst (λ y. get t.by_execution y.execution_id ≡ some y.verification_id) one
            (subst (λ v. get v.by_execution x.execution_id ≡ some x.verification_id) at
              (get-put_self u.by_execution x.execution_id x.verification_id))) in
      let there : get t.records r.verification_id ≡ some r =
        subst (λ y. get t.records y.verification_id ≡ some y) one
          (subst (λ v. get v.records x.verification_id ≡ some x) at
            (get-put_self u.records x.verification_id x)) in
      let again : get t.by_execution g.execution_id ≡ some r.verification_id =
        ap (get t.by_execution) same ∙ indexed in
      (rw (indexed, there) refl, rw again refl)
]
  where
    raised_ne :
        (e : VerificationError) (u : VerificationStore)
        → ¬ (
            ◌≡◌ {A = Result VerificationError VerificationRecord × VerificationStore}
              (raised e, u)
              (ok r, t))
    raised_ne e u k = absurd (cc)

    ok-injective :
        (x : VerificationRecord) (u : VerificationStore)
        → ◌≡◌ {A = Result VerificationError VerificationRecord × VerificationStore}
            (ok x, u)
            (ok r, t)
        → (x ≡ r) × (u ≡ t)
    ok-injective x u k = (cc, cc)
