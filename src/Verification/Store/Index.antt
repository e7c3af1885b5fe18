-- ===== src/Verification/Store/Index.antt =====
-- The two dictionaries of `VerificationStore` agree: one record for each execution.
use text.Mathlib.TextEquality.{eq_iff}
use text.Mathlib.TextLemmas.{append_cancel_left}
use cauco.Base.{
  suc, ◌≤◌, ◌<◌, ◌≡◌, refl, sym, ap, ◌∙◌, String, str_append, false, none, some, List, [], ◌∷◌, ◌⊎◌,
  inl, inr, ltb, ◌==◌, string_eq, Bool-cases, Option-cases, ok, raised, All, arith,
}
use cauco.Base.Dict.{get, put, remove, size, values}
use cauco.Base.Dict.Laws.{
  get-remove, get-put, get-put_self, get_of_remove, get-remove_ne, size-remove_old, size-remove-le,
  size-put-le, Each, Each-put, Each-values, Unique, Unique-put, Unique-remove,
}
use cauco.Base.Sort.{sorted}
use cauco.Base.Sort.Laws.{All-sorted}
use cauco.Base.Environment.{Environment}
use cauco.Base.Evolution.{IsIssued, NeverRepeats}
use cauco.Verification.Models.{VerificationRecord, VerificationError, capacity}
use cauco.Verification.Store.{VerificationStore, created_before, drop_oldest, make_room}

-- A record as the store holds it: under its own identifier, and found by its execution.
pub record IsHeld (s : VerificationStore) (id : String) (r : VerificationRecord) : Type 0 where
  pub own_id : r.verification_id ≡ id
  pub indexed : get s.by_execution r.execution_id ≡ some id

-- The record that an execution leads to.
abbrev pub LeadsTo : VerificationStore → String → String → Type 0
LeadsTo s execution_id id =
    (r : VerificationRecord) × (get s.records id ≡ some r) × (r.execution_id ≡ execution_id)

module _ (env : Environment) where
  pub record IsSoundStore (s : VerificationStore) : Type 0 where
    pub unique : Unique s.records
    pub held : Each (IsHeld s) s.records
    pub leads : Each (LeadsTo s) s.by_execution
    pub issued : Each (λ id r. IsIssued env "verify_" s.calls id) s.records
    pub room : size s.records ≤ s.max_records

  abbrev pub without : VerificationStore → VerificationRecord → VerificationStore
  without s r = record s {
    records = remove s.records r.verification_id;
    by_execution = remove s.by_execution r.execution_id;
  }

  -- Two records of one execution are one.
  module _ (s : VerificationStore) (h : IsSoundStore s) (id j : String) (r x : VerificationRecord)
      (found : get s.records id ≡ some r) (there : get s.records j ≡ some x) where
    one_execution : r.execution_id ≡ x.execution_id → id ≡ j
    one_execution same =
        let a = (h.held id r found).indexed in
        let b = (h.held j x there).indexed in
        let c : get s.by_execution x.execution_id ≡ some id =
          ap (get s.by_execution) (sym same) ∙ a in
        cc

    other_execution : (r.verification_id == j) ≡ false → (r.execution_id == x.execution_id) ≡ false
    other_execution differ = elim (Bool-cases (r.execution_id == x.execution_id)) [
      | inr other ↦ other
      | inl same ↦
          let ids : r.verification_id ≡ j =
            (h.held id r found).own_id
            ∙ one_execution ((eq_iff r.execution_id x.execution_id).0 same) in
          absurd (cc ((eq_iff r.verification_id j).1 ids, differ))
    ]

    other_record : (r.execution_id == x.execution_id) ≡ false → (r.verification_id == j) ≡ false
    other_record differ = elim (Bool-cases (r.verification_id == j)) [
      | inr other ↦ other
      | inl same ↦
          let ids : id ≡ j = sym (h.held id r found).own_id ∙ (eq_iff r.verification_id j).0 same in
          let one : r ≡ x = cc in
          absurd
            (cc ((eq_iff r.execution_id x.execution_id).1 (ap (λ y. y.execution_id) one), differ))
    ]

  without-IsSoundStore :
      (s : VerificationStore) (h : IsSoundStore s) (id : String) (r : VerificationRecord)
      → get s.records id ≡ some r
      → IsSoundStore (without s r)
  without-IsSoundStore s h id r found = record {
    unique = Unique-remove s.records r.verification_id h.unique;
    held = λ j x q.
        let (other, e) = get_of_remove s.records r.verification_id j x q in
        record {
          own_id = (h.held j x e).own_id;
          indexed =
              get-remove_ne s.by_execution r.execution_id x.execution_id j
                (other_execution s h id j r x found e other) (h.held j x e).indexed;
        };
    leads = λ v j q.
        let (other, e) = get_of_remove s.by_execution r.execution_id v j q in
        let (x, at_j, names) = h.leads v j e in
        let differ : (r.execution_id == x.execution_id) ≡ false =
          ap (λ y. r.execution_id == y) names ∙ other in
        (
          x,
          get-remove_ne s.records r.verification_id j x
              (other_record s h id j r x found at_j differ) at_j,
          names,
        );
    issued = λ j x q. h.issued j x (get_of_remove s.records r.verification_id j x q).1;
    room = omega (arith, h.room, size-remove-le s.records r.verification_id);
  }

  values_held :
      (s : VerificationStore)
      → IsSoundStore s
      → All (λ r. get s.records r.verification_id ≡ some r) (values s.records)
  values_held s h =
      Each-values (λ r. get s.records r.verification_id ≡ some r) s.records h.unique
        λ id r e. ap (get s.records) (h.held id r e).own_id ∙ e

  -- What `_make_room` leaves: room for one record, and no execution that was not there.
  pub record HasRoom (s t : VerificationStore) : Type 0 where
    pub sound : IsSoundStore t
    pub calls : t.calls ≡ s.calls
    pub room : size t.records < t.max_records
    pub absent : (e : String) → get s.by_execution e ≡ none → get t.by_execution e ≡ none

  drop_oldest-cases :
      (s : VerificationStore) (rs : List VerificationRecord)
      → IsSoundStore s
      → All (λ r. get s.records r.verification_id ≡ some r) rs
      → ((e : VerificationError) × (drop_oldest rs s ≡ (raised e, s)))
        ⊎ ((t : VerificationStore) × HasRoom s t × (drop_oldest rs s ≡ (ok tt, t)))
  unfolding drop_oldest
  drop_oldest-cases s [] h a = inl (capacity "Verification capacity is full.", refl)
  drop_oldest-cases s (r ∷ rs) h a = inr (
    without s r,
    record {
      sound = without-IsSoundStore s h r.verification_id r a.0;
      calls = refl;
      room = omega (arith, h.room, size-remove_old s.records r.verification_id r a.0);
      absent = λ e none_there. ground (arith, get-remove s.by_execution r.execution_id e);
    },
    rw a.0 refl,
  )

  pub make_room-cases :
      (s : VerificationStore)
      → IsSoundStore s
      → ((e : VerificationError) × (make_room s ≡ (raised e, s)))
        ⊎ ((t : VerificationStore) × HasRoom s t × (make_room s ≡ (ok tt, t)))
  unfolding make_room
  make_room-cases s h = elim (Bool-cases (ltb (size s.records) s.max_records)) [
    | inl room ↦ inr (
      s,
      record { sound = h; calls = refl; room = ground arith; absent = λ e absent. absent },
      rw room refl,
    )
    | inr full ↦
        let rs = sorted created_before (values s.records) in
        let held =
          All-sorted (λ r. get s.records r.verification_id ≡ some r) created_before
            (values s.records) (values_held s h) in
        elim (drop_oldest-cases s rs h held) [
          | inl (e, fails) ↦ inl (e, rw full fails)
          | inr (t, room, drops) ↦ inr (t, room, rw full drops)
        ]
  ]

  -- An identifier just issued is not in use.
  pub fresh :
      NeverRepeats env
      → (s : VerificationStore) → IsSoundStore s
      → get s.records (str_append "verify_" (env.token s.calls)) ≡ none
  fresh distinct s h =
      let id = str_append "verify_" (env.token s.calls) in
      elim (Option-cases (get s.records id)) [
        | inl absent ↦ absent
        | inr (x, found) ↦
            let (m, before, e) = h.issued id x found in
            let clash : s.calls ≡ m =
              distinct s.calls m
                (append_cancel_left "verify_" (env.token s.calls) (env.token m) e) in
            absurd (omega arith)
      ]

  -- The store with a new record.
  abbrev pub with_new : VerificationStore → VerificationRecord → VerificationStore
  with_new s r = record s {
    records = put s.records r.verification_id r;
    by_execution = put s.by_execution r.execution_id r.verification_id;
    calls = suc (suc s.calls);
  }

  pub with_new-IsSoundStore :
      (s : VerificationStore) (h : IsSoundStore s) (r : VerificationRecord)
      → r.verification_id ≡ str_append "verify_" (env.token s.calls)
      → get s.records r.verification_id ≡ none
      → get s.by_execution r.execution_id ≡ none
      → size s.records < s.max_records
      → IsSoundStore (with_new s r)
  with_new-IsSoundStore s h r names absent unverified room = record {
    unique = Unique-put s.records r.verification_id r h.unique;
    held =
        Each-put (IsHeld (with_new s r)) s.records r.verification_id r
          (λ j x e. record {
            own_id = (h.held j x e).own_id;
            indexed =
                let differ : (r.execution_id == x.execution_id) ≡ false =
                  differ_from x (h.held j x e).indexed in
                cc (
                  get-put s.by_execution r.execution_id r.verification_id x.execution_id,
                  differ,
                  (h.held j x e).indexed,
                );
          })
          (record {
            own_id = refl;
            indexed = get-put_self s.by_execution r.execution_id r.verification_id;
          });
    leads =
        Each-put (LeadsTo (with_new s r)) s.by_execution r.execution_id r.verification_id
          (λ v j e.
            let (x, at_j, named) = h.leads v j e in
            let other : (r.verification_id == j) ≡ false = apart j x at_j in
            (x, cc (get-put s.records r.verification_id r j, other, at_j), named))
          (r, get-put_self s.records r.verification_id r, refl);
    issued =
        Each-put (λ id x. IsIssued env "verify_" (suc (suc s.calls)) id) s.records r.verification_id
          r (λ id x e. let (m, before, same) = h.issued id x e in (m, omega arith, same))
          (s.calls, omega arith, names);
    room = omega (arith, size-put-le s.records r.verification_id r);
  }
    where
      differ_from :
          {j : String} (x : VerificationRecord)
          → get s.by_execution x.execution_id ≡ some j
          → (r.execution_id == x.execution_id) ≡ false
      differ_from x e = elim (Bool-cases (r.execution_id == x.execution_id)) [
        | inr other ↦ other
        | inl same ↦
            let one : r.execution_id ≡ x.execution_id =
              (eq_iff r.execution_id x.execution_id).0 same in
            absurd (cc (unverified, e, one))
      ]

      apart :
          (j : String) (x : VerificationRecord)
          → get s.records j ≡ some x
          → (r.verification_id == j) ≡ false
      apart j x e = elim (Bool-cases (r.verification_id == j)) [
        | inr other ↦ other
        | inl same ↦
            let one : r.verification_id ≡ j = (eq_iff r.verification_id j).0 same in
            absurd (cc (absent, e, one))
      ]
