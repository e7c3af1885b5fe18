-- ===== src/Execution/Invariant/Create.antt =====
-- `create` of core/src/cauco_core/execution/store.py keeps a store sound, and drops no open record.
use text.Mathlib.TextEquality.{eq_iff}
use cauco.Base.{
  ℕ, suc, ◌≤◌, ◌<◌, ◌≡◌, refl, sym, ◌∙◌, ap, String, str_append, true, false, Option, none, some,
  List, [], ◌∷◌, arith, ◌⊎◌, inl, inr, ltb, ◌==◌, string_eq, Bool-cases, Option-cases, ◌>>=◌, ok,
  raised, All, All-imp,
}
use cauco.Base.Dict.{get, put, size}
use cauco.Base.Dict.Laws.{
  get-put, get-put_self, get-remove, get-remove_ne, get_of_remove, size-put-le, size-remove_old,
  Each, Each-put, Unique-put,
}
use cauco.Base.Environment.{Environment}
use cauco.Execution.Models.{
  AgentPlanStepExecutionRecord, AgentPlanExecutionRecord, ExecutionError, is_terminal,
  record_rejection, ExecutionAuditEvent,
}
use cauco.Execution.Store.{ExecutionStore, StoreMethod, make_room, log}
use cauco.Execution.Store.Steps.{create, store_new, created, accepted}
use cauco.Execution.Lifecycle.{Evolves}
use cauco.Execution.Lifecycle.Sound.{IsSound, StepIsSound, IsUnperformed, Evolves-IsSound}
use cauco.Execution.Invariant.{IsSoundStore, IsHeld, LeadsTo}
use cauco.Execution.Invariant.Room.{
  droppable, without, room_made, make_room_lem, droppable-IsDroppable, without-IsSoundStore,
}

-- A store in which `_make_room` has made room.
pub record RoomFor (s t : ExecutionStore) : Type 0 where
  pub sound : IsSoundStore t
  pub room : size t.records < t.max_records
  pub max_records : t.max_records ≡ s.max_records
  pub calls : t.calls ≡ s.calls
  pub still_absent : (id : String) → get s.records id ≡ none → get t.records id ≡ none
  pub was_there :
      (id : String) (r : AgentPlanExecutionRecord)
      → get t.records id ≡ some r
      → get s.records id ≡ some r
  pub unreviewed : (v : String) → get s.by_review v ≡ none → get t.by_review v ≡ none
  pub kept :
      (id : String) (r : AgentPlanExecutionRecord)
      → get s.records id ≡ some r
      → (get t.records id ≡ some r) ⊎ (is_terminal r.status ≡ true)

module _ (s : ExecutionStore) (h : IsSoundStore s) where
  room_as_it_is : ltb (size s.records) s.max_records ≡ true → RoomFor s s
  room_as_it_is room = record {
    sound = h;
    room = ground arith;
    max_records = refl;
    calls = refl;
    still_absent = λ id e. e;
    was_there = λ id x e. e;
    unreviewed = λ v e. e;
    kept = λ id r e. inl e;
  }

  room_without :
      (r : AgentPlanExecutionRecord)
      → get s.records r.execution_id ≡ some r
      → is_terminal r.status ≡ true
      → RoomFor s (without s r)
  room_without r found over = record {
    sound = without-IsSoundStore s h r.execution_id r found;
    room = omega (arith, h.room, size-remove_old s.records r.execution_id r found);
    max_records = refl;
    calls = refl;
    still_absent = λ id e. ground (arith, get-remove s.records r.execution_id id);
    was_there = λ id x e. (get_of_remove s.records r.execution_id id x e).1;
    unreviewed = λ v e. ground (arith, get-remove s.by_review r.review_id v);
    kept = λ id x e. elim (Bool-cases (r.execution_id == id)) [
      | inl same ↦
          let ids : r.execution_id ≡ id = (eq_iff r.execution_id id).0 same in
          let one : r ≡ x = cc in inr (ap (λ y. is_terminal y.status) (sym one) ∙ over)
      | inr other ↦ inl (get-remove_ne s.records r.execution_id id x other e)
    ];
  }

  -- `_make_room` makes room, or raises and changes nothing.
  pub make_room-cases :
      ((e : ExecutionError) × (make_room s ≡ (raised e, s)))
      ⊎ ((t : ExecutionStore) × (make_room s ≡ (ok tt, t)) × RoomFor s t)
  make_room-cases = elim (Bool-cases (ltb (size s.records) s.max_records)) [
    | inl room ↦ inr (s, make_room_lem s h ∙ rw room refl, room_as_it_is room)
    | inr full ↦
        full_cases (droppable s) (droppable-IsDroppable s h) (make_room_lem s h ∙ rw full refl)
  ]
    where
      full_cases :
          (rs : List AgentPlanExecutionRecord)
          → All (λ r. (get s.records r.execution_id ≡ some r) × (is_terminal r.status ≡ true)) rs
          → make_room s ≡ room_made s rs
          → ((e : ExecutionError) × (make_room s ≡ (raised e, s)))
            ⊎ ((t : ExecutionStore) × (make_room s ≡ (ok tt, t)) × RoomFor s t)
      full_cases [] a e = inl (_, e)
      full_cases (r ∷ rs) a e = inr (without s r, e, room_without r a.0.0 a.0.1)

-- A new record under a new identifier and an unused review.
module _ (t : ExecutionStore) (h : IsSoundStore t) (room : size t.records < t.max_records)
    (id : String) (r : AgentPlanExecutionRecord) (n : ℕ) (absent : get t.records id ≡ none)
    (unreviewed : get t.by_review r.review_id ≡ none) (own : r.execution_id ≡ id)
    (sound : IsSound r) where
  abbrev added : ExecutionStore
  added = record t {
    records = put t.records id r;
    by_review = put t.by_review r.review_id id;
    calls = n;
  }

  added-reviews : Each (LeadsTo added) added.by_review
  added-reviews v j q = elim (Bool-cases (r.review_id == v)) [
    | inl same ↦
        let review : r.review_id ≡ v = (eq_iff r.review_id v).0 same in
        let ids : id ≡ j = cc (get-put t.by_review r.review_id id v, same) in
        (r, ap (get (put t.records id r)) (sym ids) ∙ get-put_self t.records id r, review)
    | inr other ↦
        let old : get t.by_review v ≡ some j = cc (get-put t.by_review r.review_id id v, other) in
        let (x, at_j, names) = h.reviews v j old in
        let differ : (id == j) ≡ false = ground (arith, eq_iff id j) in
        (x, cc (get-put t.records id r j, differ), names)
  ]

  added-IsSoundStore : IsSoundStore added
  added-IsSoundStore = record {
    unique = Unique-put t.records id r h.unique;
    held =
        Each-put (IsHeld added) t.records id r
          (λ j x e.
            let old = h.held j x e in
            let other : (r.review_id == x.review_id) ≡ false =
              ground (arith, eq_iff r.review_id x.review_id, old.by_review) in
            record {
              own_id = old.own_id;
              sound = old.sound;
              by_review = cc (get-put t.by_review r.review_id id x.review_id, other, old.by_review);
            })
          (record {
            own_id = own;
            sound = sound;
            by_review = get-put_self t.by_review r.review_id id;
          });
    reviews = added-reviews;
    room = omega (arith, room, size-put-le t.records id r);
  }

-- The steps that `ExecutionService.create` hands over: none has run.
abbrev pub IsFresh : List AgentPlanStepExecutionRecord → Type 0
IsFresh steps = All (λ step. StepIsSound step × IsUnperformed step) steps

created-IsSound :
    (id review_id digest : String) (steps : List AgentPlanStepExecutionRecord) (now : ℕ)
    → IsFresh steps
    → IsSound (created id review_id digest steps now)
created-IsSound id review_id digest steps now fresh = record {
  counted = refl;
  steps = All-imp (λ x. StepIsSound x × IsUnperformed x) StepIsSound (λ x p. p.0) steps fresh;
  finished = λ e. cc;
  called_off = λ e. cc;
  closed = refl;
  blamed = λ e. refl;
  unperformed =
      λ e. All-imp (λ x. StepIsSound x × IsUnperformed x) IsUnperformed (λ x p. p.1) steps fresh;
}

-- No identifier that the environment may still issue is in the store.
abbrev pub IssuesNew : Environment → ExecutionStore → Type 0
IssuesNew env s = (n : ℕ) → s.calls ≤ n → get s.records (str_append "exec_" (env.token n)) ≡ none

-- More calls of the environment and other rejections are no change of the records.
pub ticked-IsSoundStore :
    (s : ExecutionStore) (n : ℕ) (events : List ExecutionAuditEvent)
    → IsSoundStore s
    → IsSoundStore (record s { calls = n; rejected_events = events })
ticked-IsSoundStore s n events h = record {
  unique = h.unique;
  held = λ id r e.
      let old = h.held id r e in
      record { own_id = old.own_id; sound = old.sound; by_review = old.by_review };
  reviews = h.reviews;
  room = h.room;
}

-- The rule for `__post_init__`.
accepted_rule :
    (Q : ExecutionStore → Type 0) (o : Option String) (r : AgentPlanExecutionRecord)
    (body : AgentPlanExecutionRecord → StoreMethod AgentPlanExecutionRecord) (s : ExecutionStore)
    → Q s
    → Q (body r s).1
    → Q ((accepted o r >>= body) s).1
accepted_rule Q none r body s q p = p
accepted_rule Q (some message) r body s q p = q

module _ (env : Environment) (s : ExecutionStore) (h : IsSoundStore s) (review_id digest : String)
    (steps : List AgentPlanStepExecutionRecord) where
  -- What `create` may leave: the store as it was, a store with room, or one with a new record.
  pub create_rule :
      (Q : ExecutionStore → Type 0)
      → Q s
      → ((t : ExecutionStore) (n : ℕ) → RoomFor s t → t.calls < n → Q (record t { calls = n }))
      → ((t : ExecutionStore) (n : ℕ) (e : ExecutionAuditEvent)
          → RoomFor s t
          → t.calls < n
          → get s.by_review review_id ≡ none
          → let id = str_append "exec_" (env.token t.calls) in
            let r = log (created id review_id digest steps (env.clock (suc t.calls))) e in
            Q (record t {
              records = put t.records id r;
              by_review = put t.by_review review_id id;
              calls = n;
            }))
      → Q (create env review_id digest steps s).1
  unfolding create store_new
  create_rule Q same refused stored = elim (Option-cases (get s.by_review review_id)) [
    | inr (old, taken) ↦ rw taken same
    | inl free ↦ rw free (elim (make_room-cases s h) [
      | inl (e, full) ↦ rw full same
      | inr (t, made, roomy) ↦
          let id = str_append "exec_" (env.token t.calls) in
          let r = created id review_id digest steps (env.clock (suc t.calls)) in
          rw made (
            accepted_rule Q (record_rejection r) r (store_new env review_id id)
              (record t { calls = suc (suc t.calls) }) (refused t _ roomy (omega arith))
              (stored t _ _ roomy (omega arith) free))
    ])
  ]

  -- `create` keeps a store sound, whether it returns or raises.
  pub create-IsSoundStore :
      IssuesNew env s → IsFresh steps → IsSoundStore (create env review_id digest steps s).1
  create-IsSoundStore new fresh =
      create_rule IsSoundStore h
        (λ t n roomy later. ticked-IsSoundStore t n t.rejected_events roomy.sound)
        λ t n e roomy later free.
          let id = str_append "exec_" (env.token t.calls) in
          let r = created id review_id digest steps (env.clock (suc t.calls)) in
          added-IsSoundStore t roomy.sound roomy.room id (log r e) n
            (roomy.still_absent id (new t.calls (omega (arith, roomy.calls))))
            (roomy.unreviewed review_id free) refl
            (Evolves-IsSound (created-IsSound id review_id digest steps _ fresh) (Evolves.logged e))

  -- In a sound store in which no identifier that the environment may still issue is taken, a record
  -- that is neither completed, failed nor cancelled is there after `create` as it was before, whether
  -- `create` returns or raises.
  pub create-keeps-open :
      IssuesNew env s
      → (id : String) (r : AgentPlanExecutionRecord) → get s.records id ≡ some r
      → is_terminal r.status ≡ false
      → get (create env review_id digest steps s).1.records id ≡ some r
  create-keeps-open new id r found active =
      create_rule (λ t. get t.records id ≡ some r) found (λ t n roomy later. still_there t roomy)
        λ t n e roomy later free.
          let new_id = str_append "exec_" (env.token t.calls) in
          let gone : get t.records new_id ≡ none =
            roomy.still_absent new_id (new t.calls (omega (arith, roomy.calls))) in
          let there = still_there t roomy in
          let differ : (new_id == id) ≡ false = ground (arith, eq_iff new_id id) in
          cc (
            get-put t.records new_id
                (log (created new_id review_id digest steps (env.clock (suc t.calls))) e) id,
            differ,
            there,
          )
    where
      still_there : (t : ExecutionStore) → RoomFor s t → get t.records id ≡ some r
      still_there t roomy = elim (roomy.kept id r found) [
        | inl there ↦ there
        | inr over ↦ absurd (cc)
      ]
