-- ===== src/Recovery/Safety.antt =====
-- When `RecoveryPolicy` retries.
use mathlib.Core.Path.{subst}
use text.Mathlib.TextEquality.{eq_iff}
use cauco.Base.{
  ◌≤◌, ◌≡◌, refl, sym, ap, ◌⊎◌, String, Bool, true, false, ◌↔◌, inl, inr, arith, Bool-cases, any,
  not, ◌&&◌, ◌==◌, string_eq, pair_eq, if◌then◌else◌,
}
use cauco.Recovery.{
  RecoveryDecision, RecoveryContext, retry_safe_operations, transient_errors, replan_errors,
  never_retry_errors, is_in, may_retry, evaluate,
}

-- What a retry needs: nothing was mutated, the operation is one of three that only read, the error may
-- pass, and it is the first attempt that failed.
pub record IsRetriable (context : RecoveryContext) : Type 0 where
  pub unmutated : context.mutation_performed ≡ false
  pub reads :
      ((context.tool_id ≡ "git") × (context.operation_id ≡ "status"))
      ⊎ ((context.tool_id ≡ "filesystem")
          × ((context.operation_id ≡ "list_directory") ⊎ (context.operation_id ≡ "read_file")))
  pub transient :
      (context.error_code ≡ "timeout") ⊎ (context.error_code ≡ "temporarily_unavailable")
  pub first : context.attempt_count ≤ 1

conjuncts :
    (a b c d : Bool)
    → ((not a && b && c && d) ≡ true) ↔ ((a ≡ false) × (b ≡ true) × (c ≡ true) × (d ≡ true))
conjuncts a b c d = ground arith

choices :
    (a b c d : Bool)
    → ((if a
          then RecoveryDecision.abort
          else if b
          then RecoveryDecision.replan_required
          else if c
          then RecoveryDecision.abort
          else if d
          then RecoveryDecision.retry
          else RecoveryDecision.abort)
        ≡ RecoveryDecision.retry)
      ↔ ((a ≡ false) × (b ≡ false) × (c ≡ false) × (d ≡ true))
choices a b c d = ground arith

transient_lem :
    (code : String)
    → (is_in code transient_errors ≡ true)
      ↔ ((code ≡ "timeout") ⊎ (code ≡ "temporarily_unavailable"))
transient_lem code = (
  λ h. elim (Bool-cases ("timeout" == code)) [
    | inl timeout ↦ inl (sym ((eq_iff "timeout" code).0 timeout))
    | inr other ↦ inr (sym ((eq_iff "temporarily_unavailable" code).0 (ground arith)))
  ],
  λ h. elim h [
    | inl timeout ↦ ap (λ x. is_in x transient_errors) timeout
    | inr unavailable ↦ ap (λ x. is_in x transient_errors) unavailable
  ],
)

abbrev is_safe : String → String → Bool
is_safe tool operation = any (λ x. x == (tool, operation)) retry_safe_operations

reads_lem :
    (tool operation : String)
    → (is_safe tool operation ≡ true) ↔ (
        ((tool ≡ "git") × (operation ≡ "status"))
        ⊎ ((tool ≡ "filesystem") × ((operation ≡ "list_directory") ⊎ (operation ≡ "read_file"))))
reads_lem tool operation = (
  λ h. elim (Bool-cases (("git" == tool) && ("status" == operation))) [
    | inl git ↦ inl (
      sym ((eq_iff "git" tool).0 (ground arith)),
      sym ((eq_iff "status" operation).0 (ground arith)),
    )
    | inr other ↦ inr (
      sym ((eq_iff "filesystem" tool).0 (ground arith)),
      elim (Bool-cases ("list_directory" == operation)) [
        | inl lists ↦ inl (sym ((eq_iff "list_directory" operation).0 lists))
        | inr reads ↦ inr (sym ((eq_iff "read_file" operation).0 (ground arith)))
      ],
    )
  ],
  λ h. elim h [
    | inl (git, status) ↦ λ i. is_safe (git i) (status i)
    | inr (files, kind) ↦ elim kind [
      | inl lists ↦ λ i. is_safe (files i) (lists i)
      | inr reads ↦ λ i. is_safe (files i) (reads i)
    ]
  ],
)

-- What the last test of `evaluate` says.
may_retry_lem : (c : RecoveryContext) → (may_retry c ≡ true) ↔ IsRetriable c
unfolding may_retry
may_retry_lem c = (
  λ h.
      let (unmutated, reads, transient, few) = (conjuncts c.mutation_performed _ _ _).0 h in
      record {
        unmutated = unmutated;
        reads = (reads_lem c.tool_id c.operation_id).0 reads;
        transient = (transient_lem c.error_code).0 transient;
        first = ground arith;
      },
  λ r. (conjuncts c.mutation_performed _ _ _).1 (
    r.unmutated,
    (reads_lem c.tool_id c.operation_id).1 r.reads,
    (transient_lem c.error_code).1 r.transient,
    ground (arith, r.first),
  ),
)

-- A transient error is none of those that ask for a new plan or forbid a retry.
transient-open :
    (code : String)
    → is_in code transient_errors ≡ true
    → (is_in code replan_errors ≡ false) × (is_in code never_retry_errors ≡ false)
transient-open code h = elim (Bool-cases ("timeout" == code)) [
  | inl timeout ↦
      let e : "timeout" ≡ code = (eq_iff "timeout" code).0 timeout in
      subst (λ x. (is_in x replan_errors ≡ false) × (is_in x never_retry_errors ≡ false)) e
        (refl, refl)
  | inr other ↦
      let unavailable : ("temporarily_unavailable" == code) ≡ true = ground arith in
      let e : "temporarily_unavailable" ≡ code =
        (eq_iff "temporarily_unavailable" code).0 unavailable in
      subst (λ x. (is_in x replan_errors ≡ false) × (is_in x never_retry_errors ≡ false)) e
        (refl, refl)
]

-- The policy retries exactly when nothing was mutated, the operation is git's status or the file system's
-- listing of a directory or reading of a file, the error is a timeout or a temporary unavailability,
-- and at most one attempt was made.
pub evaluate-retry : (c : RecoveryContext) → (evaluate c ≡ RecoveryDecision.retry) ↔ IsRetriable c
unfolding evaluate
evaluate-retry c = (
  λ h. (may_retry_lem c).0 ((choices c.mutation_performed _ _ (may_retry c)).0 h).3,
  λ r.
      let (planned, open_to) =
        transient-open c.error_code ((transient_lem c.error_code).1 r.transient) in
      (choices c.mutation_performed _ _ (may_retry c)).1
        (r.unmutated, planned, open_to, (may_retry_lem c).1 r),
)
