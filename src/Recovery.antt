-- ===== src/Recovery.antt =====
-- core/src/cauco_core/execution/recovery.py: what the runtime may do about a failed step.
pub mod Safety
use cauco.Base.{
  ℕ, String, Bool, ◌&&◌, not, List, [], ◌∷◌, any, leb, ◌==◌, string_eq, pair_eq, if◌then◌else◌,
}

pub data RecoveryDecision : Type 0 where
  retry skip replan_required abort : RecoveryDecision

pub record RecoveryContext : Type 0 where
  pub tool_id : String
  pub operation_id : String
  pub error_code : String
  pub execution_performed : Bool
  pub mutation_performed : Bool
  pub attempt_count : ℕ

abbrev pub max_retries : ℕ
max_retries = 1

abbrev pub retry_safe_operations : List (String × String)
retry_safe_operations =
    ("git", "status") ∷ ("filesystem", "list_directory") ∷ ("filesystem", "read_file") ∷ []

abbrev pub transient_errors : List String
transient_errors = "timeout" ∷ "temporarily_unavailable" ∷ []

abbrev pub replan_errors : List String
replan_errors = "stale_state" ∷ "index_stale" ∷ "worktree_stale" ∷ "remote_state_stale" ∷ []

abbrev pub never_retry_errors : List String
never_retry_errors =
    "confirmation_failed" ∷ "confirmation_phrase_mismatch" ∷ "digest_mismatch" ∷ "forbidden"
    ∷ "integrity_failure" ∷ "snapshot_mismatch" ∷ "sensitive_path" ∷ "verification_failed" ∷ []

-- `value in values`
abbrev pub is_in : String → List String → Bool
is_in value values = any (λ x. x == value) values

-- The last test of `evaluate`.
unfoldable pub may_retry : RecoveryContext → Bool
may_retry context =
    not context.mutation_performed
    && any (λ x. x == (context.tool_id, context.operation_id)) retry_safe_operations
    && is_in context.error_code transient_errors
    && leb context.attempt_count max_retries

-- `RecoveryPolicy.evaluate`
unfoldable pub evaluate : RecoveryContext → RecoveryDecision
evaluate context =
    if context.mutation_performed
    then RecoveryDecision.abort
    else if is_in context.error_code replan_errors
    then RecoveryDecision.replan_required
    else if is_in context.error_code never_retry_errors
    then RecoveryDecision.abort
    else if may_retry context
    then RecoveryDecision.retry
    else RecoveryDecision.abort
