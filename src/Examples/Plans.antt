-- ===== src/Examples/Plans.antt =====
-- A plan review that is pending, and decisions on it.
use cauco.Base.{
  ℕ, ◌≡◌, refl, String, true, false, none, some, List, [], ◌∷◌, ◌⊎◌, ok, raised, map, arith,
  string_eq,
}
use cauco.Base.Ids.{is_opaque_id, is_sha256}
use cauco.Base.Dict.{get, put}
use cauco.Base.Dict.Laws.{Each, Each-one}
use cauco.Base.Evolution.{IsIssued}
use cauco.Examples.{env, tick_token, tick_token-injective, digest}
use cauco.Tools.Value.{Value}
use cauco.Agents.Bindings.{InputFields, Input}
use cauco.Agents.Bindings.RoundTrip.{fields_plain}
use cauco.Agents.Models.{AgentRequest, AgentRouteResult, AgentContext, AgentPlan, AgentPlanStep}
use cauco.Reviews.Models.{
  AgentPlanReviewStatus, AgentPlanReviewRecord, copied, copy_context, copy_plan, snapshot_rejection,
  decision_rejection,
}
use cauco.Reviews.Payload.{snapshot_payload}
use cauco.Reviews.Payload.Covers.{
  approved_step, plan_is_plain, read_snapshot, read_snapshot-snapshot_payload,
}
use cauco.Reviews.Store
use cauco.Reviews.Store.{AgentPlanReviewStore, conflict, lapsed}
use cauco.Reviews.Store.Methods.{approval, transition, digest_of, normalize_review_text}
use cauco.Reviews.Store.Intact.{Follows, IsIntact}
use cauco.Reviews.Store.Steps.{IsIntactStore}
use cauco.Reviews.Store.Calls.{Call, run, run-Follows, run-IsIntact}
use cauco.Reviews.Store.Deciding.{NoteIs, IsDecided, transition-decides, transition-late}

abbrev pub id : String
id = "planrev_0123456789_abcdefghijkl"

abbrev strip : String → String
strip s = s

-- Some texts of a digest's form.
abbrev pub hash : Value → String
hash (Value.mapping fs) = digest
hash _ = "f123456789abcdef0123456789abcdef0123456789abcdef0123456789abcdef"

abbrev request : AgentRequest
request = record {
  instruction = "Write the notes";
  intent = none;
  context = [];
  preferred_agent_id = none;
  allow_execution = false;
}

abbrev routing : AgentRouteResult
routing = record {
  request = request;
  selected_agent_id = some "obsidian";
  selected_agent_name = some "Obsidian";
  best_match = none;
  matches = [];
  result = none;
  preferred_agent_rejected = false;
}

abbrev context : AgentContext
context = record {
  agent_id = "obsidian";
  instruction = "Write the notes";
  resolved_intent = none;
  memory_references = [];
  context_summary = "";
  limitations = [];
  metadata = [];
  learning_guidance = [];
}

abbrev step : AgentPlanStep
step = record {
  order = 1;
  title = "Write";
  description = "Write the notes";
  source_memory_ids = [];
  proposed_action = "write";
  requires_confirmation = true;
  execution_available = false;
  warnings = [];
  tool_reference =
      some (record { tool_id = "filesystem"; operation_id = "write_file"; target = none });
  operation_input = some (record {
    class_name = "FilesystemWriteInput";
    fields = InputFields.field "path" (Input.text "notes.md") InputFields.end;
  });
}

abbrev plan : AgentPlan
plan = record {
  agent_id = "obsidian";
  agent_name = "Obsidian";
  status = "planned";
  objective = "Write the notes";
  context_used = false;
  steps = step ∷ [];
  open_questions = [];
  warnings = [];
  requires_confirmation = true;
  execution_performed = false;
  metadata = [];
  plan_version = 1;
}

abbrev pub review : AgentPlanReviewRecord
review = record {
  review_id = id;
  status = AgentPlanReviewStatus.pending_review;
  created_at = 0;
  expires_at = 60;
  updated_at = 0;
  instruction = "Write the notes";
  selected_agent_id = "obsidian";
  routing = routing;
  context = context;
  plan = plan;
  snapshot_digest = digest;
  execution_authorized = false;
  execution_performed = false;
  approved_at = none;
  rejected_at = none;
  cancelled_at = none;
  expired_at = none;
  reviewer_note = none;
  rejection_reason = none;
  cancellation_reason = none;
  approval_warning = none;
  metadata = [];
}

abbrev pub store : ℕ → AgentPlanReviewRecord → AgentPlanReviewStore
store calls r = record {
  default_ttl_seconds = 60;
  max_records = 2;
  records = (id, r) ∷ [];
  calls = calls;
}

abbrev expired : AgentPlanReviewRecord
expired = lapsed 70 review

review-IsIntact : IsIntact hash id review
unfolding copied copy_context copy_plan snapshot_rejection decision_rejection is_opaque_id is_sha256
    digest_of snapshot_payload
review-IsIntact = record { own_id = refl; accepted = refl; copy = refl; sealed = refl }

expired-IsIntact : IsIntact hash id expired
unfolding copied copy_context copy_plan snapshot_rejection decision_rejection is_opaque_id is_sha256
    digest_of snapshot_payload
expired-IsIntact = record { own_id = refl; accepted = refl; copy = refl; sealed = refl }

pub there : (calls : ℕ) (r : AgentPlanReviewRecord) → get (store calls r).records id ≡ some r
unfolding get
there calls r = refl

pub intact :
    (calls : ℕ) (r : AgentPlanReviewRecord)
    → IsIntact hash id r
    → IsIntactStore env hash (store calls r)
unfolding get
intact calls r h = record { each = Each-one (IsIntact hash) id r h; unique = (refl, tt) }

issued : Each (λ j x. IsIssued env "planrev_" 1 j) (store 1 review).records
unfolding tick_token
issued = Each-one (λ j x. IsIssued env "planrev_" 1 j) id review (0, omega arith, refl)

no_note : (calls : ℕ) (r : AgentPlanReviewRecord) → NoteIs strip none none (store calls r)
unfolding normalize_review_text
no_note calls r = refl

abbrev calls : List Call
calls = Call.approve id none ∷ Call.cancel id none none ∷ Call.get_review id ∷ []

run-Follows_example :
    (get (run env hash strip calls (store 1 review)).records id ≡ none)
    ⊎ ((x : AgentPlanReviewRecord) × (get (run env hash strip calls (store 1 review)).records id
          ≡ some x)
        × Follows review x)
run-Follows_example =
    run-Follows env hash strip calls (store 1 review) id review tick_token-injective
      (intact 1 review review-IsIntact) issued (there 1 review)

abbrev empty : AgentPlanReviewStore
empty = record { default_ttl_seconds = 60; max_records = 2; records = []; calls = 0 }

made : Store.new 60 2 ≡ ok empty
unfolding Store.new
made = refl

run-IsIntact_example :
    Each
      (IsIntact hash)
      (run env hash strip
        (Call.create (record {
          instruction = "Write the notes";
          routing = routing;
          context = context;
          plan = plan;
          ttl_seconds = none;
        })
          ∷ calls)
        empty).records
run-IsIntact_example =
    run-IsIntact env hash strip 60 2 empty
      (Call.create (record {
        instruction = "Write the notes";
        routing = routing;
        context = context;
        plan = plan;
        ttl_seconds = none;
      })
        ∷ calls)
      tick_token-injective made

transition-decides_example :
    (new : AgentPlanReviewRecord) × IsDecided approval none 5 review new
    × (transition env hash strip id approval none (store 5 review) ≡ (
      ok new,
      record (store 5 review) { records = put (store 5 review).records id new; calls = 6 },
    ))
transition-decides_example =
    transition-decides env hash strip (store 5 review) id review approval none none
      (intact 5 review review-IsIntact) (there 5 review) refl (omega arith) (omega arith)
      (no_note 5 review)

transition-late_example : transition env hash strip id approval none (store 60 review) ≡ (
  raised (conflict "Plan review is already expired."),
  record (store 60 review) {
    records = put (store 60 review).records id (lapsed 60 review);
    calls = 61;
  },
)
transition-late_example =
    transition-late env hash strip (store 60 review) id review approval none none
      (intact 60 review review-IsIntact) (there 60 review) refl (omega arith) (no_note 60 review)

abbrev decimal : ℕ → String
decimal n = "0"

plan_plain : plan_is_plain decimal plan ≡ true
unfolding fields_plain
plan_plain = refl

read_snapshot-snapshot_payload_example :
    read_snapshot decimal (snapshot_payload "Write the notes" "obsidian" routing context plan)
    ≡ map approved_step (step ∷ [])
read_snapshot-snapshot_payload_example =
    read_snapshot-snapshot_payload decimal "Write the notes" "obsidian" routing context plan
      plan_plain
