-- ===== src/Agents/Models.antt =====
-- agents/src/cauco_agents/models.py: requests, routes, contexts and plans. A value of a context is JSON; a
-- step's typed input is the name of its class and its fields.
use cauco.Base.{
  ℕ, suc, String, Bool, true, not, ◌&&◌, ◌||◌, Option, none, some, List, [], ◌∷◌, ltb, nat_beq,
  if◌then◌else◌,
}
use cauco.Base.Dict.{is_some}
use cauco.Tools.Value.{Value}
use cauco.Agents.Bindings.{InputFields}

pub record AgentRequest : Type 0 where
  pub instruction : String
  pub intent : Option String
  pub context : List (String × Value)
  pub preferred_agent_id : Option String
  pub allow_execution : Bool

pub record AgentMatch : Type 0 where
  pub agent_id : String
  pub matched : Bool
  pub score : ℕ
  pub matched_signals : List String
  pub reasoning : List String
  pub priority : ℕ

-- `AgentMatch.__post_init__`: the message of the first check that fails.
unfoldable pub match_rejection : AgentMatch → Option String
match_rejection m =
    if ltb 100 m.score
    then some "Agent match score must be between 0 and 100."
    else if (m.matched && nat_beq m.score 0) || (not m.matched && not (nat_beq m.score 0))
    then some "Agent match state must agree with its score."
    else none

pub record AgentResult : Type 0 where
  pub agent_id : String
  pub agent_name : String
  pub status : String
  pub summary : String
  pub proposed_actions : List String
  pub warnings : List String
  pub requires_confirmation : Bool
  pub execution_performed : Bool
  pub metadata : List (String × Value)

pub record AgentRouteResult : Type 0 where
  pub request : AgentRequest
  pub selected_agent_id : Option String
  pub selected_agent_name : Option String
  pub best_match : Option AgentMatch
  pub matches : List AgentMatch
  pub result : Option AgentResult
  pub preferred_agent_rejected : Bool

pub record AgentMemoryReference : Type 0 where
  pub memory_id : String
  pub name : String
  pub kind : String
  pub layer : String
  pub title : String
  pub relative_path : String
  pub reason_selected : String
  pub excerpt : String
  pub excerpt_truncated : Bool
  pub modified_at : Option String
  pub excerpt_strategy : String
  pub selected_headings : List String

pub record AgentContext : Type 0 where
  pub agent_id : String
  pub instruction : String
  pub resolved_intent : Option String
  pub memory_references : List AgentMemoryReference
  pub context_summary : String
  pub limitations : List String
  pub metadata : List (String × Value)
  pub learning_guidance : List (List (String × Value))

pub record AgentToolReference : Type 0 where
  pub tool_id : String
  pub operation_id : String
  pub target : Option String

-- One of the dataclasses of `AgentOperationInput`.
pub record OperationInput : Type 0 where
  pub class_name : String
  pub fields : InputFields

pub record AgentPlanStep : Type 0 where
  pub order : ℕ
  pub title : String
  pub description : String
  pub source_memory_ids : List String
  pub proposed_action : String
  pub requires_confirmation : Bool
  pub execution_available : Bool
  pub warnings : List String
  pub tool_reference : Option AgentToolReference
  pub operation_input : Option OperationInput

-- `AgentPlanStep.__post_init__`
unfoldable pub step_rejection : AgentPlanStep → Option String
step_rejection step =
    if ltb step.order 1
    then some "Agent plan step order must be positive."
    else if step.execution_available
    then some "Phase 5B plan execution cannot be available."
    else if not (is_some step.tool_reference)
    then some "Phase 6A plan steps must reference a tool operation."
    else none

pub record AgentPlan : Type 0 where
  pub agent_id : String
  pub agent_name : String
  pub status : String
  pub objective : String
  pub context_used : Bool
  pub steps : List AgentPlanStep
  pub open_questions : List String
  pub warnings : List String
  pub requires_confirmation : Bool
  pub execution_performed : Bool
  pub metadata : List (String × Value)
  pub plan_version : ℕ

-- `tuple(step.order for step in steps) == tuple(range(n, …))`
unfoldable pub are_contiguous : ℕ → List AgentPlanStep → Bool
are_contiguous n [] = true
are_contiguous n (step ∷ steps) = nat_beq step.order n && are_contiguous (suc n) steps

-- `AgentPlan.__post_init__`
unfoldable pub plan_rejection : AgentPlan → Option String
plan_rejection plan =
    if plan.execution_performed
    then some "Phase 5B agents cannot report performed execution."
    else if not (nat_beq plan.plan_version 1)
    then some "Only ExecutionPlan version 1 is supported."
    else if not (are_contiguous 1 plan.steps)
    then some "Agent plan steps must use contiguous one-based ordering."
    else none
