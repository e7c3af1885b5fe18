-- ===== src/Examples/Executions.antt =====
-- An execution from its creation to its end.
use cauco.Base.{
  All, length, ◌≤◌, ◌≡◌, refl, String, true, false, some, none, List, [], ◌∷◌, ◌⊎◌, ok, raised,
  string_eq, ltb, arith,
}
use cauco.Base.Dict.{get, put, size}
use cauco.Base.Dict.Laws.{Each-empty}
use cauco.Base.Ids.{codes, is_opaque_id, is_sha256}
use cauco.Examples.{env, tick_token, tick_token-injective, digest}
use cauco.Execution.Models.{
  ExecutionStatus, StepExecutionStatus, AgentPlanStepExecutionRecord, AgentPlanExecutionRecord,
  record_rejection, capacity,
}
use cauco.Execution.Invariant.Listing.{IsListed, list_executions-IsListed}
use cauco.Execution.Store.{
  list_executions, ExecutionStore, new, make_room, save, clock, token, event, with_event,
}
use cauco.Execution.Store.Steps
use cauco.Execution.Invariant.Create.{IsFresh, create-keeps-open}
use cauco.Execution.Invariant.Room.{IsDroppable, without}
use cauco.Execution.Invariant.Room.Oldest.{AllOpen, EndedFirst, make_room-drops_oldest}
use cauco.Execution.Calls.{Call, apply, run}
use cauco.Execution.Calls.Trace.{IsGood, run-IsGood, IsGood-IssuesNew}
use cauco.Execution.Calls.Moves.{HasMoved, apply-HasMoved}
use cauco.Execution.Calls.New.{new-run-IsGood}
use cauco.Execution.Calls.History.{Extends, run-Extends}

abbrev step : AgentPlanStepExecutionRecord
step = record {
  step_index = 1;
  tool_id = "git";
  operation_id = "status";
  target = none;
  status = StepExecutionStatus.pending;
  started_at = none;
  completed_at = none;
  result = none;
  error = none;
  execution_performed = false;
}

step-IsFresh : IsFresh (step ∷ [])
step-IsFresh = (
  (
    record {
      completed = λ e. absurd (cc);
      failed = λ e. absurd (cc);
      running = λ e. absurd (cc);
      pending = λ e. (refl, refl);
    },
    refl,
  ),
  tt,
)

abbrev pub empty : ExecutionStore
empty = record { max_records = 2; records = []; by_review = []; rejected_events = []; calls = 0 }

pub empty-IsGood : IsGood env empty
empty-IsGood = record {
  sound = record { unique = tt; held = Each-empty _; reviews = Each-empty _; room = omega arith };
  issued = Each-empty _;
}

abbrev id : String
id = "exec_0123456789_abcdefghijkl"

abbrev calls : List Call
calls =
    Call.create "planrev_1" digest (step ∷ [])
    ∷ Call.start_step id 1
    ∷ Call.finish_step id 1 none (some "failed") true
    ∷ Call.retry_step id 1
    ∷ []

run-IsGood_example : IsGood env (run env calls empty)
run-IsGood_example =
    run-IsGood env tick_token-injective calls empty (step-IsFresh, (tt, (tt, (tt, tt))))
      empty-IsGood

-- The store after the first call.
abbrev first : ExecutionStore
first = run env (Call.create "planrev_1" digest (step ∷ []) ∷ []) empty

first-IsGood : IsGood env first
first-IsGood =
    run-IsGood env tick_token-injective (Call.create "planrev_1" digest (step ∷ []) ∷ []) empty
      (step-IsFresh, tt) empty-IsGood

abbrev made : AgentPlanExecutionRecord
made = record {
  execution_id = id;
  review_id = "planrev_1";
  snapshot_digest = digest;
  status = ExecutionStatus.pending_execution;
  created_at = 1;
  started_at = none;
  completed_at = none;
  current_step_index = none;
  total_steps = 1;
  step_records = step ∷ [];
  execution_performed = false;
  failure_reason = none;
  audit_events =
      record {
        event_id = "audit_xx0123456789_abcdefghijkl";
        event_type = "execution_created";
        timestamp = 3;
        execution_id = some id;
        review_id = "planrev_1";
        outcome = "accepted";
        safe_message = "Execution record created.";
        step_index = none;
        tool_id = none;
        operation_id = none;
        metadata = [];
      }
      ∷ [];
}

made_there : get first.records id ≡ some made
unfolding run apply Steps.create Steps.store_new Steps.checked record_rejection make_room
    is_opaque_id codes is_sha256 with_event event clock token save get put tick_token
made_there = refl

run-Extends_example :
    (get (run env calls first).records id ≡ none)
    ⊎ ((x : AgentPlanExecutionRecord) × (get (run env calls first).records id ≡ some x)
        × Extends made x)
run-Extends_example =
    run-Extends env calls first id made tick_token-injective (step-IsFresh, (tt, (tt, (tt, tt))))
      first-IsGood made_there

create-keeps-open_example :
    get (Steps.create env "planrev_2" digest (step ∷ []) first).1.records id ≡ some made
create-keeps-open_example =
    create-keeps-open env first first-IsGood.sound "planrev_2" digest (step ∷ [])
      (IsGood-IssuesNew env tick_token-injective first first-IsGood) id made made_there refl

make_room-drops_oldest_example :
    ((ltb (size first.records) first.max_records ≡ true) × (make_room first ≡ (ok tt, first)))
    ⊎ ((ltb (size first.records) first.max_records ≡ false)
        × ((AllOpen first
              × (make_room first
                  ≡ (raised (capacity "Execution capacity is full of active records."), first)))
            ⊎ ((r : AgentPlanExecutionRecord) × IsDroppable first r
                × EndedFirst first r
                × (make_room first ≡ (ok tt, without first r)))))
make_room-drops_oldest_example = make_room-drops_oldest first first-IsGood.sound

empty_is_new : new 2 ≡ ok empty
unfolding new
empty_is_new = refl

new-run-IsGood_example : IsGood env (run env calls empty)
new-run-IsGood_example =
    new-run-IsGood env 2 empty calls tick_token-injective empty_is_new
      (step-IsFresh, (tt, (tt, (tt, tt))))

apply-HasMoved_example : HasMoved id made (apply env (Call.start_step id 1) first)
apply-HasMoved_example =
    apply-HasMoved env (Call.start_step id 1) first id made tick_token-injective first-IsGood
      made_there

list_executions-IsListed_example :
    (rs : List AgentPlanExecutionRecord) × (list_executions none (some "planrev_1") 1 first
      ≡ (ok rs, first))
    × (length rs ≤ 1)
    × All (IsListed first none (some "planrev_1")) rs
list_executions-IsListed_example =
    list_executions-IsListed first none (some "planrev_1") 1 first-IsGood.sound refl
