-- ===== src/Examples/Memories.antt =====
-- A proposal that is applied, and a candidate that is reviewed.
use cauco.Base.{◌≡◌, refl, String, some, none, List, [], ◌∷◌, ok, string_eq}
use cauco.Base.Dict.{get}
use cauco.Base.Dict.Laws.{Each-one}
use cauco.Examples.{env, digest}
use cauco.Tools.Value.{null}
use cauco.Proposals
use cauco.Proposals.{
  MemoryWriteProposalState, MemoryWriteProposal, ProposalRecord, MemoryWriteProposalStore,
}
use cauco.Proposals.Once
use cauco.Proposals.Once.{Call, mark_applied-once}
use cauco.Candidates.Models.{
  MemoryCandidateStatus, MemoryCandidateDisposition, MemoryCandidateTarget, LessonCategory,
  MemoryCandidateRecord, review_rejection,
}
use cauco.Candidates.Store.{MemoryCandidateStore, approve, reject}
use cauco.Candidates.Review.{IsReviewed, approve-reject-IsReviewed}

abbrev proposal : MemoryWriteProposal
proposal = record {
  proposal_id = "p1";
  created_at = 0;
  source_type = none;
  source_id = none;
  content = null;
}

abbrev pending : ProposalRecord
pending = record {
  proposal = proposal;
  state = MemoryWriteProposalState.pending;
  created_at = 0;
  expires_at = 100;
  applied_at = none;
}

abbrev applied : ProposalRecord
applied = record pending { state = MemoryWriteProposalState.applied; applied_at = some 7 }

abbrev proposals : MemoryWriteProposalStore
proposals = record { ttl = 100; records = ("p1", pending) ∷ []; calls = 0 }

abbrev calls : List Call
calls = Call.put_proposal proposal ∷ Call.get_pending "p1" ∷ []

applied_first : (Proposals.mark_applied env "p1" 7 proposals).0 ≡ ok applied
unfolding Proposals.mark_applied Proposals.get_proposal Proposals.find Proposals.expire
    Proposals.aged Proposals.apply_found Proposals.need_pending get
applied_first = refl

mark_applied-once_example : ¬ (
    (Proposals.mark_applied env "p1" 9
      (Once.run env calls (Proposals.mark_applied env "p1" 7 proposals).1)).0
    ≡ ok applied)
mark_applied-once_example =
    mark_applied-once env proposals "p1" 7 9 applied applied calls applied_first

abbrev candidate : MemoryCandidateRecord
candidate = record {
  candidate_id = "memory_candidate_0123456789_abcdefghijkl";
  experience_id = "experience_0123456789_abcdefghijkl";
  verification_id = "verify_0123456789_abcdefghijkl";
  execution_id = "exec_0123456789_abcdefghijkl";
  review_id = "planrev_0123456789_abcdefghijkl";
  snapshot_digest = digest;
  lesson = record {
    category = LessonCategory.execution;
    observation = "o";
    lesson = "l";
    confidence = 500000;
    tool_id = none;
    operation_id = none;
    step_index = none;
  };
  target = MemoryCandidateTarget.learning;
  status = MemoryCandidateStatus.pending_review;
  disposition = none;
  rationale = "r";
  created_at = 0;
  expires_at = 100;
  reviewed_at = none;
  review_note = none;
  method = "m";
}

abbrev candidates : MemoryCandidateStore
candidates = record { ttl = 100; max_records = 5; records = ("c1", candidate) ∷ []; calls = 3 }

candidates-IsReviewed : IsReviewed candidates
unfolding review_rejection
candidates-IsReviewed = Each-one (λ id r. review_rejection r ≡ none) "c1" candidate refl

abbrev unchanged : String → String
unchanged s = s

approve-reject-IsReviewed_example :
    IsReviewed (approve env unchanged "c1" none candidates).1
    × IsReviewed (reject env unchanged "c1" MemoryCandidateDisposition.discard none candidates).1
approve-reject-IsReviewed_example =
    approve-reject-IsReviewed env unchanged candidates "c1" MemoryCandidateDisposition.discard none
      candidates-IsReviewed
