-- ===== src/Reviews/Store/Deciding.antt =====
-- Which decisions on a plan review are taken, and which are refused.
use text.Mathlib.TextEquality.{eq_iff}
use cauco.Base.{
  ℕ, suc, ◌≤◌, ◌<◌, ◌≡◌, refl, ap, ◌∙◌, String, true, false, ◌&&◌, Option, none, some, ◌==◌,
  string_eq, leb, Result, ok, raised, carry_on, arith,
}
use cauco.Base.Dict.{get, put}
use cauco.Base.Environment.{Environment}
use cauco.Tools.Value.{Value}
use cauco.Reviews.Models.{
  AgentPlanReviewStatus, AgentPlanReviewRecord, review_status_value, is_pending, review_rejection,
  snapshot_rejection, approval_warning_text,
}
use cauco.Reviews.Store.{
  AgentPlanReviewStore, ReviewError, find, built, snapshot, lapsed, expire_if_needed, conflict,
}
use cauco.Reviews.Store.Methods.{
  Decision, approval, rejection, cancellation, decided, digest_of, verify_integrity,
  transition_found, clock, transition_at, normalize_review_text, transition,
}
use cauco.Reviews.Store.Intact.{IsIntact}
use cauco.Reviews.Store.Steps.{IsIntactStore, with_record}
use cauco.Reviews.Store.Admitting.{
  lapsed_accepted, decided_accepted, copied-decided, decided_id, copied-lapsed, built_lem,
  rewrite_lem,
}

module _ (digest : Value → String) (s : AgentPlanReviewStore) (id : String)
    (r : AgentPlanReviewRecord) (intact : IsIntact digest id r) (found : get s.records id ≡ some r)
    (decision : Decision) (remark : Option String) (now : ℕ) where
  transition_found-decides :
      is_pending r.status ≡ true
      → r.created_at ≤ now
      → transition_found digest decision remark now r s ≡ (
        ok (decided decision remark now r),
        record s { records = put s.records id (decided decision remark now r) },
      )
  unfolding transition_found verify_integrity snapshot
  transition_found-decides pending later =
      let new = decided decision remark now r in
      let passes = decided_accepted decision remark now r pending later intact.accepted in
      let copy = copied-decided decision remark now r intact.copy in
      let sealed : (r.snapshot_digest == digest_of digest r) ≡ true =
        (eq_iff r.snapshot_digest (digest_of digest r)).1 intact.sealed in
      let under : String → Result ReviewError AgentPlanReviewRecord × AgentPlanReviewStore =
        λ k. (ok new, record s { records = put s.records k new }) in
      let key : new.review_id ≡ id = decided_id decision remark now r ∙ intact.own_id in
      rw (pending, sealed)
        (ap (λ p. carry_on p.0 p.1 built) (rewrite_lem new s passes copy)
          ∙ built_lem new (with_record s new) passes copy
          ∙ ap under key)

  transition_at-decides :
      is_pending r.status ≡ true
      → r.created_at ≤ now
      → now < r.expires_at
      → transition_at digest id decision remark now s ≡ (
        ok (decided decision remark now r),
        record s { records = put s.records id (decided decision remark now r) },
      )
  unfolding transition_at find expire_if_needed
  transition_at-decides pending later before =
      let early : (is_pending r.status && leb r.expires_at now) ≡ false = ground arith in
      rw (found, early) (transition_found-decides pending later)

  transition_at-late :
      is_pending r.status ≡ true
      → r.expires_at ≤ now
      → transition_at digest id decision remark now s ≡ (
        raised (conflict "Plan review is already expired."),
        record s { records = put s.records id (lapsed now r) },
      )
  unfolding transition_at find expire_if_needed transition_found review_status_value
  transition_at-late pending due =
      let passes = lapsed_accepted now r pending due intact.accepted in
      let late : leb r.expires_at now ≡ true = ground arith in
      let under : String → Result ReviewError AgentPlanReviewRecord × AgentPlanReviewStore = λ k. (
        raised (conflict "Plan review is already expired."),
        record s { records = put s.records k (lapsed now r) },
      ) in
      rw
        (
          found,
          pending,
          late,
          rewrite_lem (lapsed now r) s passes (copied-lapsed now r intact.copy),
        )
        (ap under intact.own_id)

-- The note of a decision, once its line ends and its margins are normalised.
abbrev pub NoteIs :
    (strip : String → String) → Option String → Option String → AgentPlanReviewStore → Type 0
NoteIs strip remark text s =
    normalize_review_text strip remark "Reviewer note cannot exceed 2000 characters." 2000 s
    ≡ (ok text, s)

module _ (env : Environment) (digest : Value → String) (strip : String → String)
    (s : AgentPlanReviewStore) (id : String) (decision : Decision) (remark text : Option String)
    (noted : NoteIs strip remark text s) where
  transition-at :
      transition env digest strip id decision remark s
      ≡ transition_at digest id decision text (env.clock s.calls) (record s { calls = suc s.calls })
  unfolding transition clock
  transition-at = rw noted refl

transition_is_decided :
    (env : Environment) (digest : Value → String) (strip : String → String)
    (s : AgentPlanReviewStore) (id : String) (r : AgentPlanReviewRecord) (decision : Decision)
    (remark text : Option String)
    → IsIntactStore env digest s
    → get s.records id ≡ some r
    → is_pending r.status ≡ true
    → r.created_at ≤ env.clock s.calls
    → env.clock s.calls < r.expires_at
    → NoteIs strip remark text s
    → transition env digest strip id decision remark s ≡ (
      ok (decided decision text (env.clock s.calls) r),
      record s {
        records = put s.records id (decided decision text (env.clock s.calls) r);
        calls = suc s.calls;
      },
    )
transition_is_decided env digest strip s id r decision remark text h found pending later before
      noted =
    transition-at env digest strip s id decision remark text noted
    ∙ transition_at-decides digest (record s { calls = suc s.calls }) id r (h.each id r found) found
        decision text (env.clock s.calls) pending later before

-- A pending review authorises nothing and was not performed.
pending_is_closed :
    (r : AgentPlanReviewRecord)
    → is_pending r.status ≡ true
    → review_rejection r ≡ none
    → (r.execution_authorized ≡ false) × (r.execution_performed ≡ false)
unfolding snapshot_rejection
pending_is_closed r pending passes = (ground arith, ground arith)

-- What a decision is to say: its status, its own time and reason, whether it lets the plan be executed,
-- and the warning that an approval comes with.
abbrev pub Says : Decision → ℕ → AgentPlanReviewRecord → Type 0
Says approval now new =
    (new.status ≡ AgentPlanReviewStatus.approved)
    × (new.approved_at ≡ some now)
    × (new.execution_authorized ≡ true)
    × (new.approval_warning ≡ some approval_warning_text)
Says (rejection reason) now new =
    (new.status ≡ AgentPlanReviewStatus.rejected)
    × (new.rejected_at ≡ some now)
    × (new.rejection_reason ≡ some reason)
    × (new.execution_authorized ≡ false)
Says (cancellation reason) now new =
    (new.status ≡ AgentPlanReviewStatus.cancelled)
    × (new.cancelled_at ≡ some now)
    × (new.cancellation_reason ≡ reason)
    × (new.execution_authorized ≡ false)

-- What is decided now with a note: what the decision is to say, and nothing else of the review changes.
pub record IsDecided (decision : Decision) (text : Option String) (now : ℕ)
    (old new : AgentPlanReviewRecord) : Type 0 where
  pub says : Says decision now new
  pub noted : new.reviewer_note ≡ text
  pub updated : new.updated_at ≡ now
  pub unperformed : new.execution_performed ≡ false
  pub same_id : new.review_id ≡ old.review_id
  pub same_times : (new.created_at ≡ old.created_at) × (new.expires_at ≡ old.expires_at)
  pub same_snapshot :
      (new.snapshot_digest ≡ old.snapshot_digest)
      × (new.instruction ≡ old.instruction)
      × (new.selected_agent_id ≡ old.selected_agent_id)
      × (new.routing ≡ old.routing)
      × (new.context ≡ old.context)
      × (new.plan ≡ old.plan)

decided-IsDecided :
    (decision : Decision) (text : Option String) (now : ℕ) (r : AgentPlanReviewRecord)
    → r.execution_authorized ≡ false
    → r.execution_performed ≡ false
    → IsDecided decision text now r (decided decision text now r)
unfolding decided
decided-IsDecided approval text now r closed idle = record {
  says = (refl, refl, refl, refl);
  noted = refl;
  updated = refl;
  unperformed = idle;
  same_id = refl;
  same_times = (refl, refl);
  same_snapshot = (refl, refl, refl, refl, refl, refl);
}
decided-IsDecided (rejection reason) text now r closed idle = record {
  says = (refl, refl, refl, closed);
  noted = refl;
  updated = refl;
  unperformed = idle;
  same_id = refl;
  same_times = (refl, refl);
  same_snapshot = (refl, refl, refl, refl, refl, refl);
}
decided-IsDecided (cancellation reason) text now r closed idle = record {
  says = (refl, refl, refl, closed);
  noted = refl;
  updated = refl;
  unperformed = idle;
  same_id = refl;
  same_times = (refl, refl);
  same_snapshot = (refl, refl, refl, refl, refl, refl);
}

-- In an intact store, a decision on a pending review that comes at or after its creation and before its
-- expiry, with a note that is not too long, is taken: the method returns a review with the status, the
-- time, the note and the reason of that decision, of which only an approval authorises the execution,
-- with the snapshot, the digest and the times of creation and expiry as they were, and stores it under
-- the identifier. Nothing else but the count of calls of the environment changes; the integrity check
-- does not fail.
pub transition-decides :
    (env : Environment) (digest : Value → String) (strip : String → String)
    (s : AgentPlanReviewStore) (id : String) (r : AgentPlanReviewRecord) (decision : Decision)
    (remark text : Option String)
    → IsIntactStore env digest s
    → get s.records id ≡ some r
    → is_pending r.status ≡ true
    → r.created_at ≤ env.clock s.calls
    → env.clock s.calls < r.expires_at
    → NoteIs strip remark text s
    → (new : AgentPlanReviewRecord) × IsDecided decision text (env.clock s.calls) r new
      × (transition env digest strip id decision remark s
          ≡ (ok new, record s { records = put s.records id new; calls = suc s.calls }))
transition-decides env digest strip s id r decision remark text h found pending later before noted =
    let (closed, idle) = pending_is_closed r pending (h.each id r found).accepted in
    (
      decided decision text (env.clock s.calls) r,
      decided-IsDecided decision text (env.clock s.calls) r closed idle,
      transition_is_decided env digest strip s id r decision remark text h found pending later
          before noted,
    )

-- In an intact store, a decision on a pending review that comes at its expiry or later raises the state
-- conflict and leaves the review expired at that time, without a decision.
pub transition-late :
    (env : Environment) (digest : Value → String) (strip : String → String)
    (s : AgentPlanReviewStore) (id : String) (r : AgentPlanReviewRecord) (decision : Decision)
    (remark text : Option String)
    → IsIntactStore env digest s
    → get s.records id ≡ some r
    → is_pending r.status ≡ true
    → r.expires_at ≤ env.clock s.calls
    → NoteIs strip remark text s
    → transition env digest strip id decision remark s ≡ (
      raised (conflict "Plan review is already expired."),
      record s { records = put s.records id (lapsed (env.clock s.calls) r); calls = suc s.calls },
    )
transition-late env digest strip s id r decision remark text h found pending due noted =
    transition-at env digest strip s id decision remark text noted
    ∙ transition_at-late digest (record s { calls = suc s.calls }) id r (h.each id r found) found
        decision text (env.clock s.calls) pending due
