-- ===== src/Examples/Previews.antt =====
-- A preview that is claimed, and calls after it.
use cauco.Base.{◌≡◌, refl, String, none, some, List, [], ◌∷◌, ok, ◌⊎◌, string_eq, str_append, arith}
use cauco.Base.Dict.{get}
use cauco.Base.Dict.Laws.{Each, Each-one}
use cauco.Base.Evolution.{IsIssued}
use cauco.Examples.{env, tick_token, tick_token-injective, digest}
use cauco.Tools.Value.{null}
use cauco.Mutations.Models.{MutationPreviewStatus, MutationPreview}
use cauco.Mutations.Store
use cauco.Mutations.Store.{MutationPreviewStore, PreviewFields, with_status}
use cauco.Mutations.Lifecycle.{Advances, OwnIds}
use cauco.Mutations.Calls.{Call, claim, consume, cancel, run, run-Advances}
use cauco.Mutations.SingleUse.{claim-once}

abbrev id : String
id = "mutprev_0123456789_abcdefghijkl"

abbrev preview : MutationPreview
preview = record {
  preview_id = id;
  execution_id = "exec_1";
  review_id = "planrev_1";
  step_index = 1;
  tool_id = "filesystem";
  operation_id = "write_file";
  target = none;
  normalized_arguments = null;
  before_state = null;
  proposed_after_state = null;
  diff_preview = "";
  preview_digest = digest;
  confirmation_phrase = "CONFIRM";
  created_at = 0;
  expires_at = 600000000;
  status = MutationPreviewStatus.pending_confirmation;
}

abbrev store : MutationPreviewStore
store = record {
  ttl = 600000000;
  max_records = 2;
  records = (id, preview) ∷ [];
  active = (("exec_1", 1), id) ∷ [];
  calls = 1;
}

issued_first : id ≡ str_append "mutprev_" (env.token 0)
unfolding tick_token
issued_first = refl

store-OwnIds : OwnIds store
store-OwnIds = Each-one (λ j p. p.preview_id ≡ j) id preview refl

store-IsIssued : Each (λ j x. IsIssued env "mutprev_" store.calls j) store.records
store-IsIssued =
    Each-one (λ j x. IsIssued env "mutprev_" 1 j) id preview (0, omega arith, issued_first)

abbrev calls : List Call
calls = claim id "exec_1" 1 ∷ consume id ∷ cancel "exec_1" 1 ∷ []

preview_there : get store.records id ≡ some preview
unfolding get
preview_there = refl

first_claim :
    (Store.claim env id "exec_1" 1 store).0
    ≡ ok (with_status MutationPreviewStatus.confirmed preview)
unfolding Store.claim Store.get_preview Store.find Store.expire Store.clock Store.if_due
    Store.claim_checked get
first_claim = refl

run-Advances_example :
    (get (run env calls store).records id ≡ none)
    ⊎ ((q : MutationPreview) × (get (run env calls store).records id ≡ some q) × Advances preview q)
run-Advances_example =
    run-Advances env calls store id preview tick_token-injective store-OwnIds store-IsIssued
      preview_there

claim-once_example : ¬ (
    (Store.claim env id "exec_1" 1 (run env calls (Store.claim env id "exec_1" 1 store).1)).0
    ≡ ok preview)
claim-once_example =
    claim-once env store id "exec_1" "exec_1" 1 1
      (with_status MutationPreviewStatus.confirmed preview) preview calls tick_token-injective
      store-OwnIds store-IsIssued first_claim
