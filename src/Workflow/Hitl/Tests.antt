-- ===== src/Workflow/Hitl/Tests.antt =====
-- Runs of the approval gate on concrete inputs.
use the_kubernetes_of_ai_age.Common.{◌≡◌, refl, true, none, some, [], ◌∷◌, ◌++◌}
use the_kubernetes_of_ai_age.Common.Json.{null}
use the_kubernetes_of_ai_age.Workflow.Hitl.{
  HitlApprovalInput, ApprovalDecision, approve, reject, Course, hitl_approval_gate,
}
use the_kubernetes_of_ai_age.Workflow.Hitl.Laws
use the_kubernetes_of_ai_age.Workflow.Hitl.Laws.{
  last, before_decision, after_decision, taken, result_of, is_event,
}

abbrev input : HitlApprovalInput
input = record {
  agent_id = "a";
  execution_id = "e";
  namespace = "n";
  tool_name = "t";
  tool_args = null;
  requester_notes = none;
  timeout_ms = some 5500;
}

abbrev yes : ApprovalDecision
yes = record { approver = "ann"; decision = approve; reason = none }

abbrev no : ApprovalDecision
no = record { approver = "bob"; decision = reject; reason = some "risk" }

-- A rejection that is taken back before the wait is over.
abbrev quiet : Course
quiet = record {
  during_request_event = no ∷ [];
  request_recorded = true;
  during_request_memory = [];
  during_wait = yes ∷ [];
  during_decision_event = [];
  decision_recorded = true;
  during_decision_memory = [];
}

abbrev late : Course
late = record quiet {
  during_request_event = [];
  during_wait = [];
  during_decision_event = yes ∷ [];
}

gate-returned-is_signalled_example :
    (d : ApprovalDecision) × (last (before_decision quiet ++ after_decision quiet) ≡ some d)
    × Laws.IsNoRejection d.decision
    × (result_of yes ≡ result_of d)
unfolding hitl_approval_gate
gate-returned-is_signalled_example =
    Laws.gate-returned-is_signalled input quiet (result_of yes) refl
