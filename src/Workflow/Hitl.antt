-- ===== src/Workflow/Hitl.antt =====
-- control-plane/workflow-engine/src/temporal/workflows/hitl-gate.ts: the workflow `hitlApprovalGate`.
-- What happens around it is a `Course`: the approval signals that arrive during each of its waits, in
-- order, and whether the recording activity succeeds. The memory activity's errors are caught, so it
-- leaves only its call. What the workflow called is a list of effects.
pub mod Laws
mod Tests
use the_kubernetes_of_ai_age.Common.{
  ℕ, ◌/◌, String, Bool, true, false, Option, none, some, List, [], ◌∷◌, ◌++◌, if◌then◌else◌,
}
use the_kubernetes_of_ai_age.Common.Json.{Json}

pub record HitlApprovalInput : Type 0 where
  pub agent_id : String
  pub execution_id : String
  pub namespace : String
  pub tool_name : String
  pub tool_args : Json
  pub requester_notes : Option String
  pub timeout_ms : Option ℕ

-- A signal's value is not validated: `other` is any text but "approve" and "reject".
pub data Choice : Type 0 where
  approve reject : Choice
  other : String → Choice

pub record ApprovalDecision : Type 0 where
  pub approver : String
  pub decision : Choice
  pub reason : Option String

pub record HitlResult : Type 0 where
  pub decision : Choice
  pub approver : String
  pub reason : Option String

-- `returned` a result, `rejected` with the failure "Human rejected execution: " and the text, failed
-- for `no_decision`, or stopped by an `activity_error`.
pub data Outcome : Type 0 where
  returned : HitlResult → Outcome
  rejected : String → Outcome
  no_decision : Outcome
  activity_error : Outcome

pub data Effect : Type 0 where
  request_event : ℕ → Effect
  request_memory : Effect
  wait_seconds : ℕ → Effect
  decision_event : Choice → String → String → Effect
  decision_memory : Choice → String → Option String → Effect

pub record Course : Type 0 where
  pub during_request_event : List ApprovalDecision
  pub request_recorded : Bool
  pub during_request_memory : List ApprovalDecision
  pub during_wait : List ApprovalDecision
  pub during_decision_event : List ApprovalDecision
  pub decision_recorded : Bool
  pub during_decision_memory : List ApprovalDecision

-- The variables `decision` and `decisionReceived`.
pub record Gate : Type 0 where
  pub decision : Option ApprovalDecision
  pub decision_received : Bool

abbrev pub closed : Gate
closed = record { decision = none; decision_received = false }

abbrev pub or_else {ℓ} : {A : Type ℓ} → Option A → A → A
or_else none d = d
or_else (some a) d = a

-- The signal's handler.
abbrev pub on_approval : ApprovalDecision → Gate → Gate
on_approval dec g = record { decision = some dec; decision_received = true }

abbrev pub signals : List ApprovalDecision → Gate → Gate
signals [] g = g
signals (dec ∷ rest) g = signals rest (on_approval dec g)

-- The variable `decision` once it is set: a signal can only set it again.
abbrev pub latest : List ApprovalDecision → ApprovalDecision → ApprovalDecision
latest [] d = d
latest (dec ∷ rest) d = latest rest dec

abbrev pub timeout_rejection : ApprovalDecision
timeout_rejection = record { approver = "system"; decision = reject; reason = some "Timeout" }

abbrev pub time_out : Gate → Gate
time_out g = if g.decision_received then g else record g { decision = some timeout_rejection }

abbrev pub accept : ApprovalDecision → Outcome
accept d = returned (record { decision = d.decision; approver = d.approver; reason = d.reason })

-- The last test, which is for "reject" alone, and the return.
abbrev pub answer : Choice → ApprovalDecision → Outcome
answer reject d = rejected (or_else d.reason "No reason provided")
answer approve d = accept d
answer (other text) d = accept d

-- From the recording of the decision to the end.
abbrev pub settle : Course → ApprovalDecision → Outcome × List Effect
settle c d =
    let event = decision_event d.decision d.approver (or_else d.reason "") in
    let persisted = latest c.during_decision_event d in
    let final = latest c.during_decision_memory persisted in
    if c.decision_recorded
    then (
      answer final.decision final,
      event ∷ decision_memory persisted.decision persisted.approver persisted.reason ∷ [],
    )
    else (activity_error, event ∷ [])

abbrev pub decide : Course → Option ApprovalDecision → Outcome × List Effect
decide c none = (no_decision, [])
decide c (some d) = settle c d

-- The gate when the wait is over.
abbrev pub gate_after_wait : Course → Gate
gate_after_wait c =
    signals c.during_wait (signals c.during_request_memory (signals c.during_request_event closed))

unfoldable pub hitl_approval_gate : HitlApprovalInput → Course → Outcome × List Effect
hitl_approval_gate input c =
    let timeout_ms = or_else input.timeout_ms 86_400_000 in
    let rest = decide c (time_out (gate_after_wait c)).decision in
    if c.request_recorded
    then (
      rest.0,
      request_event timeout_ms ∷ request_memory ∷ wait_seconds (timeout_ms / 1000) ∷ rest.1,
    )
    else (activity_error, request_event timeout_ms ∷ [])
