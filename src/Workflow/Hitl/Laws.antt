-- ===== src/Workflow/Hitl/Laws.antt =====
-- Which decision the approval gate returns, and which it records.
use the_kubernetes_of_ai_age.Common.{
  ◌≡◌, refl, sym, ◌∙◌, String, Bool, true, false, Option, none, some, List, [], ◌∷◌, ◌++◌, exists,
  str_eq, ◌/◌, ◌⊎◌, if◌then◌else◌, arith, inl, inr, Bool-cases,
}
use the_kubernetes_of_ai_age.Workflow.Hitl.{
  HitlApprovalInput, Choice, approve, reject, other, ApprovalDecision, HitlResult, returned,
  activity_error, Effect, decision_event, decision_memory, request_event, request_memory,
  wait_seconds, Course, Gate, closed, or_else, on_approval, signals, latest, timeout_rejection,
  time_out, answer, gate_after_wait, hitl_approval_gate,
}

abbrev pub last : List ApprovalDecision → Option ApprovalDecision
last [] = none
last (d ∷ ds) = some (latest ds d)

abbrev pub before_decision : Course → List ApprovalDecision
before_decision c = c.during_request_event ++ c.during_request_memory ++ c.during_wait

abbrev pub after_decision : Course → List ApprovalDecision
after_decision c = c.during_decision_event ++ c.during_decision_memory

signals-append :
    (xs ys : List ApprovalDecision) (g : Gate) → signals ys (signals xs g) ≡ signals (xs ++ ys) g
signals-append [] ys g = refl
signals-append (x ∷ xs) ys g = signals-append xs ys (on_approval x g)

latest-append :
    (xs ys : List ApprovalDecision) (d : ApprovalDecision)
    → latest ys (latest xs d) ≡ latest (xs ++ ys) d
latest-append [] ys d = refl
latest-append (x ∷ xs) ys d = latest-append xs ys x

signals-open :
    (xs : List ApprovalDecision) (d : ApprovalDecision)
    → signals xs (on_approval d closed) ≡ on_approval (latest xs d) closed
signals-open [] d = refl
signals-open (x ∷ xs) d = signals-open xs x

-- The decision that the gate takes: the last signal before the end of the wait, or the rejection by
-- timeout.
abbrev pub taken : Course → ApprovalDecision
taken c = or_else (last (before_decision c)) timeout_rejection

time_out-signals :
    (xs : List ApprovalDecision)
    → (time_out (signals xs closed)).decision ≡ some (or_else (last xs) timeout_rejection)
time_out-signals [] = refl
time_out-signals (x ∷ xs) = rw (signals-open xs x) refl

decided : (c : Course) → (time_out (gate_after_wait c)).decision ≡ some (taken c)
decided c =
    rw
      (
        signals-append c.during_request_event c.during_request_memory closed,
        signals-append (c.during_request_event ++ c.during_request_memory) c.during_wait closed,
      )
      (time_out-signals (before_decision c))

or_else-last :
    (xs ys : List ApprovalDecision) (d : ApprovalDecision)
    → latest ys (or_else (last xs) d) ≡ or_else (last (xs ++ ys)) d
or_else-last [] [] d = refl
or_else-last [] (y ∷ ys) d = refl
or_else-last (x ∷ xs) ys d = latest-append xs ys x

-- The decision that the last test and the return read.
abbrev pub final : Course → ApprovalDecision
final c = or_else (last (before_decision c ++ after_decision c)) timeout_rejection

final-latest :
    (c : Course)
    → latest c.during_decision_memory (latest c.during_decision_event (taken c)) ≡ final c
final-latest c =
    latest-append c.during_decision_event c.during_decision_memory (taken c)
    ∙ or_else-last (before_decision c) (after_decision c) timeout_rejection

gate-outcome :
    (input : HitlApprovalInput) (c : Course)
    → (hitl_approval_gate input c).0 ≡ (
        if c.request_recorded
        then (if c.decision_recorded then answer (final c).decision (final c) else activity_error)
        else activity_error)
unfolding hitl_approval_gate
gate-outcome input c = elim (Bool-cases c.request_recorded) [
  | inl e ↦ elim (Bool-cases c.decision_recorded) [
    | inl f ↦ rw (decided c, final-latest c, e, f) refl
    | inr f ↦ rw (decided c, e, f) refl
  ]
  | inr e ↦ rw e refl
]

-- What is called when both recordings succeed.
gate-calls :
    (input : HitlApprovalInput) (c : Course)
    → c.request_recorded ≡ true
    → c.decision_recorded ≡ true
    → (hitl_approval_gate input c).1
      ≡ request_event (or_else input.timeout_ms 86_400_000)
        ∷ request_memory
        ∷ wait_seconds (or_else input.timeout_ms 86_400_000 / 1000)
        ∷ decision_event (taken c).decision (taken c).approver (or_else (taken c).reason "")
        ∷ decision_memory
            (latest c.during_decision_event (taken c)).decision
            (latest c.during_decision_event (taken c)).approver
            (latest c.during_decision_event (taken c)).reason
        ∷ []
unfolding hitl_approval_gate
gate-calls input c h k = rw (decided c, h, k) refl

-- The effect is a record of this decision by this approver.
abbrev pub is_event : Choice → String → Effect → Bool
is_event reject who (decision_event reject by why) = str_eq by who
is_event approve who (decision_event approve by why) = str_eq by who
is_event _ who _ = false

abbrev pub result_of : ApprovalDecision → HitlResult
result_of d = record { decision = d.decision; approver = d.approver; reason = d.reason }

-- The value of a decision that is not "reject".
abbrev pub IsNoRejection : Choice → Type 0
IsNoRejection x = (x ≡ approve) ⊎ (text : String) × (x ≡ other text)

answer-returned :
    (x : Choice) (d : ApprovalDecision) (r : HitlResult)
    → answer x d ≡ returned r
    → IsNoRejection x × (r ≡ result_of d)
answer-returned approve d r h = (inl refl, ground arith)
answer-returned reject d r h = absurd (ground arith)
answer-returned (other text) d r h = (inr (text, refl), ground arith)

last-or_timeout :
    (xs : List ApprovalDecision)
    → IsNoRejection (or_else (last xs) timeout_rejection).decision
    → last xs ≡ some (or_else (last xs) timeout_rejection)
last-or_timeout [] (inl h) = absurd (ground arith)
last-or_timeout [] (inr (text, h)) = absurd (ground arith)
last-or_timeout (x ∷ xs) h = refl

-- The gate returns only on a signal by a human: the last one that arrived, which approves, or has a value
-- that is neither "approve" nor "reject", which its type does not allow and the gate does not check.
-- The approver and reason of that signal are returned.
pub gate-returned-is_signalled :
    (input : HitlApprovalInput) (c : Course) (r : HitlResult)
    → (hitl_approval_gate input c).0 ≡ returned r
    → (d : ApprovalDecision) × (last (before_decision c ++ after_decision c) ≡ some d)
      × IsNoRejection d.decision
      × (r ≡ result_of d)
gate-returned-is_signalled input c r h =
    let o = gate-outcome input c in
    elim (Bool-cases c.request_recorded) [
      | inl e ↦ elim (Bool-cases c.decision_recorded) [
        | inl f ↦
            let q : answer (final c).decision (final c) ≡ returned r = rw (e, f) at (sym o ∙ h) in
            let p = answer-returned (final c).decision (final c) r q in
            (final c, last-or_timeout (before_decision c ++ after_decision c) p.0, p.0, p.1)
        | inr f ↦ absurd (ground arith)
      ]
      | inr e ↦ absurd (ground arith)
    ]

-- When both recordings succeed and no signal arrives after the wait, the decision that is recorded is the
-- one that is acted upon: the last signal before the end of the wait, and a rejection by the system if
-- there was none.
gate-quiet :
    (input : HitlApprovalInput) (c : Course)
    → c.request_recorded ≡ true
    → c.decision_recorded ≡ true
    → c.during_decision_event ≡ []
    → c.during_decision_memory ≡ []
    → hitl_approval_gate input c ≡ (
      answer (taken c).decision (taken c),
      request_event (or_else input.timeout_ms 86_400_000)
          ∷ request_memory
          ∷ wait_seconds (or_else input.timeout_ms 86_400_000 / 1000)
          ∷ decision_event (taken c).decision (taken c).approver (or_else (taken c).reason "")
          ∷ decision_memory (taken c).decision (taken c).approver (taken c).reason
          ∷ [],
    )
unfolding hitl_approval_gate
gate-quiet input c h k quiet silent = rw (decided c, h, k, quiet, silent) refl

-- When the wait ends without a signal and an approval arrives while the rejection is being recorded, the
-- gate records a rejection by the system and returns the approval.
gate-late_approval :
    (input : HitlApprovalInput) (c : Course) (d : ApprovalDecision)
    → c.request_recorded ≡ true
    → c.decision_recorded ≡ true
    → before_decision c ≡ []
    → last (after_decision c) ≡ some d
    → d.decision ≡ approve
    → ((hitl_approval_gate input c).0 ≡ returned (result_of d))
      × (exists (is_event reject "system") (hitl_approval_gate input c).1 ≡ true)
gate-late_approval input c d h k none_before late ok =
    let ends : final c ≡ d = rw (none_before, late) refl in
    let rejects : taken c ≡ timeout_rejection = rw none_before refl in
    (gate-outcome input c ∙ rw (h, k, ends, ok) refl, rw (gate-calls input c h k, rejects) refl)
