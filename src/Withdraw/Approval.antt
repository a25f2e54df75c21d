-- ===== src/Withdraw/Approval.antt =====
-- `approve` of src/application/services/withdraw-service.ts: an approval, and the job of one that is the last.
use coin_manage.Base.{String, Option, none, some, [], ◌∷◌, or_default, if◌then◌else◌}
use coin_manage.Base.Map.{lookup}
use coin_manage.Base.Action.{domain_error, ok, err, pure, modify, ◌>>=◌, ◌>>◌}
use coin_manage.Money.{to_text}
use coin_manage.Ledger.Types.Funds.{
  ActorType, ApprovalReason, manual_review_passed, Withdrawal, ApprovalDecisionResult,
}
use coin_manage.Ledger.Withdrawals.{ApprovalInput, approve_withdrawal}
use coin_manage.Withdraw.Queue.{enqueue_dispatch}
use coin_manage.Withdraw.Sync.{
  Ports, Method, in_ledger, answer, audit, publish_withdrawal_state_change,
}
use coin_manage.Withdraw.Service.{assert_network}

pub record ServiceApprovalInput : Type 0 where
  pub admin_id : Option String
  pub actor_type : Option ActorType
  pub reason_code : Option ApprovalReason
  pub note : Option String

abbrev pub reason_text : ApprovalReason → String
reason_text ApprovalReason.manual_review_passed = "manual_review_passed"
reason_text ApprovalReason.high_value_verified = "high_value_verified"
reason_text ApprovalReason.trusted_destination_verified = "trusted_destination_verified"
reason_text ApprovalReason.account_activity_verified = "account_activity_verified"
reason_text ApprovalReason.ops_override = "ops_override"

-- What the ledger is given.
abbrev pub ledger_input : ServiceApprovalInput → ApprovalInput
ledger_input input = record {
  admin_id = or_default input.admin_id "admin-unknown";
  actor_type = or_default input.actor_type ActorType.admin;
  reason_code = some (or_default input.reason_code manual_review_passed);
  note = input.note;
}

module _ (ports : Ports) (now_iso : String) where
  -- The approval of a withdrawal that is there.
  unfoldable pub approve_current :
      String → ServiceApprovalInput → Withdrawal → Method ApprovalDecisionResult
  unfolding publish_withdrawal_state_change audit
  approve_current withdrawal_id input current = do
    answer (assert_network ports now_iso current.user_id)
    result ← in_ledger (approve_withdrawal ports.host withdrawal_id (ledger_input input) now_iso)
    publish_withdrawal_state_change ports result.approval.created_at result.withdrawal
    audit ports now_iso withdrawal_id
        (if result.finalized then "withdraw.approved.finalized" else "withdraw.approved.partial")
        (or_default input.actor_type ActorType.admin) (or_default input.admin_id "admin-unknown")
        (("reasonCode", reason_text (or_default input.reason_code manual_review_passed))
          ∷ ("note", or_default input.note "")
          ∷ ("approvalCount", to_text result.withdrawal.approval_count "")
          ∷ ("requiredApprovals", to_text result.withdrawal.required_approvals "")
          ∷ [])
    modify (λ s. record s {
      queue = if result.finalized then enqueue_dispatch withdrawal_id s.queue else s.queue;
    })
    answer (if result.finalized then ports.notify_approved result else ok tt)
    pure result

  unfoldable pub approve : String → ServiceApprovalInput → Method ApprovalDecisionResult
  unfolding approve_current
  approve withdrawal_id input s = elim (lookup withdrawal_id s.ledger.withdrawals) [
    | none ↦ (err (domain_error 404 "WITHDRAW_NOT_FOUND" "withdrawal not found"), s)
    | some current ↦ approve_current withdrawal_id input current s
  ]
