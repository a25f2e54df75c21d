-- ===== src/Withdraw/Service.antt =====
-- src/application/services/withdraw-service.ts: withdrawals over the ledger, the guard, the signer and the
-- queue of jobs. The time is one argument of each method. The signer, the publisher, the client of the
-- other system and the alerts are the caller's, and so is the policy on networks.
use coin_manage.Base.{
  String, not, Option, none, some, List, [], ◌∷◌, ◌++◌, concat, or_default, or_else, filter,
}
use coin_manage.Base.Map.{lookup}
use coin_manage.Base.Action.{domain_error, Result, ok, pure, throw_if, ◌>>=◌, ◌>>◌}
use coin_manage.Ledger.Types.Records.{NetworkFee}
use coin_manage.Ledger.Types.Funds.{ActorType, Withdrawal, WithdrawalStatus}
use coin_manage.Ledger.State.{InMemoryLedger}
use coin_manage.Ledger.Summary.{list_withdrawals_by_statuses, status_text}
use coin_manage.Ledger.Withdrawals.{
  broadcast_withdrawal, confirm_withdrawal, fail_withdrawal, confirm_withdrawal_external_auth,
  is_approved,
}
use coin_manage.Withdraw.Guard.{requires_offline_signing, assert_broadcast_allowed}
use coin_manage.Withdraw.Sync.{
  TransferRequest, Ports, Method, in_ledger, answer, audit, publish_withdrawal_state_change,
}
use coin_manage.Withdraw.Status.{SyncStatus, map_withdrawal_to_sync_status}

module _ (ports : Ports) (now_iso : String) where
  -- `await this.withdrawNetworkPolicyService?.assertUserWithdrawalNetworkAllowed(userId)`
  abbrev pub assert_network : String → Result (Unit {0})
  assert_network user_id = elim ports.network_allowed [ none ↦ ok tt | some check ↦ check user_id ]

  -- `signer.broadcastWithdrawal(request)`
  unfoldable pub send : TransferRequest → Method String
  send request s = (ports.sign request, record s { sent = s.sent ++ request ∷ [] })

  abbrev pub transfer_request : String → Withdrawal → TransferRequest
  transfer_request withdrawal_id current = record {
    withdrawal_id = withdrawal_id;
    to_address = current.to_address;
    amount = current.amount;
  }

  -- What a broadcast does with a withdrawal that is there.
  unfoldable pub broadcast_current : String → Withdrawal → Method (Option Withdrawal)
  unfolding send publish_withdrawal_state_change audit
  broadcast_current withdrawal_id current = do
    answer (assert_network current.user_id)
    answer
        (assert_broadcast_allowed ports.chain ports.guard current.to_address (some current.amount))
    tx_hash ← send (transfer_request withdrawal_id current)
    updated ← in_ledger (broadcast_withdrawal ports.host withdrawal_id tx_hash now_iso)
    publish_withdrawal_state_change ports now_iso updated
    audit ports now_iso withdrawal_id "withdraw.broadcast" ActorType.system "tron-gateway"
        (("txHash", tx_hash) ∷ [])
    pure (some updated)

  unfoldable pub broadcast : String → Method (Option Withdrawal)
  unfolding broadcast_current
  broadcast withdrawal_id s = elim (lookup withdrawal_id s.ledger.withdrawals) [
    | none ↦ (ok none, s)
    | some current ↦ broadcast_current withdrawal_id current s
  ]

  unfoldable pub submit_offline_broadcast :
      String → String → Option String → Option String → Method (Option Withdrawal)
  unfolding publish_withdrawal_state_change audit
  submit_offline_broadcast withdrawal_id tx_hash note actor_id s =
      elim (lookup withdrawal_id s.ledger.withdrawals) [
        | none ↦ (ok none, s)
        | some current ↦
            (do
              throw_if (not (is_approved current.status)) (
                  domain_error 409 "WITHDRAW_INVALID_STATE" (
                    concat "withdrawal is not dispatchable in state " (status_text current.status)))
              throw_if
                  (not (requires_offline_signing ports.chain ports.guard (some current.amount)))
                  (domain_error 409 "WITHDRAW_OFFLINE_SIGN_NOT_REQUIRED"
                    "withdrawal does not require offline signing")
              updated ← in_ledger (broadcast_withdrawal ports.host withdrawal_id tx_hash now_iso)
              publish_withdrawal_state_change ports now_iso updated
              audit ports now_iso withdrawal_id "withdraw.broadcast.offline_submitted"
                  ActorType.admin (or_default actor_id "admin-unknown")
                  (("txHash", tx_hash) ∷ ("note", or_default note "") ∷ [])
              pure (some updated))
              s
      ]

  unfoldable pub confirm_external_auth :
      String → String → String → Option String → Method Withdrawal
  unfolding publish_withdrawal_state_change audit
  confirm_external_auth withdrawal_id provider request_id actor_id = do
    updated ←
        in_ledger
          (confirm_withdrawal_external_auth ports.host withdrawal_id provider request_id now_iso)
    publish_withdrawal_state_change ports now_iso updated
    audit ports now_iso withdrawal_id "withdraw.external_auth.confirmed" ActorType.system
        (or_default actor_id provider) (("provider", provider) ∷ ("requestId", request_id) ∷ [])
    pure updated

  unfoldable pub confirm : String → Option NetworkFee → Method Withdrawal
  unfolding publish_withdrawal_state_change audit
  confirm withdrawal_id fee = do
    updated ← in_ledger (confirm_withdrawal ports.host withdrawal_id fee now_iso)
    publish_withdrawal_state_change ports now_iso updated
    audit ports now_iso withdrawal_id "withdraw.confirmed" ActorType.system "reconciliation"
        (("txHash", or_default updated.tx_hash "") ∷ [])
    pure updated

  unfoldable pub fail : String → String → Method Withdrawal
  unfolding publish_withdrawal_state_change audit
  fail withdrawal_id reason = do
    updated ← in_ledger (fail_withdrawal ports.host withdrawal_id reason now_iso)
    publish_withdrawal_state_change ports now_iso updated
    audit ports now_iso withdrawal_id "withdraw.failed" ActorType.system "withdraw-service"
        (("reason", reason) ∷ [])
    pure updated

-- `ADMIN_APPROVED` withdrawals that wait for an offline signature.
unfoldable pub list_offline_signing_pending : Ports → InMemoryLedger → List Withdrawal
list_offline_signing_pending ports s =
    filter (λ (w : Withdrawal). requires_offline_signing ports.chain ports.guard (some w.amount))
      (list_withdrawals_by_statuses (WithdrawalStatus.admin_approved ∷ []) s)

-- The answer to a poll; `externalTransferId` is always null.
pub record PollingState : Type 0 where
  pub withdrawal_id : String
  pub status : SyncStatus
  pub tx_hash : Option String
  pub failed_reason : Option String
  pub updated_at : String

abbrev pub last_change : Withdrawal → String
last_change w =
    or_default
      (or_else w.confirmed_at (
        or_else w.failed_at (
          or_else w.broadcasted_at
            (or_else w.approved_at (or_else w.external_auth_confirmed_at w.review_required_at)))))
      w.created_at

unfoldable pub get_foxya_polling_state : String → InMemoryLedger → Option PollingState
unfolding map_withdrawal_to_sync_status
get_foxya_polling_state withdrawal_id s = elim (lookup withdrawal_id s.withdrawals) [
  | none ↦ none
  | some w ↦ some (record {
    withdrawal_id = w.withdrawal_id;
    status = map_withdrawal_to_sync_status w;
    tx_hash = w.tx_hash;
    failed_reason = w.fail_reason;
    updated_at = last_change w;
  })
]
