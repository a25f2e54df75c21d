-- ===== src/Withdraw/Reconcile.antt =====
-- `reconcileBroadcasted` and `processExternalSyncRetry` of src/application/services/withdraw-service.ts, and
-- `processReconcile` of withdraw-dispatch-worker.ts. The receipts are what the gateway answers.
use coin_manage.Base.{
  ℕ, String, Bool, true, false, not, Option, none, some, List, [], ◌∷◌, ◌++◌, truthy, present, any,
  ◌==◌, ◌&&◌, or_default, if◌then◌else◌,
}
use coin_manage.Base.Int.{ℤ}
use coin_manage.Base.Map.{lookup}
use coin_manage.Base.Action.{plain_error, Result, ok, err, pure, ◌>>=◌, ◌>>◌}
use coin_manage.Contracts.{build_withdrawal_state_changed_contract}
use coin_manage.Ledger.Types.Records.{NetworkFee}
use coin_manage.Ledger.Types.Funds.{Withdrawal, WithdrawalStatus}
use coin_manage.Ledger.Summary.{list_withdrawals_by_statuses}
use coin_manage.Withdraw.Sync.{
  Ports, WithdrawState, Method, answer, consume_withdrawal_state_changed,
}
use coin_manage.Withdraw.Service.{confirm, fail}
use coin_manage.Withdraw.Dispatch.{WorkerError, Outcome, DispatchAlerts, handle_attempt_failure}

pub data ReceiptStatus : Type 0 where
  pending confirmed failed : ReceiptStatus

pub record Receipt : Type 0 where
  pub status : ReceiptStatus
  pub fee_sun : ℤ
  pub energy_used : ℕ
  pub bandwidth_used : ℕ

-- The ids of the withdrawals that a reconciliation has gone through, by what became of them.
pub record Reconciled : Type 0 where
  pub confirmed_ids : List String
  pub failed_ids : List String
  pub pending_ids : List String

abbrev pub fee_of : String → Receipt → NetworkFee
fee_of tx_hash receipt = record {
  tx_hash = tx_hash;
  fee_sun = receipt.fee_sun;
  energy_used = receipt.energy_used;
  bandwidth_used = receipt.bandwidth_used;
}

module _ (ports : Ports) (receipts : String → Result Receipt) (now_iso : String) where
  -- One withdrawal with a hash and its receipt.
  unfoldable pub settle_receipt : String → String → Receipt → Reconciled → Method Reconciled
  settle_receipt id tx_hash receipt done = elim receipt.status [
    | ReceiptStatus.confirmed ↦ (do
      confirm ports now_iso id (some (fee_of tx_hash receipt))
      pure (record done { confirmed_ids = done.confirmed_ids ++ id ∷ [] }))
    | ReceiptStatus.failed ↦ (do
      fail ports now_iso id "on-chain receipt reported failure"
      pure (record done { failed_ids = done.failed_ids ++ id ∷ [] }))
    | ReceiptStatus.pending ↦ pure (record done { pending_ids = done.pending_ids ++ id ∷ [] })
  ]

  -- One turn of the loop; an empty hash is as good as none.
  unfoldable pub reconcile_one : Withdrawal → Reconciled → Method Reconciled
  unfolding settle_receipt
  reconcile_one withdrawal done = elim withdrawal.tx_hash [
    | none ↦ pure done
    | some tx_hash ↦ if not (truthy tx_hash) then pure done else do
      receipt ← answer (receipts tx_hash)
      settle_receipt withdrawal.withdrawal_id tx_hash receipt done
  ]

  unfoldable pub reconcile_each : List Withdrawal → Reconciled → Method Reconciled
  unfolding reconcile_one
  reconcile_each [] done = pure done
  reconcile_each (withdrawal ∷ rest) done = do
    done' ← reconcile_one withdrawal done
    reconcile_each rest done'

  unfoldable pub reconcile_broadcasted : Method Reconciled
  unfolding reconcile_each
  reconcile_broadcasted s =
      reconcile_each (list_withdrawals_by_statuses (WithdrawalStatus.tx_broadcasted ∷ []) s.ledger)
        (record { confirmed_ids = []; failed_ids = []; pending_ids = [] }) s

-- `attempt` is not read.
unfoldable pub process_external_sync_retry : Ports → String → String → Method (Unit {0})
unfolding consume_withdrawal_state_changed
process_external_sync_retry ports now_iso withdrawal_id s =
    elim (lookup withdrawal_id s.ledger.withdrawals) [
      | none ↦ (err (plain_error "withdrawal not found"), s)
      | some withdrawal ↦
          (do
            contract ←
                answer (build_withdrawal_state_changed_contract ports.host withdrawal now_iso)
            consume_withdrawal_state_changed ports now_iso contract false)
            s
    ]

abbrev pub is_ended : WithdrawalStatus → Bool
is_ended WithdrawalStatus.completed = true
is_ended WithdrawalStatus.failed = true
is_ended _ = false

abbrev pub is_nil : List String → Bool
is_nil [] = true
is_nil (_ ∷ _) = false

-- A job for one withdrawal that is not there, or has ended, has nothing to do.
abbrev pub is_idle : Option String → WithdrawState → Bool
is_idle none s = false
is_idle (some id) s = truthy id && elim (lookup id s.ledger.withdrawals) [
  | none ↦ true
  | some withdrawal ↦ is_ended withdrawal.status
]

-- What a job throws after a reconciliation that leaves something pending, if it throws.
unfoldable pub still_pending : Option String → Reconciled → Option WorkerError
still_pending withdrawal_id result =
    if is_nil result.pending_ids
    then none
    else if present withdrawal_id
    then (if any (λ (id : String). elim withdrawal_id [ none ↦ false | some own ↦ id == own ])
          result.pending_ids
        then some (
            WorkerError.retryable_withdraw_dispatch "broadcasted withdrawal still pending on-chain")
        else none)
    else if is_nil result.confirmed_ids && is_nil result.failed_ids
    then some
        (WorkerError.retryable_withdraw_dispatch "broadcasted withdrawals still pending on-chain")
    else none

module _ (ports : Ports) (alerts : DispatchAlerts) (receipts : String → Result Receipt)
    (now_iso : String) where
  -- A reconciliation of all, with what its end means for the job.
  unfoldable pub reconcile_job : Option String → ℕ → WithdrawState → Outcome × WithdrawState
  unfolding reconcile_broadcasted handle_attempt_failure still_pending
  reconcile_job withdrawal_id attempt s =
      let (r, t) = reconcile_broadcasted ports receipts now_iso s in
      let give_up =
        handle_attempt_failure ports alerts now_iso (or_default withdrawal_id "-") attempt in
      elim r [
        | err x ↦ (Outcome.threw (give_up (WorkerError.other x)), t)
        | ok result ↦ elim (still_pending withdrawal_id result) [
          | none ↦ (Outcome.returned, t)
          | some x ↦ (Outcome.threw (give_up x), t)
        ]
      ]

  unfoldable pub process_reconcile : Option String → ℕ → WithdrawState → Outcome × WithdrawState
  unfolding reconcile_job
  process_reconcile withdrawal_id attempt s =
      if is_idle withdrawal_id s
      then (Outcome.returned, s)
      else reconcile_job withdrawal_id attempt s
