-- ===== src/Withdraw/Dispatch.antt =====
-- src/application/services/withdraw-dispatch-worker.ts: one job of the queue, which broadcasts a withdrawal.
-- The withdraw service is configured. The alerts are the caller's, each with what it answers or throws.
use coin_manage.Base.{
  ℕ, String, Bool, true, false, not, Option, none, some, List, [], ◌∷◌, concat, truthy, any, ◌==◌,
  if◌then◌else◌,
}
use coin_manage.Base.Map.{lookup}
use coin_manage.Base.Action.{Error, plain_error, Result, ok, err}
use coin_manage.Ledger.Types.Funds.{Withdrawal, WithdrawalStatus}
use coin_manage.Ledger.Summary.{status_text}
use coin_manage.Ledger.Withdrawals.{is_approved}
use coin_manage.Withdraw.Guard.{HotWalletReadiness, get_hot_wallet_readiness}
use coin_manage.Withdraw.Sync.{Ports, WithdrawState, error_message}
use coin_manage.Withdraw.Service.{broadcast}

-- An `Error` that the worker throws: one of its own two classes, or any other.
pub data WorkerError : Type 0 where
  retryable_withdraw_dispatch manual_signing_required : String → WorkerError
  other : Error → WorkerError

pub data Outcome : Type 0 where
  returned : Outcome
  threw : WorkerError → Outcome

pub record DispatchAlerts : Type 0 where
  pub notify_retry : String → ℕ → String → Result (Unit {0})
  pub notify_failed : String → String → Result (Unit {0})
  pub notify_resource_low : String → HotWalletReadiness → Result (Unit {0})

-- `failures.join(',')`
pub join : List String → String
join [] = ""
join (text ∷ []) = text
join (text ∷ next ∷ rest) = concat text (concat "," (join (next ∷ rest)))

-- `await` an alert, then throw the error: an alert that throws comes first.
abbrev pub alerted : Result (Unit {0}) → WorkerError → WorkerError
alerted (ok _) error = error
alerted (err x) error = WorkerError.other x

-- A withdrawal that needs no dispatch any more.
abbrev pub is_dispatched : WithdrawalStatus → Bool
is_dispatched WithdrawalStatus.completed = true
is_dispatched WithdrawalStatus.failed = true
is_dispatched WithdrawalStatus.tx_broadcasted = true
is_dispatched _ = false

module _ (ports : Ports) (alerts : DispatchAlerts) (now_iso : String) where
  -- The alert of a failed attempt.
  abbrev pub attempt_alert : String → ℕ → WorkerError → Result (Unit {0})
  attempt_alert withdrawal_id attempt (WorkerError.retryable_withdraw_dispatch message) =
      alerts.notify_retry withdrawal_id attempt message
  attempt_alert withdrawal_id attempt (WorkerError.manual_signing_required message) =
      alerts.notify_failed withdrawal_id message
  attempt_alert withdrawal_id attempt (WorkerError.other x) =
      alerts.notify_failed withdrawal_id (error_message ports.zod_message x)

  unfoldable pub handle_attempt_failure : String → ℕ → WorkerError → WorkerError
  handle_attempt_failure withdrawal_id attempt error =
      alerted (attempt_alert withdrawal_id attempt error) error

  -- What is thrown because the hot wallet is not ready, if it is not.
  unfoldable pub ensure_hot_wallet_resources : String → Option WorkerError
  ensure_hot_wallet_resources withdrawal_id =
      elim (get_hot_wallet_readiness ports.chain ports.guard) [
        | err x ↦ some (WorkerError.other x)
        | ok readiness ↦
            if readiness.ready
            then none
            else if any (λ (f : String). f == "offline_signing_required") readiness.failures
            then some (WorkerError.manual_signing_required "withdrawal requires offline signing")
            else some (
                alerted (alerts.notify_resource_low withdrawal_id readiness) (
                  WorkerError.retryable_withdraw_dispatch
                    (concat "hot wallet is not ready: " (join readiness.failures))))
      ]

  -- The dispatch of a withdrawal that is approved.
  unfoldable pub dispatch_approved : String → ℕ → WithdrawState → Outcome × WithdrawState
  unfolding ensure_hot_wallet_resources handle_attempt_failure
  dispatch_approved withdrawal_id attempt s = elim (ensure_hot_wallet_resources withdrawal_id) [
    | some x ↦ (Outcome.threw (handle_attempt_failure withdrawal_id attempt x), s)
    | none ↦
        let (r, t) = broadcast ports now_iso withdrawal_id s in
        elim r [
          | ok _ ↦ (Outcome.returned, t)
          | err x ↦ (
            Outcome.threw (handle_attempt_failure withdrawal_id attempt (WorkerError.other x)),
            t,
          )
        ]
  ]

  -- `throw new Error(message)`
  abbrev pub refused : String → WithdrawState → Outcome × WithdrawState
  refused message s = (Outcome.threw (WorkerError.other (plain_error message)), s)

  -- The dispatch of a withdrawal that is there.
  unfoldable pub dispatch_found : String → ℕ → Withdrawal → WithdrawState → Outcome × WithdrawState
  dispatch_found withdrawal_id attempt withdrawal s =
      if is_dispatched withdrawal.status
      then (Outcome.returned, s)
      else if not (is_approved withdrawal.status)
      then refused
          (concat "withdrawal is not dispatchable in state " (status_text withdrawal.status)) s
      else dispatch_approved withdrawal_id attempt s

  unfoldable pub process_dispatch : String → ℕ → WithdrawState → Outcome × WithdrawState
  process_dispatch withdrawal_id attempt s =
      if not (truthy withdrawal_id)
      then refused "withdraw dispatch job requires withdrawalId" s
      else elim (lookup withdrawal_id s.ledger.withdrawals) [
        | none ↦ refused "withdrawal not found" s
        | some withdrawal ↦ dispatch_found withdrawal_id attempt withdrawal s
      ]
