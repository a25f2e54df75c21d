-- ===== src/Ledger/Withdrawals.antt =====
-- src/ledger/in-memory-ledger.ts: a withdrawal after its request, from the external authorisation
-- to its end, and the lists of withdrawals.
use coin_manage.Base.{
  ℕ, String, Bool, true, false, not, ◌&&◌, Option, some, List, [], ◌∷◌, ◌++◌, ◌==◌, opt_eq,
  or_default, any, length, leb, if◌then◌else◌,
}
use coin_manage.Base.Int.{ℤ, ◌+ℤ◌, ◌-ℤ◌, ltb_ℤ}
use coin_manage.Base.Map.{lookup, insert}
use coin_manage.Base.Action.{
  domain_error, pure, throw, throw_if, gets, or_throw, modify, ◌>>=◌, ◌>>◌,
}
use coin_manage.Contracts.{Host}
use coin_manage.Ledger.Types.Funds.{
  TransactionStatus, Account, LedgerTransaction, WithdrawalStatus, Withdrawal, ActorType,
  ApprovalReason, manual_review_passed, WithdrawalApproval, ApprovalDecisionResult,
}
use coin_manage.Ledger.Types.Records.{FeeReference, NetworkFee}
use coin_manage.Ledger.State.{
  Method, is_active, get_mutable_account, get_mutable_withdrawal, put_account, put_transaction,
  put_withdrawal, random_uuid, enqueue_withdrawal_event,
}
use coin_manage.Ledger.Fees.{record_fee_if}
use coin_manage.Ledger.Transfers.{corrupted}

abbrev pub is_reserved : WithdrawalStatus → Bool
is_reserved WithdrawalStatus.ledger_reserved = true
is_reserved _ = false

abbrev pub is_pending_admin : WithdrawalStatus → Bool
is_pending_admin WithdrawalStatus.pending_admin = true
is_pending_admin _ = false

abbrev pub is_approved : WithdrawalStatus → Bool
is_approved WithdrawalStatus.admin_approved = true
is_approved _ = false

abbrev pub is_broadcasted : WithdrawalStatus → Bool
is_broadcasted WithdrawalStatus.tx_broadcasted = true
is_broadcasted _ = false

abbrev pub externally_confirmed : String → String → String → Withdrawal → Withdrawal
externally_confirmed provider request_id now_iso w = record w {
  status = WithdrawalStatus.pending_admin;
  external_auth_provider = some provider;
  external_auth_request_id = some request_id;
  external_auth_confirmed_at = some now_iso;
}

abbrev pub broadcasted : String → String → Withdrawal → Withdrawal
broadcasted tx_hash now_iso w = record w {
  status = WithdrawalStatus.tx_broadcasted;
  tx_hash = some tx_hash;
  broadcasted_at = some now_iso;
}

abbrev pub completed_at : String → Withdrawal → Withdrawal
completed_at now_iso w = record w {
  status = WithdrawalStatus.completed;
  confirmed_at = some now_iso;
}

abbrev pub failed_for : String → String → Withdrawal → Withdrawal
failed_for reason now_iso w = record w {
  status = WithdrawalStatus.failed;
  failed_at = some now_iso;
  fail_reason = some reason;
}

-- `approvals.length` after the push, and the approval where it is the last one needed.
abbrev pub approved_by : ℕ → String → Withdrawal → Withdrawal
approved_by count now_iso w =
    if leb w.required_approvals count
    then record w {
      approval_count = count;
      status = WithdrawalStatus.admin_approved;
      approved_at = some now_iso;
    }
    else record w { approval_count = count }

unfoldable pub mark_withdrawal_review_required : String → String → Method Withdrawal
unfolding get_mutable_withdrawal
mark_withdrawal_review_required withdrawal_id now_iso = do
  withdrawal ← get_mutable_withdrawal withdrawal_id
  if not (is_pending_admin withdrawal.status) then pure withdrawal else do
    let updated = record withdrawal { review_required_at = some now_iso }
    put_withdrawal withdrawal_id updated
    pure updated

pub record ApprovalInput : Type 0 where
  pub admin_id : String
  pub actor_type : ActorType
  pub reason_code : Option ApprovalReason
  pub note : Option String

abbrev pub approved_already : String → List WithdrawalApproval → Bool
approved_already admin_id = any (λ (a : WithdrawalApproval). a.admin_id == admin_id)

abbrev pub new_approval : ApprovalInput → String → String → String → WithdrawalApproval
new_approval input approval_id withdrawal_id now_iso = record {
  approval_id = approval_id;
  withdrawal_id = withdrawal_id;
  admin_id = input.admin_id;
  actor_type = input.actor_type;
  reason_code = or_default input.reason_code manual_review_passed;
  note = input.note;
  created_at = now_iso;
}

-- `account.lockedBalance -= amount; account.updatedAt = nowIso;`
abbrev pub released : ℤ → String → Account → Account
released amount now_iso account = record account {
  locked_balance = account.locked_balance -ℤ amount;
  updated_at = now_iso;
}

-- The same, with the amount given back.
abbrev pub refunded : ℤ → String → Account → Account
refunded amount now_iso account = record account {
  locked_balance = account.locked_balance -ℤ amount;
  balance = account.balance +ℤ amount;
  updated_at = now_iso;
}

-- The account's lock is undone, `change` saying what becomes of the amount. The account is written
-- before the transaction is looked for.
unfoldable pub settle_account : String → ℤ → String → (Account → Account) → Method (Unit {0})
unfolding get_mutable_account
settle_account user_id amount now_iso change = do
  account ← get_mutable_account user_id now_iso
  throw_if (ltb_ℤ account.locked_balance amount) (corrupted "locked balance underflow")
  put_account user_id (change account)

-- The transaction is found and changed in place.
unfoldable pub settle_transaction :
    String → (LedgerTransaction → LedgerTransaction) → Method (Unit {0})
settle_transaction tx_id change = do
  found ← gets (λ s. lookup tx_id s.transactions)
  tx ← or_throw found (corrupted "withdraw transaction missing")
  put_transaction tx_id (change tx)

abbrev pub tx_confirmed : Option String → LedgerTransaction → LedgerTransaction
tx_confirmed tx_hash tx = record tx { status = TransactionStatus.confirmed; block_tx = tx_hash }

abbrev pub tx_failed : LedgerTransaction → LedgerTransaction
tx_failed tx = record tx { status = TransactionStatus.failed }

module _ (host : Host) where
  unfoldable pub confirm_withdrawal_external_auth :
      String → String → String → String → Method Withdrawal
  unfolding get_mutable_withdrawal enqueue_withdrawal_event
  confirm_withdrawal_external_auth withdrawal_id provider request_id now_iso = do
    withdrawal ← get_mutable_withdrawal withdrawal_id
    let again =
        opt_eq withdrawal.external_auth_request_id request_id
        && opt_eq withdrawal.external_auth_provider provider
    if is_reserved withdrawal.status
        then (do
          let updated = externally_confirmed provider request_id now_iso withdrawal
          put_withdrawal withdrawal_id updated
          enqueue_withdrawal_event host withdrawal_id updated now_iso
          pure updated)
        else if again
        then pure withdrawal
        else throw (
            domain_error 409 "INVALID_STATE"
              "withdrawal external auth cannot be confirmed in current state")

  unfoldable pub approve_withdrawal :
      String → ApprovalInput → String → Method ApprovalDecisionResult
  unfolding get_mutable_withdrawal random_uuid enqueue_withdrawal_event
  approve_withdrawal withdrawal_id input now_iso = do
    withdrawal ← get_mutable_withdrawal withdrawal_id
    throw_if (not (is_pending_admin withdrawal.status))
        (domain_error 409 "INVALID_STATE" "withdrawal must be pending admin approval")
    found ← gets (λ s. lookup withdrawal_id s.approvals_by_withdrawal_id)
    let approvals = or_default found []
    throw_if (approved_already input.admin_id approvals)
        (domain_error 409 "ALREADY_APPROVED" "admin already approved this withdrawal")
    approval_id ← random_uuid host
    let approval = new_approval input approval_id withdrawal_id now_iso
    let extended = approvals ++ approval ∷ []
    modify (λ s. record s {
      approvals_by_withdrawal_id = insert withdrawal_id extended s.approvals_by_withdrawal_id;
    })
    let updated = approved_by (length extended) now_iso withdrawal
    put_withdrawal withdrawal_id updated
    enqueue_withdrawal_event host withdrawal_id updated now_iso
    pure (record {
      withdrawal = updated;
      approval = approval;
      finalized = leb withdrawal.required_approvals (length extended);
    })

  unfoldable pub broadcast_withdrawal : String → String → String → Method Withdrawal
  unfolding get_mutable_withdrawal enqueue_withdrawal_event
  broadcast_withdrawal withdrawal_id tx_hash now_iso = do
    withdrawal ← get_mutable_withdrawal withdrawal_id
    throw_if (not (is_approved withdrawal.status))
        (domain_error 409 "INVALID_STATE" "withdrawal must be admin approved")
    let updated = broadcasted tx_hash now_iso withdrawal
    put_withdrawal withdrawal_id updated
    enqueue_withdrawal_event host withdrawal_id updated now_iso
    pure updated

  unfoldable pub confirm_withdrawal : String → Option NetworkFee → String → Method Withdrawal
  unfolding get_mutable_withdrawal settle_account settle_transaction record_fee_if
      enqueue_withdrawal_event
  confirm_withdrawal withdrawal_id fee now_iso = do
    withdrawal ← get_mutable_withdrawal withdrawal_id
    throw_if (not (is_broadcasted withdrawal.status))
        (domain_error 409 "INVALID_STATE" "withdrawal must be tx broadcasted")
    settle_account withdrawal.user_id withdrawal.amount now_iso (released withdrawal.amount now_iso)
    settle_transaction withdrawal.ledger_tx_id (tx_confirmed withdrawal.tx_hash)
    let updated = completed_at now_iso withdrawal
    put_withdrawal withdrawal_id updated
    record_fee_if FeeReference.withdrawal withdrawal_id withdrawal.tx_hash fee now_iso
    enqueue_withdrawal_event host withdrawal_id updated now_iso
    pure updated

  unfoldable pub fail_withdrawal : String → String → String → Method Withdrawal
  unfolding get_mutable_withdrawal settle_account settle_transaction enqueue_withdrawal_event
  fail_withdrawal withdrawal_id reason now_iso = do
    withdrawal ← get_mutable_withdrawal withdrawal_id
    throw_if (not (is_active withdrawal.status))
        (domain_error 409 "INVALID_STATE" "withdrawal cannot be failed in current state")
    settle_account withdrawal.user_id withdrawal.amount now_iso (refunded withdrawal.amount now_iso)
    settle_transaction withdrawal.ledger_tx_id tx_failed
    let updated = failed_for reason now_iso withdrawal
    put_withdrawal withdrawal_id updated
    enqueue_withdrawal_event host withdrawal_id updated now_iso
    pure updated
