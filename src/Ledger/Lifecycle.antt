-- ===== src/Ledger/Lifecycle.antt =====
-- The life of a withdrawal in src/ledger/in-memory-ledger.ts as a step relation: what one call may do
-- to the withdrawals and to their approvals. The children prove that each call is such a step, and
-- what follows for any sequence of calls.
mod Effects
mod Run
pub mod Status
pub mod Approvals
pub mod Limits
pub mod History
use coin_manage.Base.{
  ℕ, ◌+◌, ◌≤◌, String, true, false, some, ◌≡◌, List, [], ◌∷◌, ◌++◌, or_default, length,
}
use coin_manage.Base.Int.{ℤ, ◌+ℤ◌, ◌≤ℤ◌}
use coin_manage.Base.Map.{Map, lookup, insert}
use coin_manage.Contracts.{Host}
use coin_manage.Ledger.Types.Funds.{Withdrawal, WithdrawalApproval}
use coin_manage.Ledger.State.{InMemoryLedger, is_active}
use coin_manage.Ledger.Requests.{
  WithdrawalInput, get_daily_requested_withdrawal_amount, new_withdrawal,
}
use coin_manage.Ledger.Withdrawals.{
  ApprovalInput, approved_already, approved_by, broadcasted, completed_at, externally_confirmed,
  failed_for, is_approved, is_broadcasted, is_pending_admin, is_reserved, new_approval,
}

abbrev pub approvals_of : String → InMemoryLedger → List WithdrawalApproval
approvals_of id s = or_default (lookup id s.approvals_by_withdrawal_id) []

abbrev pub approvals_with :
    ApprovalInput → String → String → String → InMemoryLedger → List WithdrawalApproval
approvals_with input approval_id id now s =
    approvals_of id s ++ new_approval input approval_id id now ∷ []

-- The withdrawal that a request creates: the first id goes to the ledger transaction.
abbrev pub requested : Host → WithdrawalInput → String → InMemoryLedger → Withdrawal
requested host input now s =
    new_withdrawal input (host.random_uuid (s.issued + 1)) (host.random_uuid s.issued) now

-- One withdrawal is replaced, and the approvals stay.
pub record Replaces (s t : InMemoryLedger) (id : String) (w w' : Withdrawal) : Type 0 where
  pub found : lookup id s.withdrawals ≡ some w
  pub withdrawals_set : t.withdrawals ≡ insert id w' s.withdrawals
  pub approvals_same : t.approvals_by_withdrawal_id ≡ s.approvals_by_withdrawal_id
  pub issued_grows : s.issued ≤ t.issued

pub data Effect (host : Host) (now : String) (s t : InMemoryLedger) : Type 0 where
  quiet :
      t.withdrawals ≡ s.withdrawals
      → t.approvals_by_withdrawal_id ≡ s.approvals_by_withdrawal_id
      → s.issued ≤ t.issued
      → Effect host now s t
  requests :
      (input : WithdrawalInput)
      → get_daily_requested_withdrawal_amount input.user_id now s +ℤ input.amount
        ≤ℤ host.limits.daily_limit
      → input.amount ≤ℤ host.limits.single_limit
      → t.withdrawals
        ≡ insert (host.random_uuid (s.issued + 1)) (requested host input now s) s.withdrawals
      → t.approvals_by_withdrawal_id
        ≡ insert (host.random_uuid (s.issued + 1)) [] s.approvals_by_withdrawal_id
      → s.issued + 2 ≤ t.issued
      → Effect host now s t
  authorises :
      (id provider request_id : String) (w : Withdrawal)
      → is_reserved w.status ≡ true
      → Replaces s t id w (externally_confirmed provider request_id now w)
      → Effect host now s t
  reviews :
      (id : String) (w : Withdrawal)
      → is_pending_admin w.status ≡ true
      → Replaces s t id w (record w { review_required_at = some now })
      → Effect host now s t
  approves :
      (id approval_id : String) (input : ApprovalInput) (w : Withdrawal)
      → is_pending_admin w.status ≡ true
      → approved_already input.admin_id (approvals_of id s) ≡ false
      → lookup id s.withdrawals ≡ some w
      → t.withdrawals
        ≡ insert id
            (approved_by (length (approvals_with input approval_id id now s)) now w)
            s.withdrawals
      → t.approvals_by_withdrawal_id
        ≡ insert id (approvals_with input approval_id id now s) s.approvals_by_withdrawal_id
      → s.issued ≤ t.issued
      → Effect host now s t
  broadcasts :
      (id tx_hash : String) (w : Withdrawal)
      → is_approved w.status ≡ true
      → Replaces s t id w (broadcasted tx_hash now w)
      → Effect host now s t
  confirms :
      (id : String) (w : Withdrawal)
      → is_broadcasted w.status ≡ true
      → Replaces s t id w (completed_at now w)
      → Effect host now s t
  fails :
      (id reason : String) (w : Withdrawal)
      → is_active w.status ≡ true
      → Replaces s t id w (failed_for reason now w)
      → Effect host now s t
