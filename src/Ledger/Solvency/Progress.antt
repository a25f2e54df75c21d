-- ===== src/Ledger/Solvency/Progress.antt =====
-- The methods that move a withdrawal forward without touching money keep the invariant.
use coin_manage.Base.{
  String, true, false, not, ◌&&◌, none, some, ◌≡◌, refl, arith, inl, inr, Bool-cases, Option-cases,
  List, [], ◌∷◌, ◌++◌, or_default, length,
}
use coin_manage.Base.Map.{lookup}
use coin_manage.Contracts.{Host}
use coin_manage.Ledger.Types.Funds.{Withdrawal, WithdrawalApproval}
use coin_manage.Ledger.State.{InMemoryLedger}
use coin_manage.Ledger.Withdrawals.{
  ApprovalInput, approve_withdrawal, approved_already, approved_by, broadcast_withdrawal,
  broadcasted, confirm_withdrawal_external_auth, externally_confirmed, is_approved,
  is_pending_admin, is_reserved, new_approval, mark_withdrawal_review_required,
}
use coin_manage.Ledger.Solvency.{IsSound, WritesWithdrawal}
use coin_manage.Ledger.Solvency.Maps.{WritesWithdrawal-IsSound}

module _ (host : Host) (id now : String) (s : InMemoryLedger) where
  pub external_auth-writes :
      (provider request_id : String) (w : Withdrawal)
      → lookup id s.withdrawals ≡ some w
      → is_reserved w.status ≡ true
      → WritesWithdrawal s
          (confirm_withdrawal_external_auth host id provider request_id now s).1
          id
          (externally_confirmed provider request_id now w)
  unfolding confirm_withdrawal_external_auth
  external_auth-writes provider request_id w e b = ground arith

  pub external_auth-idle :
      (provider request_id : String) (w : Withdrawal)
      → lookup id s.withdrawals ≡ some w
      → is_reserved w.status ≡ false
      → (confirm_withdrawal_external_auth host id provider request_id now s).1 ≡ s
  unfolding confirm_withdrawal_external_auth
  external_auth-idle provider request_id w e b = ground arith

  pub external_auth-missing :
      (provider request_id : String)
      → lookup id s.withdrawals ≡ none
      → (confirm_withdrawal_external_auth host id provider request_id now s).1 ≡ s
  unfolding confirm_withdrawal_external_auth
  external_auth-missing provider request_id e = ground arith

  pub confirm_withdrawal_external_auth-IsSound :
      (provider request_id : String)
      → IsSound host s
      → IsSound host (confirm_withdrawal_external_auth host id provider request_id now s).1
  confirm_withdrawal_external_auth-IsSound provider request_id h =
      elim (Option-cases (lookup id s.withdrawals)) [
        | inl e ↦ rw (external_auth-missing provider request_id e) h
        | inr (w, e) ↦ elim (Bool-cases (is_reserved w.status)) [
          | inr b ↦ rw (external_auth-idle provider request_id w e b) h
          | inl b ↦
              WritesWithdrawal-IsSound id w (externally_confirmed provider request_id now w)
                (external_auth-writes provider request_id w e b) e refl refl refl (ground arith) h
        ]
      ]

  pub broadcast-writes :
      (tx_hash : String) (w : Withdrawal)
      → lookup id s.withdrawals ≡ some w
      → is_approved w.status ≡ true
      → WritesWithdrawal s
          (broadcast_withdrawal host id tx_hash now s).1
          id
          (broadcasted tx_hash now w)
  unfolding broadcast_withdrawal
  broadcast-writes tx_hash w e b = ground arith

  pub broadcast-idle :
      (tx_hash : String) (w : Withdrawal)
      → lookup id s.withdrawals ≡ some w
      → is_approved w.status ≡ false
      → (broadcast_withdrawal host id tx_hash now s).1 ≡ s
  unfolding broadcast_withdrawal
  broadcast-idle tx_hash w e b = ground arith

  pub broadcast-missing :
      (tx_hash : String)
      → lookup id s.withdrawals ≡ none
      → (broadcast_withdrawal host id tx_hash now s).1 ≡ s
  unfolding broadcast_withdrawal
  broadcast-missing tx_hash e = ground arith

  pub broadcast_withdrawal-IsSound :
      (tx_hash : String)
      → IsSound host s
      → IsSound host (broadcast_withdrawal host id tx_hash now s).1
  broadcast_withdrawal-IsSound tx_hash h = elim (Option-cases (lookup id s.withdrawals)) [
    | inl e ↦ rw (broadcast-missing tx_hash e) h
    | inr (w, e) ↦ elim (Bool-cases (is_approved w.status)) [
      | inr b ↦ rw (broadcast-idle tx_hash w e b) h
      | inl b ↦
          WritesWithdrawal-IsSound id w (broadcasted tx_hash now w) (broadcast-writes tx_hash w e b)
            e refl refl refl (ground arith) h
    ]
  ]

  -- The approvals of a withdrawal before and after one more.
  abbrev pub approvals_before : List WithdrawalApproval
  approvals_before = or_default (lookup id s.approvals_by_withdrawal_id) []

  abbrev pub approvals_after : ApprovalInput → List WithdrawalApproval
  approvals_after input =
      approvals_before ++ new_approval input (host.random_uuid s.issued) id now ∷ []

  pub approve-writes :
      (input : ApprovalInput) (w : Withdrawal)
      → lookup id s.withdrawals ≡ some w
      → is_pending_admin w.status ≡ true
      → approved_already input.admin_id approvals_before ≡ false
      → WritesWithdrawal s
          (approve_withdrawal host id input now s).1
          id
          (approved_by (length (approvals_after input)) now w)
  unfolding approve_withdrawal
  approve-writes input w e b fresh = ground arith

  pub approve-idle :
      (input : ApprovalInput) (w : Withdrawal)
      → lookup id s.withdrawals ≡ some w
      → (is_pending_admin w.status && not (approved_already input.admin_id approvals_before))
        ≡ false
      → (approve_withdrawal host id input now s).1 ≡ s
  unfolding approve_withdrawal
  approve-idle input w e b = ground arith

  pub approve-missing :
      (input : ApprovalInput)
      → lookup id s.withdrawals ≡ none
      → (approve_withdrawal host id input now s).1 ≡ s
  unfolding approve_withdrawal
  approve-missing input e = ground arith

  pub approve_withdrawal-IsSound :
      (input : ApprovalInput)
      → IsSound host s
      → IsSound host (approve_withdrawal host id input now s).1
  approve_withdrawal-IsSound input h = elim (Option-cases (lookup id s.withdrawals)) [
    | inl e ↦ rw (approve-missing input e) h
    | inr (w, e) ↦
        elim (Bool-cases
          (is_pending_admin w.status && not (approved_already input.admin_id approvals_before))) [
            | inr b ↦ rw (approve-idle input w e b) h
            | inl b ↦
                WritesWithdrawal-IsSound id w (approved_by (length (approvals_after input)) now w)
                  (approve-writes input w e (ground arith) (ground arith)) e (ground arith)
                  (ground arith) (ground arith) (ground arith) h
          ]
  ]

  pub review-writes :
      (w : Withdrawal)
      → lookup id s.withdrawals ≡ some w
      → is_pending_admin w.status ≡ true
      → WritesWithdrawal s
          (mark_withdrawal_review_required id now s).1
          id
          (record w { review_required_at = some now })
  unfolding mark_withdrawal_review_required
  review-writes w e b = ground arith

  pub review-idle :
      (w : Withdrawal)
      → lookup id s.withdrawals ≡ some w
      → is_pending_admin w.status ≡ false
      → (mark_withdrawal_review_required id now s).1 ≡ s
  unfolding mark_withdrawal_review_required
  review-idle w e b = ground arith

  pub review-missing :
      lookup id s.withdrawals ≡ none → (mark_withdrawal_review_required id now s).1 ≡ s
  unfolding mark_withdrawal_review_required
  review-missing e = ground arith

  pub mark_withdrawal_review_required-IsSound :
      IsSound host s → IsSound host (mark_withdrawal_review_required id now s).1
  mark_withdrawal_review_required-IsSound h = elim (Option-cases (lookup id s.withdrawals)) [
    | inl e ↦ rw (review-missing e) h
    | inr (w, e) ↦ elim (Bool-cases (is_pending_admin w.status)) [
      | inr b ↦ rw (review-idle w e b) h
      | inl b ↦
          WritesWithdrawal-IsSound id w (record w { review_required_at = some now })
            (review-writes w e b) e refl refl refl refl h
    ]
  ]
