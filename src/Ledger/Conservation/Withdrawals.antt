-- ===== src/Ledger/Conservation/Withdrawals.antt =====
-- The methods of src/ledger/in-memory-ledger.ts on transfers and withdrawals keep the books.
use coin_manage.Base.{
  String, not, ◌&&◌, some, ◌≡◌, refl, arith, inl, inr, Option-cases, Bool-cases, ◌==◌, length,
}
use coin_manage.Base.Int.{ℤ, ◌+ℤ◌}
use coin_manage.Base.Map.{lookup, insert, sum_of, sum_of-insert}
use coin_manage.Contracts.{Host}
use coin_manage.Ledger.Types.Funds.{Withdrawal}
use coin_manage.Ledger.State.{InMemoryLedger}
use coin_manage.Ledger.Transfers.{
  TransferInput, transfer, transfer_new, move_funds, record_transfer,
}
use coin_manage.Ledger.Withdrawals.{
  ApprovalInput, approve_withdrawal, approved_already, approved_by, broadcast_withdrawal,
  broadcasted, confirm_withdrawal_external_auth, externally_confirmed, is_approved,
  is_pending_admin, is_reserved, mark_withdrawal_review_required,
}
use coin_manage.Ledger.Frames.{move_funds-frame}
use coin_manage.Ledger.Solvency.{WritesWithdrawal}
use coin_manage.Ledger.Solvency.Progress.{
  external_auth-writes, external_auth-idle, external_auth-missing, broadcast-writes, broadcast-idle,
  broadcast-missing, approve-writes, approve-idle, approve-missing, review-writes, review-idle,
  review-missing, approvals_before, approvals_after,
}
use coin_manage.Ledger.Conservation.{paid_out, IsBalanced, MovesWithin-IsBalanced}
use coin_manage.Ledger.Conservation.Accounts.{move_funds-held, zero_total}

module _ (host : Host) (input : TransferInput) (now : String) (s : InMemoryLedger) where
  transfer_new-IsBalanced : IsBalanced s → IsBalanced (transfer_new host input now s).1
  transfer_new-IsBalanced h = elim (Bool-cases (input.from_user_id == input.to_user_id)) [
    | inl same ↦
        let q : (transfer_new host input now s).1 ≡ s = unfold transfer_new in ground arith in
        rw q h
    | inr apart ↦
        let frame = move_funds-frame input now s in
        let t = (transfer_new host input now s).1 in
        let accounts : t.accounts ≡ (move_funds input now s).1.accounts =
          unfold transfer_new record_transfer in ground (arith, frame) in
        let withdrawals : t.withdrawals ≡ s.withdrawals =
          unfold transfer_new record_transfer in ground (arith, frame) in
        MovesWithin-IsBalanced {s = s} {t = t}
          (record {
            liability_same = rw accounts (move_funds-held input now s apart);
            outflow_same = rw withdrawals refl;
            deposits_same = unfold transfer_new record_transfer in ground (arith, frame);
            credits_same = unfold transfer_new record_transfer in ground (arith, frame);
          })
          h
  ]

  pub transfer-IsBalanced : IsBalanced s → IsBalanced (transfer host input now s).1
  transfer-IsBalanced h =
      elim (Option-cases (lookup input.idempotency_key s.transfer_by_idempotency_key)) [
        | inr (r, e) ↦ unfold transfer in rw (e, transfer) h
        | inl e ↦ unfold transfer in rw (e, transfer) (transfer_new-IsBalanced h)
      ]

paid_alike : (a b p q : ℤ) → p ≡ q → a +ℤ q ≡ b +ℤ p → a +ℤ q ≡ b +ℤ q
paid_alike a b p q e h = rw e at h

-- A withdrawal is rewritten, and neither version counts as paid, or both do.
module _ {s t : InMemoryLedger} (id : String) (w w' : Withdrawal) where
  WritesWithdrawal-IsBalanced :
      WritesWithdrawal s t id w'
      → lookup id s.withdrawals ≡ some w
      → paid_out w' ≡ paid_out w
      → IsBalanced s
      → IsBalanced t
  WritesWithdrawal-IsBalanced step e paid h =
      let sums = sum_of-insert paid_out id w' w s.withdrawals e in
      let sums' : sum_of paid_out (insert id w' s.withdrawals) +ℤ paid_out w
          ≡ sum_of paid_out s.withdrawals +ℤ paid_out w =
        paid_alike _ _ _ _ paid sums in
      MovesWithin-IsBalanced {s = s} {t = t}
        (record {
          liability_same = rw step.accounts_same refl;
          outflow_same = rw step.withdrawals_set (zero_total _ _ (paid_out w) sums');
          deposits_same = step.deposits_same;
          credits_same = step.credits_same;
        })
        h

module _ (host : Host) (id now : String) (s : InMemoryLedger) where
  pub confirm_withdrawal_external_auth-IsBalanced :
      (provider request_id : String)
      → IsBalanced s
      → IsBalanced (confirm_withdrawal_external_auth host id provider request_id now s).1
  confirm_withdrawal_external_auth-IsBalanced provider request_id h =
      elim (Option-cases (lookup id s.withdrawals)) [
        | inl e ↦ rw (external_auth-missing host id now s provider request_id e) h
        | inr (w, e) ↦ elim (Bool-cases (is_reserved w.status)) [
          | inr b ↦ rw (external_auth-idle host id now s provider request_id w e b) h
          | inl b ↦
              WritesWithdrawal-IsBalanced id w (externally_confirmed provider request_id now w)
                (external_auth-writes host id now s provider request_id w e b) e (ground arith) h
        ]
      ]

  pub broadcast_withdrawal-IsBalanced :
      (tx_hash : String) → IsBalanced s → IsBalanced (broadcast_withdrawal host id tx_hash now s).1
  broadcast_withdrawal-IsBalanced tx_hash h = elim (Option-cases (lookup id s.withdrawals)) [
    | inl e ↦ rw (broadcast-missing host id now s tx_hash e) h
    | inr (w, e) ↦ elim (Bool-cases (is_approved w.status)) [
      | inr b ↦ rw (broadcast-idle host id now s tx_hash w e b) h
      | inl b ↦
          WritesWithdrawal-IsBalanced id w (broadcasted tx_hash now w)
            (broadcast-writes host id now s tx_hash w e b) e (ground arith) h
    ]
  ]

  pub approve_withdrawal-IsBalanced :
      (input : ApprovalInput) → IsBalanced s → IsBalanced (approve_withdrawal host id input now s).1
  approve_withdrawal-IsBalanced input h = elim (Option-cases (lookup id s.withdrawals)) [
    | inl e ↦ rw (approve-missing host id now s input e) h
    | inr (w, e) ↦
        elim (Bool-cases (
          is_pending_admin w.status
          && not (approved_already input.admin_id (approvals_before host id now s)))) [
            | inr b ↦ rw (approve-idle host id now s input w e b) h
            | inl b ↦
                WritesWithdrawal-IsBalanced id w
                  (approved_by (length (approvals_after host id now s input)) now w)
                  (approve-writes host id now s input w e (ground arith) (ground arith)) e
                  (ground arith) h
          ]
  ]

  pub mark_withdrawal_review_required-IsBalanced :
      IsBalanced s → IsBalanced (mark_withdrawal_review_required id now s).1
  mark_withdrawal_review_required-IsBalanced h = elim (Option-cases (lookup id s.withdrawals)) [
    | inl e ↦ rw (review-missing host id now s e) h
    | inr (w, e) ↦ elim (Bool-cases (is_pending_admin w.status)) [
      | inr b ↦ rw (review-idle host id now s w e b) h
      | inl b ↦
          WritesWithdrawal-IsBalanced id w (record w { review_required_at = some now })
            (review-writes host id now s w e b) e (ground arith) h
    ]
  ]
