-- ===== src/Ledger/Solvency/Credit.antt =====
-- Deposits, external credits, transfers and reads of an account keep the invariant: they move
-- available balances, and no lock.
use native.Mathlib.Nat.{le_trans}
use coin_manage.Base.{◌≤◌, String, ◌≡◌, ◌≢◌, refl, arith, eq_iff, inl, inr, Option-cases}
use coin_manage.Base.Int.{ℤ, pos, ◌≤ℤ◌, int_laws}
use coin_manage.Base.Map.{lookup, Every, Every-lookup, Every-insert, Every-weaken, lookup-insert}
use coin_manage.Contracts.{Host}
use coin_manage.Ledger.Types.Funds.{Withdrawal}
use coin_manage.Ledger.State.{InMemoryLedger}
use coin_manage.Ledger.Accounts.{get_account, bind_wallet_address}
use coin_manage.Ledger.Deposits.{
  DepositInput, ExternalCreditInput, credit_account, apply_deposit, apply_new_deposit,
  apply_external_credit, complete_deposit,
}
use coin_manage.Ledger.Transfers.{
  TransferInput, move_funds, transfer, transfer_new, record_transfer,
}
use coin_manage.Ledger.Frames.{credit_account-frame, move_funds-frame}
use coin_manage.Ledger.Solvency.{locked_of, IsRecorded, IsSolvent, IsSound, SameFunds}

-- A step that keeps the locks and the withdrawals; transactions are only added.
pub record KeepsLocks (s t : InMemoryLedger) : Type 0 where
  pub locks_same : (u : String) → locked_of u t.accounts ≡ locked_of u s.accounts
  pub withdrawals_same : t.withdrawals ≡ s.withdrawals
  pub transactions_kept : (w : Withdrawal) → IsRecorded s w → IsRecorded t w
  pub balances_kept : Every IsSolvent t.accounts
  pub issued_grows : s.issued ≤ t.issued

pub KeepsLocks-IsSound :
    {host : Host} {s t : InMemoryLedger} → KeepsLocks s t → IsSound host s → IsSound host t
KeepsLocks-IsSound {s = s} step h = record {
  locked = λ u. rw (step.withdrawals_same, step.locks_same u) (h.locked u);
  amounts = rw step.withdrawals_same h.amounts;
  recorded =
      rw step.withdrawals_same (Every-weaken _ _ s.withdrawals step.transactions_kept h.recorded);
  balances = step.balances_kept;
  unissued = λ n le. rw step.withdrawals_same (h.unissued n (le_trans step.issued_grows le));
}

module _ (user_id : String) (amount : ℤ) (now : String) (s : InMemoryLedger) where
  credit_account-locked :
      (u : String)
      → locked_of u (credit_account user_id amount now s).1.accounts ≡ locked_of u s.accounts
  unfolding credit_account
  credit_account-locked u = grind (arith, lookup-insert, eq_iff user_id u)

  credit_account-IsSolvent :
      pos 0 ≤ℤ amount
      → Every IsSolvent s.accounts
      → Every IsSolvent (credit_account user_id amount now s).1.accounts
  unfolding credit_account
  credit_account-IsSolvent p h = grind (int_laws, Every-insert, Every-lookup)

module _ (host : Host) (now : String) (s : InMemoryLedger) where
  apply_new_deposit-KeepsLocks :
      (input : DepositInput)
      → pos 0 ≤ℤ input.amount
      → IsSound host s
      → KeepsLocks s (apply_new_deposit host input now s).1
  unfolding apply_new_deposit
  apply_new_deposit-KeepsLocks input p h = record {
    locks_same = λ u. ground (
      arith,
      credit_account-frame input.user_id input.amount now s,
      credit_account-locked input.user_id input.amount now s u,
    );
    withdrawals_same = ground (arith, credit_account-frame input.user_id input.amount now s);
    transactions_kept =
        λ w r. grind (arith, credit_account-frame input.user_id input.amount now s, lookup-insert);
    balances_kept = ground (
      arith,
      credit_account-frame input.user_id input.amount now s,
      credit_account-IsSolvent input.user_id input.amount now s p h.balances,
    );
    issued_grows = ground (arith, credit_account-frame input.user_id input.amount now s);
  }

  pub apply_deposit-IsSound :
      (input : DepositInput)
      → pos 0 ≤ℤ input.amount
      → IsSound host s
      → IsSound host (apply_deposit host input now s).1
  unfolding apply_deposit
  apply_deposit-IsSound input p h =
      elim (Option-cases (lookup input.tx_hash s.deposits_by_tx_hash)) [
        | inr (d, e) ↦ rw (e, apply_deposit) h
        | inl e ↦
            rw (e, apply_deposit) (KeepsLocks-IsSound (apply_new_deposit-KeepsLocks input p h) h)
      ]

  pub complete_deposit-SameFunds :
      (deposit_id : String) → SameFunds s (complete_deposit deposit_id s).1
  unfolding complete_deposit
  complete_deposit-SameFunds deposit_id = ground arith

  apply_external_credit-KeepsLocks :
      (input : ExternalCreditInput)
      → IsSound host s
      → KeepsLocks s (apply_external_credit host input now s).1
  unfolding apply_external_credit
  apply_external_credit-KeepsLocks input h = record {
    locks_same = λ u. ground (
      arith,
      credit_account-frame input.user_id input.amount now s,
      credit_account-locked input.user_id input.amount now s u,
    );
    withdrawals_same = ground (arith, credit_account-frame input.user_id input.amount now s);
    transactions_kept =
        λ w r. ground (arith, credit_account-frame input.user_id input.amount now s);
    balances_kept = grind (
      arith,
      credit_account-frame input.user_id input.amount now s,
      credit_account-IsSolvent input.user_id input.amount now s,
      h.balances,
    );
    issued_grows = ground (arith, credit_account-frame input.user_id input.amount now s);
  }

  pub apply_external_credit-IsSound :
      (input : ExternalCreditInput)
      → IsSound host s
      → IsSound host (apply_external_credit host input now s).1
  apply_external_credit-IsSound input h =
      KeepsLocks-IsSound (apply_external_credit-KeepsLocks input h) h

module _ (input : TransferInput) (now : String) (s : InMemoryLedger) where
  move_funds-locked :
      (u : String)
      → input.from_user_id ≢ input.to_user_id
      → locked_of u (move_funds input now s).1.accounts ≡ locked_of u s.accounts
  unfolding move_funds
  move_funds-locked u ne = grind (
    arith,
    lookup-insert,
    eq_iff input.from_user_id u,
    eq_iff input.to_user_id u,
    eq_iff input.from_user_id input.to_user_id,
  )

  move_funds-IsSolvent :
      pos 0 ≤ℤ input.amount
      → Every IsSolvent s.accounts
      → Every IsSolvent (move_funds input now s).1.accounts
  unfolding move_funds
  move_funds-IsSolvent p h = grind (int_laws, Every-insert, Every-lookup, lookup-insert)

module _ (host : Host) (now : String) (s : InMemoryLedger) where
  transfer_new-KeepsLocks :
      (input : TransferInput)
      → pos 0 ≤ℤ input.amount
      → IsSound host s
      → KeepsLocks s (transfer_new host input now s).1
  unfolding transfer_new record_transfer
  transfer_new-KeepsLocks input p h = record {
    locks_same = λ u. ground (
      arith,
      move_funds-frame input now s,
      move_funds-locked input now s u,
      eq_iff input.from_user_id input.to_user_id,
    );
    withdrawals_same = ground (arith, move_funds-frame input now s);
    transactions_kept = λ w r. grind (arith, move_funds-frame input now s, lookup-insert);
    balances_kept = ground (
      arith,
      move_funds-frame input now s,
      move_funds-IsSolvent input now s p h.balances,
      h.balances,
    );
    issued_grows = ground (arith, move_funds-frame input now s);
  }

  pub transfer-IsSound :
      (input : TransferInput)
      → pos 0 ≤ℤ input.amount
      → IsSound host s
      → IsSound host (transfer host input now s).1
  transfer-IsSound input p h =
      elim (Option-cases (lookup input.idempotency_key s.transfer_by_idempotency_key)) [
        | inr (r, e) ↦ unfold transfer in rw (e, transfer) h
        | inl e ↦
            unfold transfer in
            rw (e, transfer) (KeepsLocks-IsSound (transfer_new-KeepsLocks input p h) h)
      ]

  get_account-KeepsLocks :
      (user_id : String) → IsSound host s → KeepsLocks s (get_account user_id now s).1
  unfolding get_account
  get_account-KeepsLocks user_id h = record {
    locks_same = λ u. grind (arith, lookup-insert, eq_iff user_id u);
    withdrawals_same = refl;
    transactions_kept = λ w r. r;
    balances_kept = grind (arith, Every-insert, Every-lookup, h.balances);
    issued_grows = omega arith;
  }

  pub get_account-IsSound :
      (user_id : String) → IsSound host s → IsSound host (get_account user_id now s).1
  get_account-IsSound user_id h = KeepsLocks-IsSound (get_account-KeepsLocks user_id h) h

  bind_wallet_address-KeepsLocks :
      (user_id wallet_address : String)
      → IsSound host s
      → KeepsLocks s (bind_wallet_address user_id wallet_address now s).1
  unfolding bind_wallet_address
  bind_wallet_address-KeepsLocks user_id wallet_address h = record {
    locks_same = λ u. grind (arith, lookup-insert, eq_iff user_id u);
    withdrawals_same = ground arith;
    transactions_kept = λ w r. ground arith;
    balances_kept = grind (arith, Every-insert, Every-lookup, h.balances);
    issued_grows = ground arith;
  }

  pub bind_wallet_address-IsSound :
      (user_id wallet_address : String)
      → IsSound host s
      → IsSound host (bind_wallet_address user_id wallet_address now s).1
  bind_wallet_address-IsSound user_id wallet_address h =
      KeepsLocks-IsSound (bind_wallet_address-KeepsLocks user_id wallet_address h) h
