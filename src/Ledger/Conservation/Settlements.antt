-- ===== src/Ledger/Conservation/Settlements.antt =====
-- `requestWithdrawal`, `confirmWithdrawal` and `failWithdrawal` of src/ledger/in-memory-ledger.ts keep
-- the books.
use coin_manage.Base.{
  ◌+◌, String, Option, some, ◌≡◌, refl, arith, inl, inr, Option-cases, Bool-cases,
}
use coin_manage.Base.Int.{ℤ, pos, ◌+ℤ◌, ◌-ℤ◌, int_laws}
use coin_manage.Base.Action.{Error, ok, err, Result-cases}
use coin_manage.Base.Map.{lookup, sum_of, sum_of-insert, sum_of-insert_new}
use coin_manage.Contracts.{Host}
use coin_manage.Ledger.Types.Records.{NetworkFee}
use coin_manage.Ledger.Types.Funds.{Account, Withdrawal, LedgerTransaction}
use coin_manage.Ledger.State.{InMemoryLedger, is_active}
use coin_manage.Ledger.Requests.{
  WithdrawalInput, check_limits, reserve_funds, request_new, request_withdrawal, known_id,
}
use coin_manage.Ledger.Withdrawals.{confirm_withdrawal, fail_withdrawal, is_broadcasted}
use coin_manage.Ledger.Frames.{check_limits-frame, reserve_funds-frame}
use coin_manage.Ledger.Solvency.{IsSound}
use coin_manage.Ledger.Solvency.Settle.{
  Settles, confirm_withdrawal-Settles, fail_withdrawal-Settles, confirm_withdrawal-missing,
  confirm_withdrawal-refused, fail_withdrawal-missing, fail_withdrawal-refused, ledger_tx_there,
}
use coin_manage.Ledger.Solvency.Request.{request_new-Reserves, requested}
use coin_manage.Ledger.Conservation.{
  outflow, held, paid_out, IsBalanced, Moves-IsBalanced, MovesWithin-IsBalanced,
}
use coin_manage.Ledger.Conservation.Accounts.{reserve_funds-held, settle_account-held}

paid_first : (a b p q : ℤ) → p ≡ pos 0 → a +ℤ p ≡ b +ℤ q → a ≡ b +ℤ q
paid_first a b p q e h = let z : a +ℤ pos 0 ≡ a = omega int_laws in cc (z, e, h)

module _ {s t : InMemoryLedger} {id : String} {w w' : Withdrawal} {now : String}
    {change : Account → Account} {tx : LedgerTransaction} where
  Settles-IsBalanced :
      (d : ℤ)
      → Settles s t id w w' now change tx
      → lookup id s.withdrawals ≡ some w
      → ((a : Account) → held (change a) ≡ held a +ℤ d)
      → paid_out w ≡ pos 0
      → d +ℤ paid_out w' ≡ pos 0
      → IsBalanced s
      → IsBalanced t
  Settles-IsBalanced d step e more unpaid paid h =
      let sums = sum_of-insert paid_out id w' w s.withdrawals e in
      Moves-IsBalanced {s = s} {t = t} {a = d} {b = paid_out w'} {c = pos 0}
        (record {
          liability_moved =
              rw step.accounts_settled
                (settle_account-held w.user_id w.amount now s change d more step.account_found);
          outflow_moved = rw step.withdrawals_set (paid_first _ _ _ _ unpaid sums);
          inflow_moved = rw (step.deposits_same, step.credits_same) (omega int_laws);
          keys_kept = λ k. rw step.deposits_same k;
        })
        paid h

module _ (host : Host) (id now : String) (s : InMemoryLedger) where
  pub confirm_withdrawal-IsBalanced :
      (fee : Option NetworkFee)
      → IsSound host s
      → IsBalanced s
      → IsBalanced (confirm_withdrawal host id fee now s).1
  confirm_withdrawal-IsBalanced fee h books = elim (Option-cases (lookup id s.withdrawals)) [
    | inl e ↦ rw (confirm_withdrawal-missing host id now s fee e) books
    | inr (w, e) ↦ elim (Bool-cases (is_broadcasted w.status)) [
      | inr b ↦ rw (confirm_withdrawal-refused host id now s fee w e b) books
      | inl b ↦
          let (tx, found) = ledger_tx_there host id now s w h e in
          Settles-IsBalanced (pos 0 -ℤ w.amount)
            (confirm_withdrawal-Settles host id now s w h e fee tx found b) e (λ a. omega int_laws)
            (ground arith) (omega int_laws) books
    ]
  ]

  pub fail_withdrawal-IsBalanced :
      (reason : String)
      → IsSound host s
      → IsBalanced s
      → IsBalanced (fail_withdrawal host id reason now s).1
  fail_withdrawal-IsBalanced reason h books = elim (Option-cases (lookup id s.withdrawals)) [
    | inl e ↦ rw (fail_withdrawal-missing host id now s reason e) books
    | inr (w, e) ↦ elim (Bool-cases (is_active w.status)) [
      | inr b ↦ rw (fail_withdrawal-refused host id now s reason w e b) books
      | inl b ↦
          let (tx, found) = ledger_tx_there host id now s w h e in
          Settles-IsBalanced (pos 0) (fail_withdrawal-Settles host id now s w h e reason tx found b)
            e (λ a. omega int_laws) (ground arith) (omega int_laws) books
    ]
  ]

module _ (host : Host) (input : WithdrawalInput) (now : String) (s : InMemoryLedger) where
  -- The accounts of a new request, whether it goes through or is stopped.
  request_new-held : sum_of held (request_new host input now s).1.accounts ≡ sum_of held s.accounts
  request_new-held = elim (Result-cases (check_limits host input now s).0) [
    | inr (x, c) ↦
        let q : (request_new host input now s).1 ≡ s =
          unfold request_new in ground (arith, check_limits-frame host input now s) in
        rw q refl
    | inl (_, c) ↦
        let q : (request_new host input now s).1.accounts
            ≡ (reserve_funds input.user_id input.amount now s).1.accounts =
          unfold request_new in
          ground (
            arith,
            check_limits-frame host input now s,
            reserve_funds-frame input.user_id input.amount now s,
          ) in
        rw q (reserve_funds-held input.user_id input.amount now s)
  ]

  request_new-stopped :
      (x : Error) → (check_limits host input now s).0 ≡ err x → (request_new host input now s).1 ≡ s
  unfolding request_new
  request_new-stopped x c = ground (arith, check_limits-frame host input now s)

  request_new-unpaid :
      (x : Error)
      → (reserve_funds input.user_id input.amount now s).0 ≡ err x
      → (check_limits host input now s).0 ≡ ok tt
      → let t = (request_new host input now s).1 in
        (t.withdrawals ≡ s.withdrawals)
        × (t.deposits_by_tx_hash ≡ s.deposits_by_tx_hash)
        × (t.external_credits_by_reference ≡ s.external_credits_by_reference)
  unfolding request_new
  request_new-unpaid x r c = ground (
    arith,
    check_limits-frame host input now s,
    reserve_funds-frame input.user_id input.amount now s,
  )

  request_new-IsBalanced :
      IsSound host s → IsBalanced s → IsBalanced (request_new host input now s).1
  request_new-IsBalanced h books = elim (Result-cases (check_limits host input now s).0) [
    | inr (x, c) ↦ rw (request_new-stopped x c) books
    | inl (_, c) ↦ elim (Result-cases (reserve_funds input.user_id input.amount now s).0) [
      | inr (x, r) ↦
          let (withdrawals, deposits, credits) = request_new-unpaid x r c in
          MovesWithin-IsBalanced {s = s} {t = t}
            (record {
              liability_same = request_new-held;
              outflow_same = rw withdrawals refl;
              deposits_same = deposits;
              credits_same = credits;
            })
            books
      | inl (_, r) ↦
          let step = request_new-Reserves host input now s h c r in
          let new =
            sum_of-insert_new paid_out (host.random_uuid (s.issued + 1))
              (requested host input now s) s.withdrawals
              (h.unissued (s.issued + 1) (omega arith)) in
          let z : outflow s +ℤ pos 0 ≡ outflow s = omega int_laws in
          MovesWithin-IsBalanced {s = s} {t = t}
            (record {
              liability_same = request_new-held;
              outflow_same = rw step.withdrawals_set (cc (new, z));
              deposits_same = step.deposits_same;
              credits_same = step.credits_same;
            })
            books
    ]
  ]
    where
      t : InMemoryLedger
      t = (request_new host input now s).1

  pub request_withdrawal-IsBalanced :
      IsSound host s → IsBalanced s → IsBalanced (request_withdrawal host input now s).1
  request_withdrawal-IsBalanced h books =
      elim (Option-cases
        (known_id (lookup input.idempotency_key s.withdrawal_by_idempotency_key))) [
          | inr (r, e) ↦ unfold request_withdrawal in rw (e, request_withdrawal) books
          | inl e ↦
              unfold request_withdrawal in
              rw (e, request_withdrawal) (request_new-IsBalanced h books)
        ]
