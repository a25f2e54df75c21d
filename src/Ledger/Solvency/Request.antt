-- ===== src/Ledger/Solvency/Request.antt =====
-- `requestWithdrawal` keeps the invariant: what it takes from the available balance it locks, and
-- the new withdrawal accounts for it.
use coin_manage.Base.{
  ◌≤◌, ◌+◌, String, true, ◌≡◌, refl, ◌==◌, arith, eq_iff, eq_refl, if◌then◌else◌, inl, inr, ◌⊎◌,
  Option-cases,
}
use coin_manage.Base.Int.{ℤ, pos, ◌≤ℤ◌, ◌+ℤ◌, int_laws}
use coin_manage.Base.Action.{Error, ok, err, Result-cases}
use coin_manage.Base.Map.{
  lookup, insert, Every, Every-lookup, Every-insert, Every-weaken, lookup-insert,
}
use coin_manage.Contracts.{Host}
use coin_manage.Ledger.Types.Funds.{Withdrawal, LedgerTransaction}
use coin_manage.Ledger.State.{InMemoryLedger, is_active}
use coin_manage.Ledger.Requests.{
  WithdrawalInput, check_limits, reserve_funds, record_request, request_new, request_withdrawal,
  new_withdrawal, request_tx, known_id,
}
use coin_manage.Ledger.Frames.{reserve_funds-frame}
use coin_manage.Ledger.Solvency.{locked_of, HasAmount, IsRecorded, IsSolvent, IsSound, IsDistinct}
use coin_manage.Ledger.Solvency.Credit.{KeepsLocks, KeepsLocks-IsSound}
use coin_manage.Ledger.Solvency.Maps.{reserve-locked}

module _ (user_id : String) (amount : ℤ) (now : String) (s : InMemoryLedger) where
  reserve_funds-locked :
      (u : String)
      → locked_of u (reserve_funds user_id amount now s).1.accounts
        ≡ elim ((reserve_funds user_id amount now s).0) [
          | ok _ ↦ if user_id == u then locked_of u s.accounts +ℤ amount else locked_of u s.accounts
          | err _ ↦ locked_of u s.accounts
        ]
  unfolding reserve_funds
  reserve_funds-locked u = grind (arith, lookup-insert, eq_iff user_id u)

  reserve_funds-IsSolvent :
      Every IsSolvent s.accounts → Every IsSolvent (reserve_funds user_id amount now s).1.accounts
  unfolding reserve_funds
  reserve_funds-IsSolvent h = grind (int_laws, Every-insert, Every-lookup)

-- What a reservation leaves: the lock raised, the transaction and the withdrawal recorded.
pub record Reserves (host : Host) (s t : InMemoryLedger) (w : Withdrawal) (tx : LedgerTransaction)
    : Type 0 where
  locks_raised :
      (u : String)
      → locked_of u t.accounts
        ≡ (if w.user_id == u then locked_of u s.accounts +ℤ w.amount else locked_of u s.accounts)
  pub withdrawals_set : t.withdrawals ≡ insert (host.random_uuid (s.issued + 1)) w s.withdrawals
  pub deposits_same : t.deposits_by_tx_hash ≡ s.deposits_by_tx_hash
  pub credits_same : t.external_credits_by_reference ≡ s.external_credits_by_reference
  transactions_set : t.transactions ≡ insert w.ledger_tx_id tx s.transactions
  balances_kept : Every IsSolvent t.accounts
  issued_grows : s.issued + 2 ≤ t.issued

module _ {host : Host} {s t : InMemoryLedger} {w : Withdrawal} {tx : LedgerTransaction} where
  Reserves-IsRecorded : Reserves host s t w tx → (v : Withdrawal) → IsRecorded s v → IsRecorded t v
  Reserves-IsRecorded step v p =
      rw step.transactions_set
        (ground (arith, lookup-insert w.ledger_tx_id v.ledger_tx_id tx s.transactions))

  Reserves-IsSound :
      Reserves host s t w tx
      → IsDistinct host
      → is_active w.status ≡ true
      → pos 0 ≤ℤ w.amount
      → IsSound host s
      → IsSound host t
  Reserves-IsSound step distinct act p h = record {
    locked = λ u. rw step.withdrawals_set (
        reserve-locked s.accounts t.accounts s.withdrawals id w u
          (h.unissued (s.issued + 1) (omega arith)) act (step.locks_raised u) (h.locked u));
    amounts = rw step.withdrawals_set (Every-insert HasAmount id w s.withdrawals h.amounts p);
    recorded = rw step.withdrawals_set (
        Every-insert (IsRecorded t) id w s.withdrawals
          (Every-weaken _ _ s.withdrawals (Reserves-IsRecorded step) h.recorded)
          (rw step.transactions_set (
            ground (
              arith,
              lookup-insert w.ledger_tx_id w.ledger_tx_id tx s.transactions,
              eq_refl w.ledger_tx_id,
            ))));
    balances = step.balances_kept;
    unissued = λ n le. rw step.withdrawals_set (
        ground (
          arith,
          lookup-insert id (host.random_uuid n) w s.withdrawals,
          h.unissued n (omega (arith, step.issued_grows, le)),
          eq_iff id (host.random_uuid n),
          distinct (s.issued + 1) n,
          step.issued_grows,
          le,
        ));
  }
    where
      id : String
      id = host.random_uuid (s.issued + 1)

module _ (host : Host) (input : WithdrawalInput) (now : String) (s : InMemoryLedger) where
  check_limits-frame : (check_limits host input now s).1 ≡ s
  unfolding check_limits
  check_limits-frame = ground arith

  -- The withdrawal and the transaction that a new request records.
  abbrev pub requested : Withdrawal
  requested = new_withdrawal input (host.random_uuid (s.issued + 1)) (host.random_uuid s.issued) now

  pub request_new-Reserves :
      IsSound host s
      → (check_limits host input now s).0 ≡ ok tt
      → (reserve_funds input.user_id input.amount now s).0 ≡ ok tt
      → Reserves host s
          (request_new host input now s).1
          requested
          (request_tx input (host.random_uuid s.issued) now)
  unfolding request_new record_request
  request_new-Reserves h c r = record {
    locks_raised = λ u. ground (
      arith,
      check_limits-frame,
      c,
      r,
      reserve_funds-frame input.user_id input.amount now s,
      reserve_funds-locked input.user_id input.amount now s u,
    );
    withdrawals_set =
        ground (arith, check_limits-frame, reserve_funds-frame input.user_id input.amount now s);
    transactions_set =
        ground (arith, check_limits-frame, reserve_funds-frame input.user_id input.amount now s);
    deposits_same =
        ground (arith, check_limits-frame, reserve_funds-frame input.user_id input.amount now s);
    credits_same =
        ground (arith, check_limits-frame, reserve_funds-frame input.user_id input.amount now s);
    balances_kept = ground (
      arith,
      check_limits-frame,
      reserve_funds-frame input.user_id input.amount now s,
      reserve_funds-IsSolvent input.user_id input.amount now s h.balances,
    );
    issued_grows =
        ground (arith, check_limits-frame, reserve_funds-frame input.user_id input.amount now s);
  }

  -- A request that a limit or the balance stops moves no money.
  request_new-stopped :
      (e : Error)
      → IsSound host s
      → ((check_limits host input now s).0 ≡ err e)
        ⊎ ((check_limits host input now s).0 ≡ ok tt)
          × ((reserve_funds input.user_id input.amount now s).0 ≡ err e)
      → KeepsLocks s (request_new host input now s).1
  unfolding request_new
  request_new-stopped e h stop = record {
    locks_same = λ u. ground (
      arith,
      check_limits-frame,
      reserve_funds-frame input.user_id input.amount now s,
      reserve_funds-locked input.user_id input.amount now s u,
    );
    withdrawals_same =
        ground (arith, check_limits-frame, reserve_funds-frame input.user_id input.amount now s);
    transactions_kept = λ w r.
        ground (arith, check_limits-frame, reserve_funds-frame input.user_id input.amount now s);
    balances_kept = ground (
      arith,
      check_limits-frame,
      reserve_funds-frame input.user_id input.amount now s,
      h.balances,
      reserve_funds-IsSolvent input.user_id input.amount now s h.balances,
    );
    issued_grows =
        ground (arith, check_limits-frame, reserve_funds-frame input.user_id input.amount now s);
  }

  request_new-IsSound :
      IsDistinct host
      → pos 0 ≤ℤ input.amount
      → IsSound host s
      → IsSound host (request_new host input now s).1
  request_new-IsSound distinct p h = elim (Result-cases (check_limits host input now s).0) [
    | inr (e, c) ↦ KeepsLocks-IsSound (request_new-stopped e h (inl c)) h
    | inl (_, c) ↦ elim (Result-cases (reserve_funds input.user_id input.amount now s).0) [
      | inr (e, r) ↦ KeepsLocks-IsSound (request_new-stopped e h (inr (c, r))) h
      | inl (_, r) ↦ Reserves-IsSound (request_new-Reserves h c r) distinct refl p h
    ]
  ]

  pub request_withdrawal-IsSound :
      IsDistinct host
      → pos 0 ≤ℤ input.amount
      → IsSound host s
      → IsSound host (request_withdrawal host input now s).1
  request_withdrawal-IsSound distinct p h =
      elim (Option-cases
        (known_id (lookup input.idempotency_key s.withdrawal_by_idempotency_key))) [
          | inr (r, e) ↦ unfold request_withdrawal in rw (e, request_withdrawal) h
          | inl e ↦
              unfold request_withdrawal in
              rw (e, request_withdrawal) (request_new-IsSound distinct p h)
        ]
