-- ===== src/Ledger/Solvency/Settle.antt =====
-- `confirmWithdrawal` and `failWithdrawal` of src/ledger/in-memory-ledger.ts keep the invariant: the
-- lock covers the withdrawal, so that neither finds the state corrupted.
use native.Mathlib.Nat.{le_trans}
use coin_manage.Base.{
  ◌≤◌, String, true, false, none, some, ◌≡◌, ◌==◌, arith, eq_iff, if◌then◌else◌, refl, Option, inl,
  inr, Bool-cases, Option-cases,
}
use coin_manage.Base.Int.{ℤ, pos, ◌≤ℤ◌, ◌-ℤ◌, int_laws}
use coin_manage.Base.Action.{Result, ok, err}
use coin_manage.Base.Map.{
  lookup, insert, Every, Every-lookup, Every-insert, Every-weaken, lookup-insert,
}
use coin_manage.Contracts.{Host, build_withdrawal_state_changed_contract}
use coin_manage.Ledger.Types.Records.{NetworkFee}
use coin_manage.Ledger.Types.Funds.{Account, Withdrawal, LedgerTransaction}
use coin_manage.Ledger.State.{InMemoryLedger, is_active}
use coin_manage.Ledger.Withdrawals.{
  confirm_withdrawal, fail_withdrawal, settle_account, settle_transaction, is_broadcasted,
  completed_at, failed_for, released, refunded, tx_confirmed, tx_failed,
}
use coin_manage.Ledger.Frames.{settle_account-frame}
use coin_manage.Ledger.Solvency.{locked_of, HasAmount, IsRecorded, IsSolvent, IsSound}
use coin_manage.Ledger.Solvency.Maps.{release-locked, unissued-insert, covered_by_lock}

module _ (user_id : String) (amount : ℤ) (now : String) (change : Account → Account)
    (s : InMemoryLedger) where
  settle_account-locked :
      (u : String)
      → ((a : Account) → (change a).locked_balance ≡ a.locked_balance -ℤ amount)
      → (settle_account user_id amount now change s).0 ≡ ok tt
      → locked_of u (settle_account user_id amount now change s).1.accounts
        ≡ (if user_id == u then locked_of u s.accounts -ℤ amount else locked_of u s.accounts)
  unfolding settle_account
  settle_account-locked u ch h = grind (arith, ch, lookup-insert, eq_iff user_id u)

  settle_account-covered :
      pos 0 ≤ℤ amount
      → amount ≤ℤ locked_of user_id s.accounts
      → (settle_account user_id amount now change s).0 ≡ ok tt
  unfolding settle_account
  settle_account-covered p h = ground arith

  settle_account-IsSolvent :
      ((a : Account) → IsSolvent a → IsSolvent (change a))
      → Every IsSolvent s.accounts
      → Every IsSolvent (settle_account user_id amount now change s).1.accounts
  unfolding settle_account
  settle_account-IsSolvent keep h = grind (arith, Every-insert, Every-lookup, keep)

-- What a settlement leaves: the account changed, the transaction closed, the withdrawal over.
pub record Settles (s t : InMemoryLedger) (id : String) (w w' : Withdrawal) (now : String)
    (change : Account → Account) (tx : LedgerTransaction) : Type 0 where
  pub accounts_settled : t.accounts ≡ (settle_account w.user_id w.amount now change s).1.accounts
  pub account_found : (settle_account w.user_id w.amount now change s).0 ≡ ok tt
  pub withdrawals_set : t.withdrawals ≡ insert id w' s.withdrawals
  pub transactions_set : t.transactions ≡ insert w.ledger_tx_id tx s.transactions
  pub deposits_same : t.deposits_by_tx_hash ≡ s.deposits_by_tx_hash
  pub credits_same : t.external_credits_by_reference ≡ s.external_credits_by_reference
  pub issued_grows : s.issued ≤ t.issued

module _ {s t : InMemoryLedger} {id : String} {w w' : Withdrawal} {now : String}
    {change : Account → Account} {tx : LedgerTransaction} where
  Settles-IsRecorded :
      Settles s t id w w' now change tx → (v : Withdrawal) → IsRecorded s v → IsRecorded t v
  Settles-IsRecorded step v p =
      rw step.transactions_set
        (ground (arith, lookup-insert w.ledger_tx_id v.ledger_tx_id tx s.transactions))

  Settles-IsSound :
      (host : Host)
      → Settles s t id w w' now change tx
      → lookup id s.withdrawals ≡ some w
      → w'.user_id ≡ w.user_id
      → w'.amount ≡ w.amount
      → w'.ledger_tx_id ≡ w.ledger_tx_id
      → is_active w.status ≡ true
      → is_active w'.status ≡ false
      → ((a : Account) → (change a).locked_balance ≡ a.locked_balance -ℤ w.amount)
      → ((a : Account) → IsSolvent a → IsSolvent (change a))
      → IsSound host s
      → IsSound host t
  Settles-IsSound host step e user amount ledger_tx act over locks keeps h = record {
    locked = λ u. rw step.withdrawals_set (
        release-locked s.accounts t.accounts s.withdrawals id w w' u e user act over
          (rw step.accounts_settled
            (settle_account-locked w.user_id w.amount now change s u locks step.account_found))
          (h.locked u));
    amounts = rw step.withdrawals_set (
        Every-insert _ id w' s.withdrawals h.amounts
          (rw amount (Every-lookup _ id w s.withdrawals h.amounts e)));
    recorded = rw step.withdrawals_set (
        Every-weaken _ _ (insert id w' s.withdrawals) (Settles-IsRecorded step) (
          Every-insert (IsRecorded s) id w' s.withdrawals h.recorded
            (rw ledger_tx (Every-lookup _ id w s.withdrawals h.recorded e))));
    balances =
        rw step.accounts_settled
          (settle_account-IsSolvent w.user_id w.amount now change s keeps h.balances);
    unissued = λ n le.
        rw step.withdrawals_set
          (unissued-insert host s id w w' n (h.unissued n (le_trans step.issued_grows le)) e);
  }

module _ (host : Host) (id now : String) (s : InMemoryLedger) (w : Withdrawal) (h : IsSound host s)
    (e : lookup id s.withdrawals ≡ some w) where
  -- Under the invariant the account of a withdrawal under way can be settled.
  pub settle_account-succeeds :
      (change : Account → Account)
      → is_active w.status ≡ true
      → (settle_account w.user_id w.amount now change s).0 ≡ ok tt
  settle_account-succeeds change act =
      settle_account-covered w.user_id w.amount now change s
        (Every-lookup _ id w s.withdrawals h.amounts e) (covered_by_lock host s id w h e act)

  pub confirm_withdrawal-Settles :
      (fee : Option NetworkFee) (tx : LedgerTransaction)
      → lookup w.ledger_tx_id s.transactions ≡ some tx
      → is_broadcasted w.status ≡ true
      → Settles s
          (confirm_withdrawal host id fee now s).1
          id
          w
          (completed_at now w)
          now
          (released w.amount now)
          (tx_confirmed w.tx_hash tx)
  unfolding confirm_withdrawal settle_transaction
  confirm_withdrawal-Settles fee tx found b = ground (
    arith,
    settle_account-frame w.user_id w.amount now s (released w.amount now),
    settle_account-succeeds (released w.amount now),
  )

  pub fail_withdrawal-Settles :
      (reason : String) (tx : LedgerTransaction)
      → lookup w.ledger_tx_id s.transactions ≡ some tx
      → is_active w.status ≡ true
      → Settles s
          (fail_withdrawal host id reason now s).1
          id
          w
          (failed_for reason now w)
          now
          (refunded w.amount now)
          (tx_failed tx)
  unfolding fail_withdrawal settle_transaction
  fail_withdrawal-Settles reason tx found b = ground (
    arith,
    settle_account-frame w.user_id w.amount now s (refunded w.amount now),
    settle_account-succeeds (refunded w.amount now),
  )

  -- Under the invariant the ledger transaction of a withdrawal is there.
  pub ledger_tx_there : (tx : LedgerTransaction) × (lookup w.ledger_tx_id s.transactions ≡ some tx)
  ledger_tx_there = elim (Option-cases (lookup w.ledger_tx_id s.transactions)) [
    | inl missing ↦ absurd (ground (arith, Every-lookup _ id w s.withdrawals h.recorded e))
    | inr found ↦ found
  ]

pub broadcasted-active :
    (w : Withdrawal) → is_broadcasted w.status ≡ true → is_active w.status ≡ true
broadcasted-active w b = ground arith

module _ (host : Host) (id now : String) (s : InMemoryLedger) where
  pub confirm_withdrawal-missing :
      (fee : Option NetworkFee)
      → lookup id s.withdrawals ≡ none
      → (confirm_withdrawal host id fee now s).1 ≡ s
  unfolding confirm_withdrawal
  confirm_withdrawal-missing fee e = ground arith

  pub confirm_withdrawal-refused :
      (fee : Option NetworkFee) (w : Withdrawal)
      → lookup id s.withdrawals ≡ some w
      → is_broadcasted w.status ≡ false
      → (confirm_withdrawal host id fee now s).1 ≡ s
  unfolding confirm_withdrawal
  confirm_withdrawal-refused fee w e b = ground arith

  pub fail_withdrawal-missing :
      (reason : String)
      → lookup id s.withdrawals ≡ none
      → (fail_withdrawal host id reason now s).1 ≡ s
  unfolding fail_withdrawal
  fail_withdrawal-missing reason e = ground arith

  pub fail_withdrawal-refused :
      (reason : String) (w : Withdrawal)
      → lookup id s.withdrawals ≡ some w
      → is_active w.status ≡ false
      → (fail_withdrawal host id reason now s).1 ≡ s
  unfolding fail_withdrawal
  fail_withdrawal-refused reason w e b = ground arith

  pub confirm_withdrawal-IsSound :
      (fee : Option NetworkFee)
      → IsSound host s
      → IsSound host (confirm_withdrawal host id fee now s).1
  confirm_withdrawal-IsSound fee h = elim (Option-cases (lookup id s.withdrawals)) [
    | inl e ↦ rw (confirm_withdrawal-missing fee e) h
    | inr (w, e) ↦ elim (Bool-cases (is_broadcasted w.status)) [
      | inr b ↦ rw (confirm_withdrawal-refused fee w e b) h
      | inl b ↦
          let (tx, found) = ledger_tx_there host id now s w h e in
          Settles-IsSound host (confirm_withdrawal-Settles host id now s w h e fee tx found b) e
            refl refl refl (broadcasted-active w b) refl (λ a. refl) (λ a p. p) h
    ]
  ]

  pub fail_withdrawal-IsSound :
      (reason : String) → IsSound host s → IsSound host (fail_withdrawal host id reason now s).1
  fail_withdrawal-IsSound reason h = elim (Option-cases (lookup id s.withdrawals)) [
    | inl e ↦ rw (fail_withdrawal-missing reason e) h
    | inr (w, e) ↦ elim (Bool-cases (is_active w.status)) [
      | inr b ↦ rw (fail_withdrawal-refused reason w e b) h
      | inl b ↦
          let (tx, found) = ledger_tx_there host id now s w h e in
          let amount = Every-lookup HasAmount id w s.withdrawals h.amounts e in
          Settles-IsSound host (fail_withdrawal-Settles host id now s w h e reason tx found b) e
            refl refl refl b refl (λ a. refl) (λ a p. omega (int_laws, amount, p)) h
    ]
  ]

-- The answer of a method that has enqueued the event of a change of `w`: the withdrawal, or what the
-- schema throws on its contract.
abbrev pub announced : Host → Withdrawal → String → Result Withdrawal
announced host w now = elim (build_withdrawal_state_changed_contract host w now) [
  | ok c ↦ ok w
  | err x ↦ err x
]

module _ (host : Host) (id now : String) (s : InMemoryLedger) (w : Withdrawal) (h : IsSound host s)
    (e : lookup id s.withdrawals ≡ some w) where
  -- In a sound state the confirmation of a broadcasted withdrawal never finds the state corrupted:
  -- it returns the withdrawal completed, or throws what the schema throws on its contract. Either
  -- way the withdrawal is completed in the map.
  pub confirm_withdrawal-answer :
      (fee : Option NetworkFee)
      → is_broadcasted w.status ≡ true
      → let (r, t) = confirm_withdrawal host id fee now s in
        (r ≡ announced host (completed_at now w) now)
        × (t.withdrawals ≡ insert id (completed_at now w) s.withdrawals)
  unfolding confirm_withdrawal settle_transaction
  confirm_withdrawal-answer fee b = ground (
    arith,
    settle_account-frame w.user_id w.amount now s (released w.amount now),
    settle_account-succeeds host id now s w h e (released w.amount now),
    ledger_tx_there host id now s w h e,
  )

  -- In a sound state every withdrawal under way can be failed: the method returns the withdrawal
  -- failed, or throws what the schema throws on its contract. Either way the withdrawal is failed in
  -- the map.
  pub fail_withdrawal-answer :
      (reason : String)
      → is_active w.status ≡ true
      → let (r, t) = fail_withdrawal host id reason now s in
        (r ≡ announced host (failed_for reason now w) now)
        × (t.withdrawals ≡ insert id (failed_for reason now w) s.withdrawals)
  unfolding fail_withdrawal settle_transaction
  fail_withdrawal-answer reason act = ground (
    arith,
    settle_account-frame w.user_id w.amount now s (refunded w.amount now),
    settle_account-succeeds host id now s w h e (refunded w.amount now),
    ledger_tx_there host id now s w h e,
  )
