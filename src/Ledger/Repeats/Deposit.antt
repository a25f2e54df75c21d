-- ===== src/Ledger/Repeats/Deposit.antt =====
-- src/ledger/in-memory-ledger.ts: a deposit that is applied again, and one that stops half way.
use coin_manage.Base.{
  ◌+◌, String, true, none, some, ◌≡◌, refl, arith, or_default, or_else, Option-cases, inl, inr,
}
use coin_manage.Base.Map.{lookup, insert, lookup-insert_self}
use coin_manage.Base.Action.{Error, ok, err}
use coin_manage.Contracts.{Host, build_deposit_state_changed_contract}
use coin_manage.Ledger.Types.Funds.{Deposit}
use coin_manage.Ledger.State.{InMemoryLedger}
use coin_manage.Ledger.Deposits.{
  DepositInput, apply_deposit, apply_new_deposit, new_deposit, credit_account,
}
use coin_manage.Ledger.Frames.{credit_account-frame}

module _ (host : Host) (input : DepositInput) (now : String) (s : InMemoryLedger) where
  stored_deposit :
      (apply_new_deposit host input now s).1.deposits_by_tx_hash
      ≡ insert input.tx_hash
          (new_deposit input (host.random_uuid (s.issued + 1)) now)
          s.deposits_by_tx_hash
  unfolding apply_new_deposit
  stored_deposit = ground (arith, credit_account-frame input.user_id input.amount now s)

  apply_deposit-known :
      (d : Deposit) × (lookup input.tx_hash (apply_deposit host input now s).1.deposits_by_tx_hash
        ≡ some d)
  apply_deposit-known = elim (Option-cases (lookup input.tx_hash s.deposits_by_tx_hash)) [
    | inr (d, e) ↦ (d, unfold apply_deposit in rw (e, apply_deposit) e)
    | inl e ↦ (
      new_deposit input (host.random_uuid (s.issued + 1)) now,
      unfold apply_deposit in
          rw (e, apply_deposit, stored_deposit)
            (lookup-insert_self input.tx_hash
              (new_deposit input (host.random_uuid (s.issued + 1)) now) s.deposits_by_tx_hash),
    )
  ]

  -- Once `applyDeposit` was called, whether it returned or threw, a call with the same transaction
  -- hash changes nothing, and answers with the stored deposit as a duplicate.
  pub apply_deposit-repeat :
      (retry : DepositInput) (later : String)
      → retry.tx_hash ≡ input.tx_hash
      → (d : Deposit) × (lookup input.tx_hash (apply_deposit host input now s).1.deposits_by_tx_hash
          ≡ some d)
        × (apply_deposit host retry later (apply_deposit host input now s).1
            ≡ (ok (record { deposit = d; duplicated = true }), (apply_deposit host input now s).1))
  apply_deposit-repeat retry later same =
      let (d, e) = apply_deposit-known in (d, e, again (apply_deposit host input now s).1 d e)
    where
      again :
          (t : InMemoryLedger) (d : Deposit)
          → lookup input.tx_hash t.deposits_by_tx_hash ≡ some d
          → apply_deposit host retry later t ≡ (ok (record { deposit = d; duplicated = true }), t)
      again t d e =
          let known : lookup retry.tx_hash t.deposits_by_tx_hash ≡ some d = rw same e in
          unfold apply_deposit in rw (known, apply_deposit) refl

  -- A deposit of a new transaction whose contract the schema refuses: the call throws, yet the amount
  -- is credited and the deposit stored, and no event is put in the outbox.
  pub apply_deposit-unannounced :
      (x : Error)
      → lookup input.tx_hash s.deposits_by_tx_hash ≡ none
      → build_deposit_state_changed_contract host
          (new_deposit input (host.random_uuid (s.issued + 1)) now)
          (or_default (or_else input.wallet_address input.to_address) "")
          (or_default input.to_address "")
        ≡ err x
      → ((apply_deposit host input now s).0 ≡ err x)
        × ((apply_deposit host input now s).1.accounts
            ≡ (credit_account input.user_id input.amount now s).1.accounts)
        × ((apply_deposit host input now s).1.deposits_by_tx_hash
            ≡ insert input.tx_hash
                (new_deposit input (host.random_uuid (s.issued + 1)) now)
                s.deposits_by_tx_hash)
        × ((apply_deposit host input now s).1.outbox_events ≡ s.outbox_events)
  unfolding apply_deposit apply_new_deposit
  apply_deposit-unannounced x new refused =
      ground (arith, credit_account-frame input.user_id input.amount now s)
