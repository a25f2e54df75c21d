-- ===== src/Ledger/Deposits.antt =====
-- src/ledger/in-memory-ledger.ts: deposits and external credits.
use coin_manage.Base.{
  ℕ, String, Bool, true, false, Option, none, some, [], ◌∷◌, ◌==◌, or_default, or_else, joined,
  if◌then◌else◌,
}
use coin_manage.Base.Int.{ℤ, pos, ◌+ℤ◌, leb_ℤ}
use coin_manage.Base.Map.{Map, lookup, insert}
use coin_manage.Base.Action.{domain_error, ok, pure, throw, throw_if, gets, modify, ◌>>=◌, ◌>>◌}
use coin_manage.Money.{trim}
use coin_manage.Contracts.{Host, build_deposit_state_changed_contract}
use coin_manage.Ledger.Types.Funds.{
  TransactionType, TransactionStatus, DepositStatus, Account, Deposit, ExternalCreditApplyResult,
  DepositApplyResult,
}
use coin_manage.Ledger.Types.Events.{deposit_changed}
use coin_manage.Ledger.State.{
  Method, lift, get_mutable_account, put_account, put_transaction, random_uuid,
  enqueue_outbox_event,
}

pub record DepositInput : Type 0 where
  pub user_id : String
  pub amount : ℤ
  pub tx_hash : String
  pub to_address : Option String
  pub wallet_address : Option String
  pub block_number : ℕ

-- `account.balance += amount; account.updatedAt = nowIso;`
abbrev pub credited : ℤ → String → Account → Account
credited amount now_iso account = record account {
  balance = account.balance +ℤ amount;
  updated_at = now_iso;
}

unfoldable pub credit_account : String → ℤ → String → Method (Unit {0})
unfolding get_mutable_account
credit_account user_id amount now_iso = do
  account ← get_mutable_account user_id now_iso
  put_account user_id (credited amount now_iso account)

abbrev pub new_deposit : DepositInput → String → String → Deposit
new_deposit input deposit_id now_iso = record {
  deposit_id = deposit_id;
  user_id = input.user_id;
  tx_hash = input.tx_hash;
  amount = input.amount;
  status = DepositStatus.credited;
  block_number = input.block_number;
  created_at = now_iso;
}

module _ (host : Host) where
  -- The part of `applyDeposit` for a transaction that is not known yet.
  unfoldable pub apply_new_deposit : DepositInput → String → Method DepositApplyResult
  unfolding credit_account random_uuid enqueue_outbox_event
  apply_new_deposit input now_iso = do
    credit_account input.user_id input.amount now_iso
    tx_id ← random_uuid host
    put_transaction tx_id (record {
      tx_id = tx_id;
      user_id = input.user_id;
      type = TransactionType.deposit;
      amount = input.amount;
      status = TransactionStatus.confirmed;
      block_tx = some input.tx_hash;
      related_user_id = none;
      idempotency_key = none;
      created_at = now_iso;
    })
    deposit_id ← random_uuid host
    let deposit = new_deposit input deposit_id now_iso
    modify
        (λ s. record s { deposits_by_tx_hash = insert input.tx_hash deposit s.deposits_by_tx_hash })
    contract ← lift (
        build_deposit_state_changed_contract host deposit
          (or_default (or_else input.wallet_address input.to_address) "")
          (or_default input.to_address ""))
    enqueue_outbox_event host "deposit.state.changed" "deposit" deposit_id
        (deposit_changed contract) now_iso
    pure (record { deposit = deposit; duplicated = false })

  unfoldable pub apply_deposit : DepositInput → String → Method DepositApplyResult
  unfolding apply_new_deposit
  apply_deposit input now_iso s = elim (lookup input.tx_hash s.deposits_by_tx_hash) [
    | some existing ↦ (ok (record { deposit = existing; duplicated = true }), s)
    | none ↦ apply_new_deposit input now_iso s
  ]

-- `Array.from(depositsByTxHash.values()).find((item) => item.depositId === depositId)`, with the
-- key under which it stands.
unfoldable pub find_deposit : String → Map Deposit → Option (String × Deposit)
find_deposit deposit_id [] = none
find_deposit deposit_id ((key, deposit) ∷ m) =
    if deposit.deposit_id == deposit_id then some (key, deposit) else find_deposit deposit_id m

abbrev pub is_completed : DepositStatus → Bool
is_completed DepositStatus.completed = true
is_completed _ = false

unfoldable pub complete_deposit : String → Method Deposit
unfolding find_deposit
complete_deposit deposit_id s = elim (find_deposit deposit_id s.deposits_by_tx_hash) [
  | none ↦ throw (domain_error 404 "NOT_FOUND" "deposit not found") s
  | some (key, deposit) ↦ if is_completed deposit.status then (ok deposit, s) else (
    ok (record deposit { status = DepositStatus.completed }),
    record s {
      deposits_by_tx_hash =
          insert key (record deposit { status = DepositStatus.completed }) s.deposits_by_tx_hash;
    },
  )
]

pub record ExternalCreditInput : Type 0 where
  pub user_id : String
  pub amount : ℤ
  pub currency_code : String
  pub journal_type : String
  pub reference_type : String
  pub reference_id : String

module _ (host : Host) where
  abbrev pub new_credit : ExternalCreditInput → String → ExternalCreditApplyResult
  new_credit input now_iso = record {
    credit_id = input.reference_id;
    user_id = input.user_id;
    amount = input.amount;
    currency_code = host.to_upper_case (trim input.currency_code);
    journal_type = input.journal_type;
    reference_type = input.reference_type;
    reference_id = input.reference_id;
    duplicated = false;
    created_at = now_iso;
  }

  unfoldable pub apply_external_credit :
      ExternalCreditInput → String → Method ExternalCreditApplyResult
  unfolding credit_account
  apply_external_credit input now_iso = do
    throw_if (leb_ℤ input.amount (pos 0))
        (domain_error 400 "VALIDATION_ERROR" "external credit amount must be positive")
    let reference_key = joined input.reference_type input.reference_id
    found ← gets (λ s. lookup reference_key s.external_credits_by_reference)
    elim found [
      | some existing ↦ pure (record existing { duplicated = true })
      | none ↦ do
        credit_account input.user_id input.amount now_iso
        let credit = new_credit input now_iso
        modify (λ s. record s {
          external_credits_by_reference =
              insert reference_key credit s.external_credits_by_reference;
        })
        pure credit
    ]
