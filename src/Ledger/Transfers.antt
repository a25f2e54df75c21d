-- ===== src/Ledger/Transfers.antt =====
-- src/ledger/in-memory-ledger.ts: `transfer` between two users.
use coin_manage.Base.{String, true, false, none, some, ◌==◌}
use coin_manage.Base.Int.{ℤ, ◌-ℤ◌, ltb_ℤ}
use coin_manage.Base.Map.{lookup, insert}
use coin_manage.Base.Action.{
  Error, domain_error, Result, ok, err, pure, throw_if, modify, ◌>>=◌, ◌>>◌,
}
use coin_manage.Contracts.{Host}
use coin_manage.Ledger.Types.Funds.{
  TransactionType, TransactionStatus, Account, LedgerTransaction, TransferResult,
}
use coin_manage.Ledger.State.{
  InMemoryLedger, TransferIdempotencyRecord, Method, get_mutable_account, put_account,
  put_transaction, random_uuid,
}
use coin_manage.Ledger.Deposits.{credited}

pub record TransferInput : Type 0 where
  pub from_user_id : String
  pub to_user_id : String
  pub amount : ℤ
  pub idempotency_key : String

-- `account.balance -= amount; account.updatedAt = nowIso;`
abbrev pub debited : ℤ → String → Account → Account
debited amount now_iso account = record account {
  balance = account.balance -ℤ amount;
  updated_at = now_iso;
}

-- One side of a transfer: the record of `user_id`, whose money came from or went to `related`.
abbrev pub transfer_tx :
    TransactionType → String → String → String → TransferInput → String → LedgerTransaction
transfer_tx type tx_id user_id related input now_iso = record {
  tx_id = tx_id;
  user_id = user_id;
  type = type;
  amount = input.amount;
  status = TransactionStatus.confirmed;
  block_tx = none;
  related_user_id = some related;
  idempotency_key = some input.idempotency_key;
  created_at = now_iso;
}

-- The two accounts, the second possibly created, and the money moved between them. An account that
-- is created stays, also where the balance does not suffice.
unfoldable pub move_funds : TransferInput → String → Method (Unit {0})
unfolding get_mutable_account
move_funds input now_iso = do
  from ← get_mutable_account input.from_user_id now_iso
  to ← get_mutable_account input.to_user_id now_iso
  throw_if (ltb_ℤ from.balance input.amount)
      (domain_error 400 "INSUFFICIENT_BALANCE" "insufficient balance for transfer")
  put_account input.from_user_id (debited input.amount now_iso from)
  put_account input.to_user_id (credited input.amount now_iso to)

abbrev pub corrupted : String → Error
corrupted message = domain_error 500 "STATE_CORRUPTED" message

-- The answer to a key that was used before.
unfoldable pub replay_transfer : TransferIdempotencyRecord → InMemoryLedger → Result TransferResult
replay_transfer existing s = elim (lookup existing.from_tx_id s.transactions) [
  | none ↦ err (corrupted "transfer idempotency state is invalid")
  | some from_tx ↦ elim (lookup existing.to_tx_id s.transactions) [
    | none ↦ err (corrupted "transfer idempotency state is invalid")
    | some to_tx ↦ ok (record { from_tx = from_tx; to_tx = to_tx; duplicated = true })
  ]
]

module _ (host : Host) where
  unfoldable pub record_transfer : TransferInput → String → Method TransferResult
  unfolding random_uuid
  record_transfer input now_iso = do
    from_tx_id ← random_uuid host
    to_tx_id ← random_uuid host
    let from_tx =
        transfer_tx TransactionType.internal_transfer_out from_tx_id input.from_user_id
          input.to_user_id input now_iso
    let to_tx =
        transfer_tx TransactionType.internal_transfer_in to_tx_id input.to_user_id
          input.from_user_id input now_iso
    put_transaction from_tx_id from_tx
    put_transaction to_tx_id to_tx
    modify (λ s. record s {
      transfer_by_idempotency_key =
          insert input.idempotency_key (record { from_tx_id = from_tx_id; to_tx_id = to_tx_id })
            s.transfer_by_idempotency_key;
    })
    pure (record { from_tx = from_tx; to_tx = to_tx; duplicated = false })

  unfoldable pub transfer_new : TransferInput → String → Method TransferResult
  unfolding move_funds record_transfer
  transfer_new input now_iso = do
    throw_if (input.from_user_id == input.to_user_id)
        (domain_error 400 "VALIDATION_ERROR" "fromUserId and toUserId must be different")
    move_funds input now_iso
    record_transfer input now_iso

  unfoldable pub transfer : TransferInput → String → Method TransferResult
  unfolding transfer_new replay_transfer
  transfer input now_iso s = elim (lookup input.idempotency_key s.transfer_by_idempotency_key) [
    | some existing ↦ (replay_transfer existing s, s)
    | none ↦ transfer_new input now_iso s
  ]
