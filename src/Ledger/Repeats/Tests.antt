-- ===== src/Ledger/Repeats/Tests.antt =====
-- Repeated calls on the small ledger of Ledger.Tests.
use coin_manage.Base.{
  ℕ, String, true, false, none, some, ◌≡◌, refl, truthy, arith, str_length, Bool-cases, inl, inr,
  ◌==◌, eq_iff,
}
use coin_manage.Base.Int.{pos, ◌+ℤ◌}
use coin_manage.Base.Map.{lookup, insert, values}
use coin_manage.Money.{sum_big_int}
use coin_manage.Base.Action.{ok, err, zod_error}
use coin_manage.Contracts.{
  Host, build_deposit_state_changed_contract, build_withdrawal_state_changed_contract,
}
use coin_manage.Ledger.Types.Funds.{
  ExternalCreditApplyResult, Deposit, WithdrawalRequestResult, TransferResult, TransactionType,
}
use coin_manage.Ledger.State.{InMemoryLedger}
use coin_manage.Ledger.Deposits.{
  ExternalCreditInput, new_credit, apply_external_credit, DepositInput, apply_deposit, new_deposit,
  credit_account,
}
use coin_manage.Ledger.Transfers.{TransferInput, transfer, transfer_tx}
use coin_manage.Ledger.Requests.{
  get_daily_requested_withdrawal_amount, new_withdrawal, request_withdrawal,
}
use coin_manage.Ledger.Calls.{empty_ledger}
use coin_manage.Ledger.Tests.{
  ticks, str_length-ticks, ticks-IsDistinct, host, deposit, request, today,
}
use coin_manage.Ledger.Repeats.Credit.{apply_external_credit-repeat}
use coin_manage.Ledger.Repeats.Deposit.{apply_deposit-repeat, apply_deposit-unannounced}
use coin_manage.Ledger.Repeats.Request.{request_withdrawal-repeat}
use coin_manage.Ledger.Repeats.Transfer.{transfer-repeat}

abbrev later : String
later = "2026-03-12T13:00:00.000Z"

-- The same transaction, seen again in another block.
abbrev deposit_again : DepositInput
deposit_again = record deposit { block_number = 8 }

apply_deposit-repeat_example :
    (d : Deposit) × (lookup deposit.tx_hash
        (apply_deposit host deposit today empty_ledger).1.deposits_by_tx_hash
      ≡ some d)
    × (apply_deposit host deposit_again later (apply_deposit host deposit today empty_ledger).1 ≡ (
      ok (record { deposit = d; duplicated = true }),
      (apply_deposit host deposit today empty_ledger).1,
    ))
apply_deposit-repeat_example =
    apply_deposit-repeat host deposit today empty_ledger deposit_again later refl

-- The schema wants an address of one character at least, and the deposit names none.
abbrev strict_host : Host
strict_host = record host { accepts_deposit = λ contract. truthy contract.to_address }

abbrev deposit_to_nowhere : DepositInput
deposit_to_nowhere = record deposit { to_address = none; wallet_address = none }

apply_deposit-unannounced_example :
    ((apply_deposit strict_host deposit_to_nowhere today empty_ledger).0 ≡ err zod_error)
    × ((apply_deposit strict_host deposit_to_nowhere today empty_ledger).1.accounts
        ≡ (credit_account "ann" (pos 1_000) today empty_ledger).1.accounts)
    × ((apply_deposit strict_host deposit_to_nowhere today empty_ledger).1.deposits_by_tx_hash
        ≡ insert deposit_to_nowhere.tx_hash
            (new_deposit deposit_to_nowhere "||" today)
            empty_ledger.deposits_by_tx_hash)
    × ((apply_deposit strict_host deposit_to_nowhere today empty_ledger).1.outbox_events
        ≡ empty_ledger.outbox_events)
unfolding ticks
apply_deposit-unannounced_example =
    apply_deposit-unannounced strict_host deposit_to_nowhere today empty_ledger zod_error
      (unfold lookup in refl) (unfold build_deposit_state_changed_contract in refl)

abbrev funded : InMemoryLedger
funded = (apply_deposit host deposit today empty_ledger).1

ticks-truthy : (n : ℕ) → truthy (ticks n) ≡ true
ticks-truthy n = elim (Bool-cases (ticks n == "")) [
  | inr other ↦ ground arith
  | inl same ↦
      let q : ticks n ≡ "" = ground (arith, eq_iff (ticks n) "") in
      let l : str_length (ticks n) ≡ str_length "" = cc q in
      let z : str_length "" ≡ 0 = unfold str_length in refl in
      ground (arith, l, z, str_length-ticks n)
]

abbrev requested_result : WithdrawalRequestResult
requested_result = record {
  withdrawal = new_withdrawal request "|||||" "||||" today;
  duplicated = false;
}

request_returns : (request_withdrawal host request today funded).0 ≡ ok requested_result
unfolding request_withdrawal lookup apply_deposit build_deposit_state_changed_contract ◌+ℤ◌
    get_daily_requested_withdrawal_amount sum_big_int values insert
    build_withdrawal_state_changed_contract ticks
request_returns = refl

request_withdrawal-repeat_example :
    request_withdrawal host request later (request_withdrawal host request today funded).1 ≡ (
      ok (record { withdrawal = requested_result.withdrawal; duplicated = true }),
      (request_withdrawal host request today funded).1,
    )
request_withdrawal-repeat_example =
    request_withdrawal-repeat host request today funded requested_result request later ticks-truthy
      request_returns refl

abbrev to_bob : TransferInput
to_bob = record {
  from_user_id = "ann";
  to_user_id = "bob";
  amount = pos 40;
  idempotency_key = "key-2";
}

abbrev transferred_result : TransferResult
transferred_result = record {
  from_tx = transfer_tx TransactionType.internal_transfer_out "||||" "ann" "bob" to_bob today;
  to_tx = transfer_tx TransactionType.internal_transfer_in "|||||" "bob" "ann" to_bob today;
  duplicated = false;
}

transfer_returns : (transfer host to_bob today funded).0 ≡ ok transferred_result
unfolding transfer lookup apply_deposit build_deposit_state_changed_contract insert ◌+ℤ◌ ticks
transfer_returns = refl

transfer-repeat_example :
    transfer host to_bob later (transfer host to_bob today funded).1
    ≡ (ok (record transferred_result { duplicated = true }), (transfer host to_bob today funded).1)
transfer-repeat_example =
    transfer-repeat host ticks-IsDistinct to_bob today funded transferred_result to_bob later
      transfer_returns refl

abbrev reward : ExternalCreditInput
reward = record {
  user_id = "ann";
  amount = pos 25;
  currency_code = " kori";
  journal_type = "reward";
  reference_type = "mining";
  reference_id = "reward-1";
}

abbrev credited_result : ExternalCreditApplyResult
credited_result = new_credit host reward today

credit_returns : (apply_external_credit host reward today funded).0 ≡ ok credited_result
unfolding apply_external_credit lookup apply_deposit build_deposit_state_changed_contract insert
credit_returns = refl

apply_external_credit-repeat_example :
    apply_external_credit host reward later (apply_external_credit host reward today funded).1 ≡ (
      ok (record credited_result { duplicated = true }),
      (apply_external_credit host reward today funded).1,
    )
apply_external_credit-repeat_example =
    apply_external_credit-repeat host reward today funded credited_result reward later
      credit_returns refl refl
