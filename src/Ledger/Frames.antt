-- ===== src/Ledger/Frames.antt =====
-- What the helpers of src/ledger/in-memory-ledger.ts that move money leave alone: they touch the
-- accounts and nothing else.
use coin_manage.Base.{String, ◌≡◌, arith}
use coin_manage.Base.Int.{ℤ}
use coin_manage.Base.Action.{ok}
use coin_manage.Contracts.{Host}
use coin_manage.Ledger.Types.Funds.{Account}
use coin_manage.Ledger.State.{InMemoryLedger}
use coin_manage.Ledger.Deposits.{credit_account}
use coin_manage.Ledger.Transfers.{TransferInput, move_funds}
use coin_manage.Ledger.Requests.{WithdrawalInput, check_limits, reserve_funds}
use coin_manage.Ledger.Withdrawals.{settle_account}

module _ (user_id : String) (amount : ℤ) (now : String) (s : InMemoryLedger) where
  pub credit_account-frame :
      credit_account user_id amount now s
      ≡ (ok tt, record s { accounts = (credit_account user_id amount now s).1.accounts })
  unfolding credit_account
  credit_account-frame = ground arith

  pub reserve_funds-frame :
      (reserve_funds user_id amount now s).1
      ≡ record s { accounts = (reserve_funds user_id amount now s).1.accounts }
  unfolding reserve_funds
  reserve_funds-frame = ground arith

  pub settle_account-frame :
      (change : Account → Account)
      → (settle_account user_id amount now change s).1
        ≡ record s { accounts = (settle_account user_id amount now change s).1.accounts }
  unfolding settle_account
  settle_account-frame change = ground arith

pub move_funds-frame :
    (input : TransferInput) (now : String) (s : InMemoryLedger)
    → (move_funds input now s).1 ≡ record s { accounts = (move_funds input now s).1.accounts }
unfolding move_funds
move_funds-frame input now s = ground arith

pub check_limits-frame :
    (host : Host) (input : WithdrawalInput) (now : String) (s : InMemoryLedger)
    → (check_limits host input now s).1 ≡ s
unfolding check_limits
check_limits-frame host input now s = ground arith
