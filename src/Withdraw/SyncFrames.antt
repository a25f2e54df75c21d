-- ===== src/Withdraw/SyncFrames.antt =====
-- What telling others of a withdrawal, in src/application/services/withdraw-service.ts, leaves alone.
use coin_manage.Base.{ℕ, refl, none, String, Bool, true, List, ◌≡◌, arith, inl, inr}
use coin_manage.Base.Action.{Result-cases}
use coin_manage.Contracts.{build_withdrawal_state_changed_contract}
use coin_manage.Ledger.Types.Events.{WithdrawalStateChangedContract}
use coin_manage.Ledger.Types.Funds.{ActorType, Withdrawal}
use coin_manage.Ledger.State.{InMemoryLedger}
use coin_manage.Ledger.Audit.{append_audit_log}
use coin_manage.Workers.Consumer.{Clock}
use coin_manage.Workers.ConsumerFrames.{run-withdrawals}
use coin_manage.Withdraw.Sync.{
  Publisher, sync_handler, publish_async, publish_over, sync_input, Ports, WithdrawState, audit,
  consume_withdrawal_state_changed, publish_withdrawal_state_change,
}

-- A step that sends nothing and leaves the withdrawals.
pub record LeavesWithdrawals (s t : WithdrawState) : Type 0 where
  pub withdrawals_same : t.ledger.withdrawals ≡ s.ledger.withdrawals
  pub sent_same : t.sent ≡ s.sent

module _ (ports : Ports) (now : String) where
  pub audit-frame :
      (id action : String) (type : ActorType) (actor : String) (m : List (String × String))
      (s : WithdrawState)
      → LeavesWithdrawals s (audit ports now id action type actor m s).1
  unfolding audit append_audit_log
  audit-frame id action type actor m s = ground arith

  consume-frame :
      (c : WithdrawalStateChangedContract) (again : Bool) (s : WithdrawState)
      → LeavesWithdrawals s (consume_withdrawal_state_changed ports now c again s).1
  unfolding consume_withdrawal_state_changed audit append_audit_log
  consume-frame c again s = ground arith

  handler-frame :
      (clock : Clock) (c : WithdrawalStateChangedContract) (s : WithdrawState) (n : ℕ)
      (l : InMemoryLedger)
      → (sync_handler ports clock c s n l).1.withdrawals ≡ l.withdrawals
  unfolding sync_handler consume_withdrawal_state_changed audit append_audit_log
  handler-frame clock c s n l = ground arith

  publish_async-frame :
      (clock : Clock) (key : String) (c : WithdrawalStateChangedContract) (s : WithdrawState)
      → LeavesWithdrawals s (publish_async ports clock key c s).1
  unfolding publish_async
  publish_async-frame clock key c s = record {
    withdrawals_same =
        run-withdrawals ports.host clock (sync_input key c) (sync_handler ports clock c s) none
          (handler-frame clock c s) s.ledger;
    sent_same = refl;
  }

  publish_over-frame :
      (publisher : Publisher) (c : WithdrawalStateChangedContract) (s : WithdrawState)
      → LeavesWithdrawals s (publish_over ports now publisher c s).1
  unfolding publish_over
  publish_over-frame (Publisher.in_memory clock key) c s =
      publish_async-frame (clock now) (key c) c s
  publish_over-frame (Publisher.without_async publish) c s = ground (arith, consume-frame c true s)

  pub publish-frame :
      (w : Withdrawal) (s : WithdrawState)
      → LeavesWithdrawals s (publish_withdrawal_state_change ports now w s).1
  unfolding publish_withdrawal_state_change
  publish-frame w s =
      elim (Result-cases (build_withdrawal_state_changed_contract ports.host w now)) [
        | inr (x, e) ↦ ground (arith, e)
        | inl (c, e) ↦ rw e (publish_over-frame ports.publisher c s)
      ]
