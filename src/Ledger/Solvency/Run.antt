-- ===== src/Ledger/Solvency/Run.antt =====
-- Every sequence of calls keeps the invariant.
use coin_manage.Base.{String, List, [], ◌∷◌, arith, All, refl, ◌≡◌, none, some, inl, inr}
use coin_manage.Base.Int.{pos, ◌≤ℤ◌}
use coin_manage.Base.Action.{Error, Result, ok, err, Result-cases}
use coin_manage.Base.Map.{lookup, sum_of, Every}
use coin_manage.Contracts.{Host}
use coin_manage.Ledger.State.{InMemoryLedger}
use coin_manage.Ledger.Accounts.{get_account, get_account_by_wallet_address, resolve_user_id}
use coin_manage.Ledger.Jobs.{
  enqueue_job, claim_pending_jobs, mark_job_done, mark_job_failed, retry_job,
}
use coin_manage.Ledger.Audit.{append_audit_log}
use coin_manage.Ledger.Sweeps.{
  create_sweep_record, mark_sweep_queued, record_sweep_attempt, mark_sweep_broadcasted,
  confirm_sweep, fail_sweep,
}
use coin_manage.Ledger.Outbox.{
  claim_pending_outbox_events, mark_outbox_event_published, reschedule_outbox_event,
  dead_letter_outbox_event, replay_outbox_events, recover_stale_processing_outbox_events,
  acknowledge_dead_letter_outbox_events,
}
use coin_manage.Ledger.Consumers.{
  append_event_consumer_attempt, append_event_consumer_dead_letter,
  upsert_event_consumer_checkpoint,
}
use coin_manage.Ledger.Calls.{Call, perform, run, empty_ledger}
use coin_manage.Ledger.Solvency.{IsSound, IsDistinct}
use coin_manage.Ledger.Solvency.Maps.{SameFunds-IsSound}
use coin_manage.Ledger.Solvency.Settle.{confirm_withdrawal-IsSound, fail_withdrawal-IsSound}
use coin_manage.Ledger.Solvency.Credit.{
  apply_deposit-IsSound, complete_deposit-SameFunds, apply_external_credit-IsSound,
  transfer-IsSound, get_account-IsSound, bind_wallet_address-IsSound,
}
use coin_manage.Ledger.Solvency.Request.{request_withdrawal-IsSound}
use coin_manage.Ledger.Solvency.Progress.{
  confirm_withdrawal_external_auth-IsSound, broadcast_withdrawal-IsSound,
  approve_withdrawal-IsSound, mark_withdrawal_review_required-IsSound,
}

-- The amounts that the callers pass are not negative, as `parseKoriAmount` sees to.
abbrev pub HasValidAmount : Call → Type 0
HasValidAmount (Call.apply_deposit input) = pos 0 ≤ℤ input.amount
HasValidAmount (Call.transfer input) = pos 0 ≤ℤ input.amount
HasValidAmount (Call.request_withdrawal input) = pos 0 ≤ℤ input.amount
HasValidAmount _ = Unit

module _ (host : Host) (distinct : IsDistinct host) (now : String) where
  address_of : String → InMemoryLedger → Result String
  address_of a s = resolve_user_id (record { user_id = none; wallet_address = some a }) s

  by_address :
      (a : String) (s : InMemoryLedger)
      → IsSound host s
      → IsSound host (get_account_by_wallet_address a now s).1
  by_address a s h = elim (Result-cases (address_of a s)) [
    | inl (u, e) ↦
        let q : (get_account_by_wallet_address a now s).1 ≡ (get_account u now s).1 = found u e in
        rw q (get_account-IsSound host now s u h)
    | inr (x, e) ↦ let q : (get_account_by_wallet_address a now s).1 ≡ s = missing x e in rw q h
  ]
    where
      found :
          (u : String)
          → address_of a s ≡ ok u
          → (get_account_by_wallet_address a now s).1 ≡ (get_account u now s).1
      found u e = unfold address_of get_account_by_wallet_address in ground arith

      missing : (x : Error) → address_of a s ≡ err x → (get_account_by_wallet_address a now s).1 ≡ s
      missing x e = unfold address_of get_account_by_wallet_address in ground arith

  pub perform-IsSound :
      (call : Call) (s : InMemoryLedger)
      → HasValidAmount call
      → IsSound host s
      → IsSound host (perform host now call s)
  unfolding perform enqueue_job claim_pending_jobs mark_job_done mark_job_failed retry_job
      append_audit_log create_sweep_record mark_sweep_queued record_sweep_attempt
      mark_sweep_broadcasted confirm_sweep fail_sweep claim_pending_outbox_events
      mark_outbox_event_published reschedule_outbox_event dead_letter_outbox_event
      replay_outbox_events recover_stale_processing_outbox_events
      acknowledge_dead_letter_outbox_events append_event_consumer_attempt
      append_event_consumer_dead_letter upsert_event_consumer_checkpoint
  perform-IsSound (Call.get_account u) s v h = get_account-IsSound host now s u h
  perform-IsSound (Call.get_account_by_wallet_address a) s v h = by_address a s h
  perform-IsSound (Call.bind_wallet_address u a) s v h =
      bind_wallet_address-IsSound host now s u a h
  perform-IsSound (Call.apply_deposit input) s v h = apply_deposit-IsSound host now s input v h
  perform-IsSound (Call.complete_deposit id) s v h =
      SameFunds-IsSound (complete_deposit-SameFunds host now s id) h
  perform-IsSound (Call.apply_external_credit input) s v h =
      apply_external_credit-IsSound host now s input h
  perform-IsSound (Call.transfer input) s v h = transfer-IsSound host now s input v h
  perform-IsSound (Call.request_withdrawal input) s v h =
      request_withdrawal-IsSound host input now s distinct v h
  perform-IsSound (Call.confirm_withdrawal_external_auth id p r) s v h =
      confirm_withdrawal_external_auth-IsSound host id now s p r h
  perform-IsSound (Call.mark_withdrawal_review_required id) s v h =
      mark_withdrawal_review_required-IsSound host id now s h
  perform-IsSound (Call.approve_withdrawal id input) s v h =
      approve_withdrawal-IsSound host id now s input h
  perform-IsSound (Call.broadcast_withdrawal id tx_hash) s v h =
      broadcast_withdrawal-IsSound host id now s tx_hash h
  perform-IsSound (Call.confirm_withdrawal id fee) s v h =
      confirm_withdrawal-IsSound host id now s fee h
  perform-IsSound (Call.fail_withdrawal id reason) s v h =
      fail_withdrawal-IsSound host id now s reason h
  perform-IsSound other s v h =
      SameFunds-IsSound {s = s} {t = perform host now other s} (ground arith) h

run-IsSound_from :
    (host : Host) (calls : List (String × Call)) (s : InMemoryLedger)
    → IsDistinct host
    → All (λ (c : String × Call). HasValidAmount c.1) calls
    → IsSound host s
    → IsSound host (run host calls s)
unfolding run
run-IsSound_from host [] s distinct v h = h
run-IsSound_from host ((now, call) ∷ calls) s distinct v h =
    run-IsSound_from host calls (perform host now call s) distinct v.1
      (perform-IsSound host distinct now call s v.0 h)

pub empty_ledger-IsSound : (host : Host) → IsSound host empty_ledger
unfolding lookup sum_of Every
empty_ledger-IsSound host = record {
  locked = λ u. refl;
  amounts = tt;
  recorded = tt;
  balances = tt;
  unissued = λ n le. refl;
}

-- After any sequence of calls on a new ledger, in which no deposit, transfer or request has a
-- negative amount, and where `randomUUID` never repeats itself: each user's locked balance is the
-- sum of that user's withdrawals under way, no available balance and no withdrawn amount is
-- negative, and every withdrawal has its ledger transaction.
pub run-IsSound :
    (host : Host) (calls : List (String × Call))
    → IsDistinct host
    → All (λ (c : String × Call). HasValidAmount c.1) calls
    → IsSound host (run host calls empty_ledger)
run-IsSound host calls distinct v =
    run-IsSound_from host calls empty_ledger distinct v (empty_ledger-IsSound host)
