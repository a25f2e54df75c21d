-- ===== src/Withdraw/Approvals.antt =====
-- What an approval of src/application/services/withdraw-service.ts leaves in the ledger and in the queue.
use coin_manage.Base.{
  String, true, some, ◌≡◌, refl, sym, arith, inl, inr, ◌⊎◌, Option-cases, if◌then◌else◌,
}
use coin_manage.Base.Map.{lookup, insert, lookup-insert_self}
use coin_manage.Base.Action.{Result, ok, Result-cases}
use coin_manage.Contracts.{build_withdrawal_state_changed_contract}
use coin_manage.Ledger.Audit.{append_audit_log}
use coin_manage.Ledger.Types.Events.{WithdrawalStateChangedContract}
use coin_manage.Ledger.Types.Funds.{Withdrawal, ApprovalDecisionResult}
use coin_manage.Ledger.State.{InMemoryLedger}
use coin_manage.Ledger.Withdrawals.{approve_withdrawal, is_approved, is_pending_admin}
use coin_manage.Workers.Consumer.{Clock, run}
use coin_manage.Workers.ConsumerRuns.{Outcome-cases}
use coin_manage.Withdraw.Queue.{WithdrawJobQueue, enqueue_dispatch, enqueue_external_sync}
use coin_manage.Withdraw.Sync.{
  Ports, WithdrawState, Publisher, audit, publish_withdrawal_state_change, publish_over,
  publish_async, consume_withdrawal_state_changed, sync_input, sync_handler, dead_letter_mark,
}
use coin_manage.Withdraw.Service.{assert_network}
use coin_manage.Withdraw.SyncFrames.{publish-frame}
use coin_manage.Withdraw.Approval.{ServiceApprovalInput, ledger_input, approve_current, approve}

-- The queue as it was, or with one job more that tells the other system of a withdrawal.
abbrev pub MayRetry : String → WithdrawJobQueue → WithdrawJobQueue → Type 0
MayRetry withdrawal_id q q' = (q' ≡ q) ⊎ (q' ≡ enqueue_external_sync withdrawal_id q)

module _ (ports : Ports) (now : String) where
  consume-queue :
      (c : WithdrawalStateChangedContract) (s : WithdrawState)
      → (consume_withdrawal_state_changed ports now c true s).0 ≡ ok tt
      → (consume_withdrawal_state_changed ports now c true s).1.queue ≡ s.queue
  unfolding consume_withdrawal_state_changed audit append_audit_log
  consume-queue c s h = ground (arith, h)

  publish_async-queue :
      (clock : Clock) (key : String) (c : WithdrawalStateChangedContract) (s : WithdrawState)
      → MayRetry c.withdrawal_id s.queue (publish_async ports clock key c s).1.queue
  unfolding publish_async
  publish_async-queue clock key c s =
      let end =
        run ports.host clock (sync_input key c) (sync_handler ports clock c s)
          (some dead_letter_mark) s.ledger in
      elim (Outcome-cases end.outcome) [ inl e ↦ inl (rw e refl) | inr (m, e) ↦ inr (rw e refl) ]

  publish_over-queue :
      (publisher : Publisher) (c : WithdrawalStateChangedContract) (s : WithdrawState)
      → (publish_over ports now publisher c s).0 ≡ ok tt
      → MayRetry c.withdrawal_id s.queue (publish_over ports now publisher c s).1.queue
  unfolding publish_over
  publish_over-queue (Publisher.in_memory clock key) c s h =
      publish_async-queue (clock now) (key c) c s
  publish_over-queue (Publisher.without_async publish) c s h =
      inl (ground (arith, h, consume-queue c s))

  contract_of :
      (w : Withdrawal) (c : WithdrawalStateChangedContract)
      → build_withdrawal_state_changed_contract ports.host w now ≡ ok c
      → c.withdrawal_id ≡ w.withdrawal_id
  unfolding build_withdrawal_state_changed_contract
  contract_of w c e = ground (arith, e)

  publish-queue :
      (w : Withdrawal) (s : WithdrawState)
      → (publish_withdrawal_state_change ports now w s).0 ≡ ok tt
      → MayRetry w.withdrawal_id s.queue (publish_withdrawal_state_change ports now w s).1.queue
  unfolding publish_withdrawal_state_change
  publish-queue w s h =
      elim (Result-cases (build_withdrawal_state_changed_contract ports.host w now)) [
        | inr (x, e) ↦ absurd (ground (arith, e, h))
        | inl (c, e) ↦
            rw (e, sym (contract_of w c e)) (publish_over-queue ports.publisher c s (rw e at h))
      ]

module _ (ports : Ports) (now id : String) (input : ServiceApprovalInput) where
  -- What an approval that is answered has done.
  pub record IsApproval (s t : WithdrawState) (result : ApprovalDecisionResult) : Type 0 where
    pub was_pending :
        (w : Withdrawal) × (lookup id s.ledger.withdrawals ≡ some w)
        × (is_pending_admin w.status ≡ true)
    pub stored : lookup id t.ledger.withdrawals ≡ some result.withdrawal
    pub decided : result.finalized ≡ is_approved result.withdrawal.status
    pub queued :
        (q : WithdrawJobQueue) × MayRetry result.withdrawal.withdrawal_id s.queue q
        × (t.queue ≡ (if is_approved result.withdrawal.status then enqueue_dispatch id q else q))

  abbrev ledger_step : WithdrawState → Result ApprovalDecisionResult × InMemoryLedger
  ledger_step s = approve_withdrawal ports.host id (ledger_input input) now s.ledger

  ledger_step-approves :
      (w : Withdrawal) (s : WithdrawState) (r : ApprovalDecisionResult)
      → lookup id s.ledger.withdrawals ≡ some w
      → (ledger_step s).0 ≡ ok r
      → (is_pending_admin w.status ≡ true)
        × (r.finalized ≡ is_approved r.withdrawal.status)
        × ((ledger_step s).1.withdrawals ≡ insert id r.withdrawal s.ledger.withdrawals)
  unfolding approve_withdrawal
  ledger_step-approves w s r found h = ground (arith, found, h)

  abbrev written_state : WithdrawState → WithdrawState
  written_state s = record s { ledger = (ledger_step s).1 }

  -- The end of an approval, once the ledger has taken it.
  approve_current-ended :
      (w : Withdrawal) (s : WithdrawState) (r result : ApprovalDecisionResult)
      → assert_network ports now w.user_id ≡ ok tt
      → (ledger_step s).0 ≡ ok r
      → (approve_current ports now id input w s).0 ≡ ok result
      → let t = (approve_current ports now id input w s).1 in
        (result ≡ r)
        × (t.ledger.withdrawals ≡ (ledger_step s).1.withdrawals)
        × ((q : WithdrawJobQueue) × MayRetry r.withdrawal.withdrawal_id s.queue q
            × (t.queue ≡ (if r.finalized then enqueue_dispatch id q else q)))
  approve_current-ended w s r result net step h =
      let told = r.approval.created_at in
      let frame = publish-frame ports told r.withdrawal (written_state s) in
      let published = publish_withdrawal_state_change ports told r.withdrawal (written_state s) in
      elim (Result-cases published.0) [
        | inr (x, e) ↦ absurd (unfold approve_current in ground (arith, net, step, e, h))
        | inl (_, e) ↦
            let queued = publish-queue ports told r.withdrawal (written_state s) e in
            (
              unfold approve_current audit append_audit_log in ground (arith, net, step, e, h),
              unfold approve_current audit append_audit_log in
                  ground (arith, net, step, e, h, frame.withdrawals_same),
              (
                published.1.queue,
                queued,
                unfold approve_current audit append_audit_log in ground (arith, net, step, e, h),
              ),
            )
      ]

  approve_current-IsApproval :
      (w : Withdrawal) (s : WithdrawState) (result : ApprovalDecisionResult)
      → lookup id s.ledger.withdrawals ≡ some w
      → (approve_current ports now id input w s).0 ≡ ok result
      → IsApproval s (approve_current ports now id input w s).1 result
  approve_current-IsApproval w s result found h =
      elim (Result-cases (assert_network ports now w.user_id)) [
        | inr (x, e) ↦ absurd (unfold approve_current in ground (arith, e, h))
        | inl (_, net) ↦ elim (Result-cases (ledger_step s).0) [
          | inr (x, e) ↦ absurd (unfold approve_current in ground (arith, net, e, h))
          | inl (r, step) ↦
              let (pending, decided, written) = ledger_step-approves w s r found step in
              let (same, kept, (q, retried, queued)) =
                approve_current-ended w s r result net step h in
              rw same (record {
                was_pending = (w, found, pending);
                stored =
                    rw (kept, written) (lookup-insert_self id r.withdrawal s.ledger.withdrawals);
                decided = decided;
                queued = (q, retried, rw (sym decided) queued);
              })
        ]
      ]

  -- An approval that is answered found its withdrawal pending, and the withdrawal of its answer is
  -- in the ledger. It is final exactly if that withdrawal is approved now; exactly then one dispatch
  -- of it stands at the end of the queue. Before that the queue is as it was, except for at most one
  -- job that tells the other system of the withdrawal again.
  pub approve-IsApproval :
      (s : WithdrawState) (result : ApprovalDecisionResult)
      → (approve ports now id input s).0 ≡ ok result
      → IsApproval s (approve ports now id input s).1 result
  approve-IsApproval s result h = elim (Option-cases (lookup id s.ledger.withdrawals)) [
    | inl e ↦ absurd (unfold approve in ground (arith, e, h))
    | inr (w, e) ↦
        let q : approve ports now id input s ≡ approve_current ports now id input w s =
          unfold approve in ground (arith, e) in
        rw q (approve_current-IsApproval w s result e (rw q at h))
  ]
