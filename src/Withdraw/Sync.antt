-- ===== src/Withdraw/Sync.antt =====
-- The state of src/application/services/withdraw-service.ts, and how it tells others of a withdrawal: over
-- the event bus of src/events/event-bus.ts, with the consumer that src/container/create-app-dependencies.ts
-- subscribes to it, or at once.
use coin_manage.Base.{
  ℕ, String, Bool, true, false, Option, none, some, List, [], ◌∷◌, ◌++◌, or_default, str_take,
  if◌then◌else◌,
}
use coin_manage.Base.Int.{ℤ}
use coin_manage.Base.Map.{Map}
use coin_manage.Base.Action.{
  Error, domain_error, zod_error, plain_error, Result, ok, err, Action, pure, throw, modify, ◌>>=◌,
  ◌>>◌,
}
use coin_manage.Contracts.{Host, build_withdrawal_state_changed_contract}
use coin_manage.Ledger.Types.Events.{
  Payload, WithdrawalStateChangedContract, WithdrawalLedgerStatus,
}
use coin_manage.Ledger.Types.Records.{EntityType}
use coin_manage.Ledger.Types.Funds.{ActorType, Withdrawal, ApprovalDecisionResult}
use coin_manage.Ledger.State.{InMemoryLedger}
use coin_manage.Ledger.Audit.{append_audit_log}
use coin_manage.Workers.Consumer.{RunnerInput, Outcome, Handler, Clock, RunEnd, run}
use coin_manage.Withdraw.Guard.{Chain, WithdrawGuardOptions}
use coin_manage.Withdraw.Queue.{WithdrawJobQueue, enqueue_external_sync}

-- What the signer is asked to send.
pub record TransferRequest : Type 0 where
  pub withdrawal_id : String
  pub to_address : String
  pub amount : ℤ

-- The publisher of events. `in_memory` is the repository's event bus: its clock shows the attempts of
-- a consumer that is called at a time, and `event_key` is the digest of the event. A publisher of the
-- caller's may be one without `publishAsync`, which hands the event on and calls nothing back.
pub data Publisher : Type 0 where
  in_memory : (String → Clock) → (WithdrawalStateChangedContract → String) → Publisher
  without_async : (WithdrawalStateChangedContract → Result (Unit {0})) → Publisher

-- The ports of the service, each with what it answers or throws; `zod_message` is the text of what
-- the schema library throws. The other system may answer
-- differently at each time.
pub record Ports : Type 0 where
  pub host : Host
  pub chain : Chain
  pub guard : WithdrawGuardOptions
  pub network_allowed : Option (String → Result (Unit {0}))
  pub sign : TransferRequest → Result String
  pub publisher : Publisher
  pub external_sync : Option (String → WithdrawalStateChangedContract → Result (Unit {0}))
  pub notify_approved : ApprovalDecisionResult → Result (Unit {0})
  pub notify_sync_failed : String → String → Result (Unit {0})
  pub zod_message : String

-- The state: the ledger, the queue, and what the signer has been asked to send so far.
pub record WithdrawState : Type 0 where
  pub ledger : InMemoryLedger
  pub queue : WithdrawJobQueue
  pub sent : List TransferRequest

abbrev pub Method : Type 0 → Type 0
Method A = Action WithdrawState A

-- A call of the ledger.
abbrev pub in_ledger : {A : Type 0} → Action InMemoryLedger A → Method A
in_ledger call s = let (r, ledger') = call s.ledger in (r, record s { ledger = ledger' })

-- The answer of a port.
abbrev pub answer : {A : Type 0} → Result A → Method A
answer r s = (r, s)

-- `error instanceof Error ? error.message : …`
abbrev pub error_message : String → Error → String
error_message zod_message (domain_error status code message) = message
error_message zod_message zod_error = zod_message
error_message zod_message (plain_error message) = message

abbrev pub ledger_status_text : WithdrawalLedgerStatus → String
ledger_status_text WithdrawalLedgerStatus.requested = "REQUESTED"
ledger_status_text WithdrawalLedgerStatus.ledger_reserved = "LEDGER_RESERVED"
ledger_status_text WithdrawalLedgerStatus.pending_admin = "PENDING_ADMIN"
ledger_status_text WithdrawalLedgerStatus.admin_approved = "ADMIN_APPROVED"
ledger_status_text WithdrawalLedgerStatus.tx_broadcasted = "TX_BROADCASTED"
ledger_status_text WithdrawalLedgerStatus.onchain_confirmed = "ONCHAIN_CONFIRMED"
ledger_status_text WithdrawalLedgerStatus.completed = "COMPLETED"
ledger_status_text WithdrawalLedgerStatus.failed = "FAILED"
ledger_status_text WithdrawalLedgerStatus.rejected = "REJECTED"

module _ (ports : Ports) (now_iso : String) where
  -- `this.ledger.appendAuditLog({ entityType: 'withdrawal', … })`
  unfoldable pub audit : String → String → ActorType → String → Map String → Method (Unit {0})
  audit withdrawal_id action actor_type actor_id metadata = do
    in_ledger (
        append_audit_log ports.host
          (record {
            entity_type = EntityType.withdrawal;
            entity_id = withdrawal_id;
            action = action;
            actor_type = actor_type;
            actor_id = actor_id;
            metadata = metadata;
          })
          now_iso)
    pure tt

  -- The metadata that both outcomes of a synchronisation record.
  abbrev pub sync_metadata : WithdrawalStateChangedContract → Map String
  sync_metadata contract =
      ("status", ledger_status_text contract.status)
      ∷ ("occurredAt", contract.occurred_at)
      ∷ ("txHash", or_default contract.tx_hash "")
      ∷ []

  unfoldable pub consume_withdrawal_state_changed :
      WithdrawalStateChangedContract → Bool → Method (Unit {0})
  unfolding audit
  consume_withdrawal_state_changed contract enqueue_on_failure = elim ports.external_sync [
    | none ↦ pure tt
    | some sync ↦ elim (sync now_iso contract) [
      | ok _ ↦
          audit contract.withdrawal_id "withdraw.external_sync.succeeded" ActorType.system
            "foxya-withdrawal-sync" (sync_metadata contract)
      | err x ↦ do
        let message = str_take 500 (error_message ports.zod_message x)
        audit contract.withdrawal_id "withdraw.external_sync.failed" ActorType.system
            "foxya-withdrawal-sync" (sync_metadata contract ++ ("error", message) ∷ [])
        answer (ports.notify_sync_failed contract.withdrawal_id message)
        modify (λ s. record s {
          queue =
              if enqueue_on_failure
              then enqueue_external_sync contract.withdrawal_id s.queue
              else s.queue;
        })
        throw x
    ]
  ]

-- `eventPublisher.subscribe('withdrawal.state.changed', …)`: what the run of the consumer is given.
abbrev pub sync_input : String → WithdrawalStateChangedContract → RunnerInput
sync_input event_key contract = record {
  consumer_name = "foxya_withdrawal_sync";
  event_type = "withdrawal.state.changed";
  event_key = event_key;
  payload = Payload.withdrawal_changed contract;
  aggregate_id = some contract.withdrawal_id;
  max_attempts = 3;
  retry_base_delay_ms = 200;
  retry_max_delay_ms = 1000;
}

abbrev pub outcome_of : String → Result (Unit {0}) → Outcome
outcome_of zod_message (ok _) = Outcome.done
outcome_of zod_message (err x) = Outcome.threw (some (error_message zod_message x))

-- The handler: it changes the ledger only, since it enqueues nothing.
unfoldable pub sync_handler :
    Ports → Clock → WithdrawalStateChangedContract → WithdrawState → ℕ → Handler
unfolding consume_withdrawal_state_changed
sync_handler ports clock contract s attempt_number l =
    let (r, t) =
      consume_withdrawal_state_changed ports (clock.now_iso attempt_number) contract false
        (record s { ledger = l }) in
    (outcome_of ports.zod_message r, t.ledger)

-- A run calls what is to happen on a dead letter last, so here it ends with a mark instead. A run
-- throws nothing that its handler throws: only the mark shows as thrown.
abbrev pub dead_letter_mark : Handler
dead_letter_mark l = (Outcome.threw none, l)

-- What follows the run: `enqueueExternalSync` on a dead letter.
abbrev pub after_run : String → WithdrawState → RunEnd → WithdrawState
after_run withdrawal_id s end = record s {
  ledger = end.ledger;
  queue = elim end.outcome [
    | Outcome.done ↦ s.queue
    | Outcome.threw _ ↦ enqueue_external_sync withdrawal_id s.queue
  ];
}

-- `publishAsync` of the event bus, which awaits the one handler that is subscribed.
unfoldable pub publish_async :
    Ports → Clock → String → WithdrawalStateChangedContract → Method (Unit {0})
unfolding sync_handler
publish_async ports clock event_key contract s = (
  ok tt,
  after_run contract.withdrawal_id s (
      run ports.host clock (sync_input event_key contract) (sync_handler ports clock contract s)
        (some dead_letter_mark) s.ledger),
)

module _ (ports : Ports) (now_iso : String) where
  -- `if (this.eventPublisher.publishAsync) … else …`
  unfoldable pub publish_over : Publisher → WithdrawalStateChangedContract → Method (Unit {0})
  unfolding publish_async consume_withdrawal_state_changed
  publish_over (Publisher.in_memory clock event_key) contract =
      publish_async ports (clock now_iso) (event_key contract) contract
  publish_over (Publisher.without_async publish) contract = do
    answer (publish contract)
    consume_withdrawal_state_changed ports now_iso contract true

  unfoldable pub publish_withdrawal_state_change : Withdrawal → Method (Unit {0})
  unfolding publish_over
  publish_withdrawal_state_change withdrawal = do
    contract ← answer (build_withdrawal_state_changed_contract ports.host withdrawal now_iso)
    publish_over ports.publisher contract
