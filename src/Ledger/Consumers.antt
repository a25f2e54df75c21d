-- ===== src/Ledger/Consumers.antt =====
-- src/ledger/in-memory-ledger.ts: what event consumers have attempted, given up and finished.
use coin_manage.Base.{
  ℕ, String, Bool, true, false, Option, none, some, List, ◌==◌, truthy, joined, str_le, take, sort,
  filter, or_default, if◌then◌else◌,
}
use coin_manage.Base.Map.{lookup, insert, values}
use coin_manage.Base.Action.{pure, modify, ◌>>=◌, ◌>>◌}
use coin_manage.Contracts.{Host}
use coin_manage.Ledger.Types.Events.{
  Payload, AttemptStatus, EventConsumerAttempt, EventConsumerDeadLetter, CheckpointStatus,
  EventConsumerCheckpoint,
}
use coin_manage.Ledger.State.{InMemoryLedger, Method, random_uuid}

pub record AttemptInput : Type 0 where
  pub event_key : String
  pub event_type : String
  pub consumer_name : String
  pub status : AttemptStatus
  pub attempt_number : ℕ
  pub aggregate_id : Option String
  pub error_message : Option String
  pub duration_ms : ℕ

pub record DeadLetterInput : Type 0 where
  pub event_key : String
  pub event_type : String
  pub consumer_name : String
  pub aggregate_id : Option String
  pub payload : Payload
  pub error_message : String

pub record CheckpointInput : Type 0 where
  pub consumer_name : String
  pub event_key : String
  pub event_type : String
  pub aggregate_id : Option String
  pub last_status : CheckpointStatus

module _ (host : Host) where
  unfoldable pub append_event_consumer_attempt : AttemptInput → String → Method EventConsumerAttempt
  unfolding random_uuid
  append_event_consumer_attempt input now_iso = do
    attempt_id ← random_uuid host
    let attempt : EventConsumerAttempt = record {
      attempt_id = attempt_id;
      event_key = input.event_key;
      event_type = input.event_type;
      consumer_name = input.consumer_name;
      status = input.status;
      attempt_number = input.attempt_number;
      aggregate_id = input.aggregate_id;
      error_message = input.error_message;
      duration_ms = input.duration_ms;
      created_at = now_iso;
    }
    modify (λ s. record s {
      event_consumer_attempts = insert attempt_id attempt s.event_consumer_attempts;
    })
    pure attempt

  unfoldable pub append_event_consumer_dead_letter :
      DeadLetterInput → String → Method EventConsumerDeadLetter
  unfolding random_uuid
  append_event_consumer_dead_letter input now_iso = do
    dead_letter_id ← random_uuid host
    let dead_letter : EventConsumerDeadLetter = record {
      dead_letter_id = dead_letter_id;
      event_key = input.event_key;
      event_type = input.event_type;
      consumer_name = input.consumer_name;
      aggregate_id = input.aggregate_id;
      payload = input.payload;
      error_message = input.error_message;
      failed_at = now_iso;
    }
    modify (λ s. record s {
      event_consumer_dead_letters = insert dead_letter_id dead_letter s.event_consumer_dead_letters;
    })
    pure dead_letter

abbrev wanted : Option String → String → Bool
wanted none text = true
wanted (some w) text = if truthy w then text == w else true

abbrev same_attempt : AttemptStatus → AttemptStatus → Bool
same_attempt AttemptStatus.succeeded AttemptStatus.succeeded = true
same_attempt AttemptStatus.failed AttemptStatus.failed = true
same_attempt _ _ = false

abbrev wanted_status : Option AttemptStatus → AttemptStatus → Bool
wanted_status none status = true
wanted_status (some w) status = same_attempt status w

unfoldable pub list_event_consumer_attempts :
    Option String
    → Option String
    → Option AttemptStatus
    → Option ℕ
    → InMemoryLedger
    → List EventConsumerAttempt
list_event_consumer_attempts consumer_name event_type status limit s = take (or_default limit 100) (
    sort (λ (a b : EventConsumerAttempt). str_le b.created_at a.created_at)
      (filter (λ (x : EventConsumerAttempt). wanted_status status x.status)
        (filter (λ (x : EventConsumerAttempt). wanted event_type x.event_type)
          (filter (λ (x : EventConsumerAttempt). wanted consumer_name x.consumer_name)
            (values s.event_consumer_attempts)))))

unfoldable pub list_event_consumer_dead_letters :
    Option String → Option String → Option ℕ → InMemoryLedger → List EventConsumerDeadLetter
list_event_consumer_dead_letters consumer_name event_type limit s = take (or_default limit 100) (
    sort (λ (a b : EventConsumerDeadLetter). str_le b.failed_at a.failed_at)
      (filter (λ (x : EventConsumerDeadLetter). wanted event_type x.event_type)
        (filter (λ (x : EventConsumerDeadLetter). wanted consumer_name x.consumer_name)
          (values s.event_consumer_dead_letters))))

abbrev pub has_succeeded : Option EventConsumerCheckpoint → Bool
has_succeeded none = false
has_succeeded (some checkpoint) = elim checkpoint.last_status [
  | CheckpointStatus.succeeded ↦ true
  | CheckpointStatus.dead_lettered ↦ false
]

unfoldable pub has_succeeded_event_consumer_checkpoint : String → String → InMemoryLedger → Bool
has_succeeded_event_consumer_checkpoint consumer_name event_key s =
    has_succeeded (lookup (joined consumer_name event_key) s.event_consumer_checkpoints)

abbrev first_processed : Option EventConsumerCheckpoint → String → String
first_processed none now_iso = now_iso
first_processed (some existing) now_iso = existing.first_processed_at

unfoldable pub upsert_event_consumer_checkpoint : CheckpointInput → String → Method (Unit {0})
upsert_event_consumer_checkpoint input now_iso =
    let key = joined input.consumer_name input.event_key in
    modify (λ s. record s {
      event_consumer_checkpoints =
          insert key
            (record {
              consumer_name = input.consumer_name;
              event_key = input.event_key;
              event_type = input.event_type;
              aggregate_id = input.aggregate_id;
              last_status = input.last_status;
              first_processed_at =
                  first_processed (lookup key s.event_consumer_checkpoints) now_iso;
              last_processed_at = now_iso;
            })
            s.event_consumer_checkpoints;
    })
