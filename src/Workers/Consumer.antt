-- ===== src/Workers/Consumer.antt =====
-- src/application/services/event-consumer-runner.ts on the ledger in memory. The key of an event is a
-- digest of its payload, an argument here, like what the handler does and the clock.
use coin_manage.Base.{
  ℕ, zero, suc, ◌+◌, ◌-◌, ◌*◌, ◌^◌, min, String, Option, none, some, List, [], ◌∷◌, leb, ltb,
  str_take, if◌then◌else◌,
}
use coin_manage.Contracts.{Host}
use coin_manage.Ledger.Types.Events.{Payload, AttemptStatus, CheckpointStatus}
use coin_manage.Ledger.State.{InMemoryLedger}
use coin_manage.Ledger.Consumers.{
  append_event_consumer_attempt, append_event_consumer_dead_letter,
  upsert_event_consumer_checkpoint, has_succeeded_event_consumer_checkpoint,
}

pub record RunnerInput : Type 0 where
  pub consumer_name : String
  pub event_type : String
  pub event_key : String
  pub payload : Payload
  pub aggregate_id : Option String
  pub max_attempts : ℕ
  pub retry_base_delay_ms : ℕ
  pub retry_max_delay_ms : ℕ

-- How a call that may throw ends: `threw` has the message of the `Error`, where it was one.
pub data Outcome : Type 0 where
  done : Outcome
  threw : Option String → Outcome

-- A handler, or what is to happen on a dead letter: it may use the ledger.
abbrev pub Handler : Type 0
Handler = InMemoryLedger → Outcome × InMemoryLedger

-- What the clock shows in the attempt of a number.
pub record Clock : Type 0 where
  pub now_iso : ℕ → String
  pub duration_ms : ℕ → ℕ

-- `error instanceof Error ? error.message : 'unknown consumer failure'`
abbrev pub message_of : Option String → String
message_of none = "unknown consumer failure"
message_of (some message) = message

-- What a run leaves: how it ended, the ledger, and the delays that it slept, the first one first.
pub record RunEnd : Type 0 where
  pub outcome : Outcome
  pub ledger : InMemoryLedger
  pub slept : List ℕ

-- `Math.min(input.retryMaxDelayMs, input.retryBaseDelayMs * 2 ** (attemptNumber - 1))`
abbrev pub delay_ms : RunnerInput → ℕ → ℕ
delay_ms input attempt_number =
    min input.retry_max_delay_ms (input.retry_base_delay_ms * 2 ^ (attempt_number - 1))

module _ (host : Host) (clock : Clock) (input : RunnerInput) where
  -- The record of an attempt.
  unfoldable pub note_attempt : AttemptStatus → Option String → ℕ → InMemoryLedger → InMemoryLedger
  note_attempt status error_message attempt_number s =
      (append_event_consumer_attempt host
        (record {
          event_key = input.event_key;
          event_type = input.event_type;
          consumer_name = input.consumer_name;
          status = status;
          attempt_number = attempt_number;
          aggregate_id = input.aggregate_id;
          error_message = error_message;
          duration_ms = clock.duration_ms attempt_number;
        })
        (clock.now_iso attempt_number) s).1

  unfoldable pub note_checkpoint : CheckpointStatus → ℕ → InMemoryLedger → InMemoryLedger
  note_checkpoint last_status attempt_number s =
      (upsert_event_consumer_checkpoint
        (record {
          consumer_name = input.consumer_name;
          event_key = input.event_key;
          event_type = input.event_type;
          aggregate_id = input.aggregate_id;
          last_status = last_status;
        })
        (clock.now_iso attempt_number) s).1

  unfoldable pub note_dead_letter : String → ℕ → InMemoryLedger → InMemoryLedger
  note_dead_letter message attempt_number s =
      (append_event_consumer_dead_letter host
        (record {
          event_key = input.event_key;
          event_type = input.event_type;
          consumer_name = input.consumer_name;
          aggregate_id = input.aggregate_id;
          payload = input.payload;
          error_message = str_take 1000 message;
        })
        (clock.now_iso attempt_number) s).1

  module _ (handler : ℕ → Handler) (on_dead_letter : Option Handler) where
    -- The end of the last attempt: the dead letter, its checkpoint, and what is to happen then.
    unfoldable pub give_up : String → ℕ → InMemoryLedger → Outcome × InMemoryLedger
    give_up message attempt_number s =
        let t =
          note_checkpoint CheckpointStatus.dead_lettered attempt_number
            (note_dead_letter message attempt_number s) in
        elim on_dead_letter [ none ↦ (Outcome.done, t) | some act ↦ act t ]

    -- The loop: `left` attempts may still be made, the next one with the number `attempt_number`.
    unfoldable pub attempts : ℕ → ℕ → InMemoryLedger → RunEnd
    attempts zero attempt_number s = record { outcome = Outcome.done; ledger = s; slept = [] }
    attempts (suc left) attempt_number s =
        let (outcome, t) = handler attempt_number s in
        elim outcome [
          | Outcome.done ↦ record {
            outcome = Outcome.done;
            ledger =
                note_checkpoint CheckpointStatus.succeeded attempt_number
                  (note_attempt AttemptStatus.succeeded none attempt_number t);
            slept = [];
          }
          | Outcome.threw thrown ↦
              let message = message_of thrown in
              let u =
                note_attempt AttemptStatus.failed (some (str_take 1000 message)) attempt_number t in
              let (last, given_up) = give_up message attempt_number u in
              let rest = attempts left (attempt_number + 1) u in
              let delay = delay_ms input attempt_number in
              if leb input.max_attempts attempt_number
              then record { outcome = last; ledger = given_up; slept = [] }
              else record rest { slept = if ltb 0 delay then delay ∷ rest.slept else rest.slept }
        ]

    unfoldable pub run : InMemoryLedger → RunEnd
    run s =
        let rest = attempts input.max_attempts 1 s in
        if has_succeeded_event_consumer_checkpoint input.consumer_name input.event_key s
        then record { outcome = Outcome.done; ledger = s; slept = [] }
        else rest
