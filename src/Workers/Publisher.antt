-- ===== src/Workers/Publisher.antt =====
-- src/application/services/outbox-publisher-worker.ts: one cycle of the worker on the ledger in memory. What
-- the publisher answers and the clock are arguments; the timer that starts cycles is left out.
use coin_manage.Base.{
  ℕ, ◌+◌, ◌-◌, ◌*◌, ◌^◌, min, String, Bool, true, false, Option, none, some, List, [], ◌∷◌, ◌++◌,
  leb, or_default, if◌then◌else◌,
}
use coin_manage.Base.Int.{ℤ, pos, ◌+ℤ◌}
use coin_manage.Base.Action.{Result, ok, err}
use coin_manage.Contracts.{Host}
use coin_manage.Ledger.Types.Events.{Payload, OutboxEvent}
use coin_manage.Ledger.State.{InMemoryLedger}
use coin_manage.Ledger.Outbox.{
  recover_stale_processing_outbox_events, claim_pending_outbox_events, mark_outbox_event_published,
  dead_letter_outbox_event, reschedule_outbox_event,
}
use coin_manage.Workers.Consumer.{Outcome}

pub record PublisherOptions : Type 0 where
  pub batch_size : Option ℕ
  pub retry_base_delay_ms : Option ℕ
  pub retry_max_delay_ms : Option ℕ
  pub max_attempts : Option ℕ

abbrev pub batch_size : PublisherOptions → ℕ
batch_size options = or_default options.batch_size 100

abbrev pub retry_base_delay_ms : PublisherOptions → ℕ
retry_base_delay_ms options = or_default options.retry_base_delay_ms 30000

abbrev pub retry_max_delay_ms : PublisherOptions → ℕ
retry_max_delay_ms options = or_default options.retry_max_delay_ms 300000

abbrev pub max_attempts : PublisherOptions → ℕ
max_attempts options = or_default options.max_attempts 10

-- `Math.min(this.retryMaxDelayMs, this.retryBaseDelayMs * 2 ** Math.max(event.attempts - 1, 0))`
abbrev pub retry_delay_ms : PublisherOptions → ℕ → ℕ
retry_delay_ms options attempts =
    min (retry_max_delay_ms options) (retry_base_delay_ms options * 2 ^ (attempts - 1))

-- The times of a cycle: of its start, of its claim, and of the end of each event, by its place.
pub record CycleClock : Type 0 where
  pub started : String
  pub claimed : String
  pub ended : ℕ → String
  pub ended_ms : ℕ → ℤ

-- What the publisher was called with.
pub record Sent : Type 0 where
  pub event_type : String
  pub payload : Payload

-- What the publisher does with a call, after the calls of the list.
abbrev pub Publish : Type 0
Publish = List Sent → Sent → Outcome

pub record PublisherWorker : Type 0 where
  pub ledger : InMemoryLedger
  pub running : Bool
  pub sent : List Sent

abbrev pub sent_for : OutboxEvent → Sent
sent_for event = record { event_type = event.event_type; payload = event.payload }

-- `error instanceof Error ? error.message : 'outbox publish failed'`
abbrev pub failure_text : Option String → String
failure_text none = "outbox publish failed"
failure_text (some message) = message

-- The events of a claim; it never throws.
abbrev answered : Result (List OutboxEvent) → List OutboxEvent
answered (ok events) = events
answered (err x) = []

module _ (host : Host) (options : PublisherOptions) (publish : Publish) (clock : CycleClock) where
  -- What becomes of an event in the ledger.
  unfoldable pub settle_event : Outcome → OutboxEvent → ℕ → InMemoryLedger → InMemoryLedger
  settle_event Outcome.done event place s =
      (mark_outbox_event_published event.outbox_event_id (clock.ended place) s).1
  settle_event (Outcome.threw thrown) event place s =
      if leb (max_attempts options) event.attempts
      then (dead_letter_outbox_event event.outbox_event_id (failure_text thrown) (clock.ended place)
          s).1
      else (reschedule_outbox_event event.outbox_event_id (failure_text thrown)
          (host.iso_of (clock.ended_ms place +ℤ pos (retry_delay_ms options event.attempts))) s).1

  -- `for (const event of events) { … }`
  unfoldable pub publish_events : List OutboxEvent → ℕ → PublisherWorker → PublisherWorker
  publish_events [] place w = w
  publish_events (event ∷ events) place w = publish_events events (place + 1) (record w {
    ledger = settle_event (publish w.sent (sent_for event)) event place w.ledger;
    sent = w.sent ++ sent_for event ∷ [];
  })

  module _ (processing_stale_timeout_sec : ℕ) where
    -- The ledger after the recovery, and what is then claimed of it.
    abbrev pub recovered : InMemoryLedger → InMemoryLedger
    recovered s =
        (recover_stale_processing_outbox_events host processing_stale_timeout_sec clock.started s).1

    unfoldable pub run_cycle : PublisherWorker → PublisherWorker
    run_cycle w =
        let (r, s) =
          claim_pending_outbox_events (batch_size options) clock.claimed (recovered w.ledger) in
        let after = publish_events (answered r) 0 (record w { ledger = s; running = true }) in
        if w.running then w else record after { running = false }
