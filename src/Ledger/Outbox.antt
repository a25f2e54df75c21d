-- ===== src/Ledger/Outbox.antt =====
-- src/ledger/in-memory-ledger.ts: the outbox, from which events are claimed, published, tried
-- again or given up.
pub mod Counts
use coin_manage.Base.{
  ℕ, ◌+◌, ◌*◌, String, Bool, true, false, not, ◌&&◌, Option, none, some, List, [], ◌∷◌, map, ◌==◌,
  present, str_le, take, sort, filter, any, length, or_default, if◌then◌else◌,
}
use coin_manage.Base.Int.{pos, ◌-ℤ◌}
use coin_manage.Base.Map.{Map, lookup, insert, values}
use coin_manage.Base.Action.{ok}
use coin_manage.Contracts.{Host}
use coin_manage.Ledger.Types.Events.{
  OutboxStatus, pending, processing, published, dead_lettered, DeadLetterCategory, OutboxEvent,
  OutboxEventSummary,
}
use coin_manage.Ledger.State.{InMemoryLedger, Method}

abbrev pub same_status : OutboxStatus → OutboxStatus → Bool
same_status pending pending = true
same_status processing processing = true
same_status published published = true
same_status dead_lettered dead_lettered = true
same_status _ _ = false

abbrev pub is_pending : OutboxEvent → Bool
is_pending event = same_status event.status pending

abbrev pub is_processing : OutboxEvent → Bool
is_processing event = same_status event.status processing

abbrev pub is_published : OutboxEvent → Bool
is_published event = same_status event.status published

abbrev pub is_dead : OutboxEvent → Bool
is_dead event = same_status event.status dead_lettered

abbrev pub is_acknowledged : OutboxEvent → Bool
is_acknowledged event = present event.dead_letter_acknowledged_at

-- `left.createdAt.localeCompare(right.createdAt)`: the oldest first.
abbrev pub older : OutboxEvent → OutboxEvent → Bool
older a b = str_le a.created_at b.created_at

-- `for (const event of events) { … }`, each changed in place under its id.
unfoldable pub change_events :
    (OutboxEvent → OutboxEvent) → List OutboxEvent → Map OutboxEvent → Map OutboxEvent
change_events change [] m = m
change_events change (event ∷ events) m =
    change_events change events (insert event.outbox_event_id (change event) m)

-- `const event = this.outboxEvents.get(id); if (!event) return; …`
unfoldable pub change_event : String → (OutboxEvent → OutboxEvent) → Method (Unit {0})
change_event id change s = elim (lookup id s.outbox_events) [
  | none ↦ (ok tt, s)
  | some event ↦ (ok tt, record s { outbox_events = insert id (change event) s.outbox_events })
]

abbrev pub claimed : String → OutboxEvent → OutboxEvent
claimed now_iso event = record event {
  status = processing;
  attempts = event.attempts + 1;
  processing_started_at = some now_iso;
}

unfoldable pub claimable_events : ℕ → String → InMemoryLedger → List OutboxEvent
claimable_events limit now_iso s = take limit (
    sort older (
      filter (λ (e : OutboxEvent). is_pending e && str_le e.available_at now_iso)
        (values s.outbox_events)))

unfoldable pub claim_pending_outbox_events : ℕ → String → Method (List OutboxEvent)
unfolding claimable_events change_events
claim_pending_outbox_events limit now_iso s =
    let events = claimable_events limit now_iso s in
    (
      ok (map (claimed now_iso) events),
      record s { outbox_events = change_events (claimed now_iso) events s.outbox_events },
    )

abbrev pub published_at : String → OutboxEvent → OutboxEvent
published_at now_iso event = record event {
  status = published;
  processing_started_at = none;
  published_at = some now_iso;
  dead_lettered_at = none;
  last_error = none;
}

unfoldable pub mark_outbox_event_published : String → String → Method (Unit {0})
unfolding change_event
mark_outbox_event_published id now_iso = change_event id (published_at now_iso)

abbrev pub rescheduled : String → String → OutboxEvent → OutboxEvent
rescheduled error available_at event = record event {
  status = pending;
  available_at = available_at;
  processing_started_at = none;
  last_error = some error;
}

unfoldable pub reschedule_outbox_event : String → String → String → Method (Unit {0})
unfolding change_event
reschedule_outbox_event id error available_at = change_event id (rescheduled error available_at)

abbrev pub given_up : String → String → OutboxEvent → OutboxEvent
given_up error at event = record event {
  status = dead_lettered;
  processing_started_at = none;
  dead_lettered_at = some at;
  dead_letter_acknowledged_at = none;
  dead_letter_acknowledged_by = none;
  dead_letter_note = none;
  dead_letter_category = none;
  incident_ref = none;
  last_error = some error;
}

unfoldable pub dead_letter_outbox_event : String → String → String → Method (Unit {0})
unfolding change_event
dead_letter_outbox_event id error at = change_event id (given_up error at)

abbrev wanted_status : Option OutboxStatus → OutboxEvent → Bool
wanted_status none event = true
wanted_status (some status) event = same_status event.status status

-- `idSet ? idSet.has(event.outboxEventId) : true`
abbrev wanted_id : Option (List String) → OutboxEvent → Bool
wanted_id none event = true
wanted_id (some ids) event = any (λ (id : String). id == event.outbox_event_id) ids

-- The number of different ids, `idSet.size`.
set_size : List String → ℕ
set_size [] = 0
set_size (id ∷ ids) =
    let rest = set_size ids in if any (λ (j : String). j == id) ids then rest else rest + 1

-- `limit ?? (idSet?.size ?? 100)`
abbrev batch_limit : Option ℕ → Option (List String) → ℕ
batch_limit (some limit) ids = limit
batch_limit none none = 100
batch_limit none (some ids) = set_size ids

unfoldable pub list_outbox_events :
    Option OutboxStatus → Option ℕ → InMemoryLedger → List OutboxEvent
list_outbox_events status limit s = take (or_default limit 100) (
    sort (λ (a b : OutboxEvent). older b a)
      (filter (wanted_status status) (values s.outbox_events)))

abbrev pub replayed : String → OutboxEvent → OutboxEvent
replayed now_iso event = record event {
  status = pending;
  available_at = now_iso;
  processing_started_at = none;
  dead_lettered_at = none;
  dead_letter_acknowledged_at = none;
  dead_letter_acknowledged_by = none;
  dead_letter_note = none;
  dead_letter_category = none;
  incident_ref = none;
}

pub record ReplayInput : Type 0 where
  pub outbox_event_ids : Option (List String)
  pub status : Option OutboxStatus
  pub limit : Option ℕ

unfoldable pub replay_candidates : ReplayInput → InMemoryLedger → List OutboxEvent
unfolding set_size
replay_candidates input s = take (batch_limit input.limit input.outbox_event_ids) (
    sort older (
      filter (wanted_id input.outbox_event_ids)
        (filter (wanted_status input.status) (values s.outbox_events))))

unfoldable pub replay_outbox_events : ReplayInput → String → Method ℕ
unfolding replay_candidates change_events
replay_outbox_events input now_iso s =
    let events = replay_candidates input s in
    (
      ok (length events),
      record s { outbox_events = change_events (replayed now_iso) events s.outbox_events },
    )

abbrev pub recovered : String → OutboxEvent → OutboxEvent
recovered now_iso event = record event {
  status = pending;
  available_at = now_iso;
  processing_started_at = none;
  last_error = some (or_default event.last_error "processing timeout recovered");
}

-- `event.processingStartedAt && event.processingStartedAt <= threshold`
abbrev started_by : Option String → String → Bool
started_by none threshold = false
started_by (some at) threshold = present (some at) && str_le at threshold

unfoldable pub stale_events : String → InMemoryLedger → List OutboxEvent
stale_events threshold s =
    filter (λ (e : OutboxEvent). is_processing e && started_by e.processing_started_at threshold)
      (values s.outbox_events)

module _ (host : Host) where
  unfoldable pub recover_stale_processing_outbox_events : ℕ → String → Method ℕ
  unfolding stale_events change_events
  recover_stale_processing_outbox_events timeout_sec now_iso s =
      let threshold = host.iso_of (host.time_ms now_iso -ℤ pos (timeout_sec * 1000)) in
      let events = stale_events threshold s in
      (
        ok (length events),
        record s { outbox_events = change_events (recovered now_iso) events s.outbox_events },
      )

pub record AcknowledgeInput : Type 0 where
  pub outbox_event_ids : Option (List String)
  pub limit : Option ℕ
  pub actor_id : String
  pub note : Option String
  pub category : Option DeadLetterCategory
  pub incident_ref : Option String

abbrev pub acknowledged : AcknowledgeInput → String → OutboxEvent → OutboxEvent
acknowledged input now_iso event = record event {
  dead_letter_acknowledged_at = some now_iso;
  dead_letter_acknowledged_by = some input.actor_id;
  dead_letter_note = input.note;
  dead_letter_category = input.category;
  incident_ref = input.incident_ref;
}

unfoldable pub acknowledge_candidates : AcknowledgeInput → InMemoryLedger → List OutboxEvent
unfolding set_size
acknowledge_candidates input s = take (batch_limit input.limit input.outbox_event_ids) (
    sort older (
      filter (wanted_id input.outbox_event_ids) (
        filter (λ (e : OutboxEvent). not (is_acknowledged e))
          (filter is_dead (values s.outbox_events)))))

unfoldable pub acknowledge_dead_letter_outbox_events : AcknowledgeInput → String → Method ℕ
unfolding acknowledge_candidates change_events
acknowledge_dead_letter_outbox_events input now_iso s =
    let events = acknowledge_candidates input s in
    (
      ok (length events),
      record s {
        outbox_events = change_events (acknowledged input now_iso) events s.outbox_events;
      },
    )

head_of {ℓ} : {A : Type ℓ} → List A → Option A
head_of [] = none
head_of (x ∷ xs) = some x

abbrev died_at : OutboxEvent → String
died_at event = or_default event.dead_lettered_at ""

unfoldable pub get_outbox_event_summary : InMemoryLedger → OutboxEventSummary
unfolding head_of
get_outbox_event_summary s =
    let events = values s.outbox_events in
    record {
      pending_count = length (filter is_pending events);
      processing_count = length (filter is_processing events);
      published_count = length (filter is_published events);
      dead_lettered_count = length (filter is_dead events);
      dead_letter_acknowledged_count =
          length (filter (λ (e : OutboxEvent). is_dead e && is_acknowledged e) events);
      dead_letter_unacknowledged_count =
          length (filter (λ (e : OutboxEvent). is_dead e && not (is_acknowledged e)) events);
      oldest_pending_created_at = elim (head_of (sort older (filter is_pending events))) [
        | none ↦ none
        | some e ↦ some e.created_at
      ];
      oldest_dead_lettered_at =
          elim (head_of (
            sort (λ (a b : OutboxEvent). str_le (died_at a) (died_at b)) (filter is_dead events))) [
              | none ↦ none
              | some e ↦ e.dead_lettered_at
            ];
    }
