-- ===== src/Ledger/Outbox/Counts.antt =====
-- src/ledger/in-memory-ledger.ts: how the outbox summary follows the events.
use coin_manage.Base.{
  ℕ, ◌+◌, String, Bool, true, false, some, ◌≡◌, refl, arith, [], ◌∷◌, filter, length, not, ◌&&◌,
  eq_iff,
}
use coin_manage.Base.Map.{Map, lookup, insert, values}
use coin_manage.Ledger.Types.Events.{OutboxEvent, OutboxEventSummary, processing}
use coin_manage.Ledger.State.{InMemoryLedger}
use coin_manage.Ledger.Outbox.{
  is_pending, is_processing, is_published, is_dead, is_acknowledged, change_event, published_at,
  rescheduled, given_up, mark_outbox_event_published, reschedule_outbox_event,
  dead_letter_outbox_event, get_outbox_event_summary,
}

abbrev one_if : Bool → ℕ
one_if true = 1
one_if false = 0

abbrev count : (OutboxEvent → Bool) → Map OutboxEvent → ℕ
count test m = length (filter test (values m))

abbrev is_acknowledged_dead : OutboxEvent → Bool
is_acknowledged_dead e = is_dead e && is_acknowledged e

abbrev is_open_dead : OutboxEvent → Bool
is_open_dead e = is_dead e && not (is_acknowledged e)

-- Writing over an event changes a count by what the old and the new event count for.
count-insert :
    (test : OutboxEvent → Bool) (id : String) (old new : OutboxEvent) (m : Map OutboxEvent)
    → lookup id m ≡ some old
    → count test (insert id new m) + one_if (test old) ≡ count test m + one_if (test new)
unfolding lookup insert values
count-insert test id old new [] e = ground (arith, e)
count-insert test id old new ((at, event) ∷ m) e =
    ground (arith, e, count-insert test id old new m, eq_iff at id)

-- One event has gone from the processing ones to the pending, the published or the dead ones.
pub record Settled (c c' : OutboxEventSummary) (to_pending to_published to_dead : ℕ) : Type 0 where
  pub processing_counts : c'.processing_count + 1 ≡ c.processing_count
  pub pending_counts : c'.pending_count ≡ c.pending_count + to_pending
  pub published_counts : c'.published_count ≡ c.published_count + to_published
  pub dead_counts : c'.dead_lettered_count ≡ c.dead_lettered_count + to_dead
  pub acknowledged_counts : c'.dead_letter_acknowledged_count ≡ c.dead_letter_acknowledged_count
  pub unacknowledged_counts :
      c'.dead_letter_unacknowledged_count ≡ c.dead_letter_unacknowledged_count + to_dead

module _ (id : String) (e : OutboxEvent) (s : InMemoryLedger)
    (found : lookup id s.outbox_events ≡ some e) (claimed : e.status ≡ processing) where
  shift :
      (e' : OutboxEvent) (test : OutboxEvent → Bool)
      → count test (insert id e' s.outbox_events) + one_if (test e)
        ≡ count test s.outbox_events + one_if (test e')
  shift e' test = count-insert test id e e' s.outbox_events found

  abbrev with_event : OutboxEvent → InMemoryLedger
  with_event e' = record s { outbox_events = insert id e' s.outbox_events }

  change_event-found :
      (change : OutboxEvent → OutboxEvent) → (change_event id change s).1 ≡ with_event (change e)
  unfolding change_event
  change_event-found change = ground (arith, found)

  settled :
      (e' : OutboxEvent)
      → is_processing e' ≡ false
      → (is_dead e' && is_acknowledged e') ≡ false
      → Settled
          (get_outbox_event_summary s)
          (get_outbox_event_summary (with_event e'))
          (one_if (is_pending e'))
          (one_if (is_published e'))
          (one_if (is_dead e'))
  unfolding get_outbox_event_summary
  settled e' over fresh = record {
    processing_counts = ground (arith, claimed, over, shift e' is_processing);
    pending_counts = ground (arith, claimed, shift e' is_pending);
    published_counts = ground (arith, claimed, shift e' is_published);
    dead_counts = ground (arith, claimed, shift e' is_dead);
    acknowledged_counts = ground (arith, claimed, fresh, shift e' is_acknowledged_dead);
    unacknowledged_counts = ground (arith, claimed, fresh, shift e' is_open_dead);
  }

  -- A claimed event, once it is marked as published, rescheduled or given up, is counted by the outbox
  -- summary among the published, the pending or the dead-lettered events (the unacknowledged ones)
  -- and no longer among those in processing; nothing else is counted differently.
  pub get_outbox_event_summary-Settled :
      (now error at : String)
      → let c = get_outbox_event_summary s in
        Settled c (get_outbox_event_summary (mark_outbox_event_published id now s).1) 0 1 0
        × Settled c (get_outbox_event_summary (reschedule_outbox_event id error at s).1) 1 0 0
        × Settled c (get_outbox_event_summary (dead_letter_outbox_event id error at s).1) 0 0 1
  unfolding mark_outbox_event_published reschedule_outbox_event dead_letter_outbox_event
  get_outbox_event_summary-Settled now error at = (
    rw (change_event-found (published_at now)) (settled (published_at now e) refl refl),
    rw (change_event-found (rescheduled error at)) (settled (rescheduled error at e) refl refl),
    rw (change_event-found (given_up error at)) (settled (given_up error at e) refl refl),
  )
