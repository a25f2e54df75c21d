-- ===== src/Workers/PublisherCycles.antt =====
-- What a cycle of src/application/services/outbox-publisher-worker.ts leaves in the outbox.
use coin_manage.Base.{
  ℕ, ◌+◌, ◌*◌, String, Bool, true, false, none, some, List, [], ◌∷◌, ◌++◌, map, ◌≡◌, refl, sym, ap,
  ◌∙◌, arith, any, inl, inr, Option-cases, eq_iff, ◌==◌,
}
use mathlib.Core.List.{append-nil, append_assoc}
use coin_manage.Base.Map.{Map, lookup, insert, lookup-insert}
use coin_manage.Contracts.{Host}
use coin_manage.Ledger.Types.Events.{OutboxEvent}
use coin_manage.Ledger.State.{InMemoryLedger}
use coin_manage.Ledger.Outbox.{
  is_processing, change_events, change_event, claimed, claimable_events, stale_events,
  recover_stale_processing_outbox_events, claim_pending_outbox_events, mark_outbox_event_published,
  dead_letter_outbox_event, reschedule_outbox_event, recovered as put_back,
}
use coin_manage.Base.Int.{pos, ◌-ℤ◌}
use coin_manage.Workers.Consumer.{Outcome}
use coin_manage.Workers.Publisher.{
  PublisherOptions, CycleClock, Publish, PublisherWorker, sent_for, settle_event, publish_events,
  recovered, run_cycle, batch_size,
}

-- The event of an id is in the outbox, and processing.
abbrev pub is_processing_at : String → InMemoryLedger → Bool
is_processing_at id s = elim (lookup id s.outbox_events) [
  | none ↦ false
  | some event ↦ is_processing event
]

abbrev processing_in : String → Map OutboxEvent → Bool
processing_in id m = elim (lookup id m) [ none ↦ false | some event ↦ is_processing event ]

abbrev is_among : String → List OutboxEvent → Bool
is_among id = any (λ (e : OutboxEvent). e.outbox_event_id == id)

-- A change after which no event is processing makes none processing.
change_events-processing :
    (change : OutboxEvent → OutboxEvent) (id : String) (events : List OutboxEvent)
    (m : Map OutboxEvent)
    → ((e : OutboxEvent) → is_processing (change e) ≡ false)
    → processing_in id (change_events change events m) ≡ true
    → processing_in id m ≡ true
unfolding change_events
change_events-processing change id [] m stops h = h
change_events-processing change id (e ∷ events) m stops h =
    let rest =
      change_events-processing change id events (insert e.outbox_event_id (change e) m) stops h in
    ground (arith, rest, stops e, lookup-insert e.outbox_event_id id (change e) m)

-- The events that are not in the list stay.
change_events-other :
    (change : OutboxEvent → OutboxEvent) (id : String) (events : List OutboxEvent)
    (m : Map OutboxEvent)
    → is_among id events ≡ false
    → lookup id (change_events change events m) ≡ lookup id m
unfolding change_events
change_events-other change id [] m h = refl
change_events-other change id (e ∷ events) m h =
    let rest =
      change_events-other change id events (insert e.outbox_event_id (change e) m) (ground arith) in
    ground (arith, rest, lookup-insert e.outbox_event_id id (change e) m)

claimed-among :
    (now id : String) (events : List OutboxEvent)
    → is_among id (map (claimed now) events) ≡ is_among id events
claimed-among now id [] = refl
claimed-among now id (e ∷ events) = ground (arith, claimed-among now id events)

claimed-sent :
    (now : String) (events : List OutboxEvent)
    → map sent_for (map (claimed now) events) ≡ map sent_for events
claimed-sent now [] = refl
claimed-sent now (e ∷ events) = ap (λ rest. sent_for e ∷ rest) (claimed-sent now events)

module _ (host : Host) (options : PublisherOptions) (publish : Publish) (clock : CycleClock) where
  settle_event-processing :
      (o : Outcome) (e : OutboxEvent) (place : ℕ) (s : InMemoryLedger) (id : String)
      → is_processing_at id (settle_event host options publish clock o e place s) ≡ true
      → (is_processing_at id s ≡ true) × ((e.outbox_event_id == id) ≡ false)
  unfolding settle_event mark_outbox_event_published dead_letter_outbox_event
      reschedule_outbox_event change_event
  settle_event-processing Outcome.done e place s id h =
      elim (Option-cases (lookup e.outbox_event_id s.outbox_events)) [
        | inl missing ↦ ground (arith, eq_iff e.outbox_event_id id)
        | inr (x, found) ↦ grind (arith, lookup-insert, eq_iff e.outbox_event_id id)
      ]
  settle_event-processing (Outcome.threw m) e place s id h =
      elim (Option-cases (lookup e.outbox_event_id s.outbox_events)) [
        | inl missing ↦ ground (arith, eq_iff e.outbox_event_id id)
        | inr (x, found) ↦ grind (arith, lookup-insert, eq_iff e.outbox_event_id id)
      ]

  publish_events-processing :
      (events : List OutboxEvent) (place : ℕ) (w : PublisherWorker) (id : String)
      → is_processing_at id (publish_events host options publish clock events place w).ledger ≡ true
      → (is_processing_at id w.ledger ≡ true) × (is_among id events ≡ false)
  unfolding publish_events
  publish_events-processing [] place w id h = (h, refl)
  publish_events-processing (e ∷ events) place w id h =
      let o = publish w.sent (sent_for e) in
      let t = settle_event host options publish clock o e place w.ledger in
      let (behind, others) =
        publish_events-processing events (place + 1)
          (record w { ledger = t; sent = w.sent ++ sent_for e ∷ [] }) id h in
      let (before, other) = settle_event-processing o e place w.ledger id behind in
      (before, ground (arith, other, others))

  publish_events-sent :
      (events : List OutboxEvent) (place : ℕ) (w : PublisherWorker)
      → (publish_events host options publish clock events place w).sent
        ≡ w.sent ++ map sent_for events
  unfolding publish_events
  publish_events-sent [] place w = sym (append-nil w.sent)
  publish_events-sent (e ∷ events) place w =
      let o = publish w.sent (sent_for e) in
      let t = settle_event host options publish clock o e place w.ledger in
      let rest =
        publish_events-sent events (place + 1)
          (record w { ledger = t; sent = w.sent ++ sent_for e ∷ [] }) in
      rest ∙ append_assoc w.sent (sent_for e ∷ []) (map sent_for events)

  module _ (timeout_sec : ℕ) (w : PublisherWorker) (idle : w.running ≡ false) where
    abbrev found : InMemoryLedger
    found = recovered host options publish clock timeout_sec w.ledger

    abbrev to_send : List OutboxEvent
    to_send = claimable_events (batch_size options) clock.claimed found

    -- A cycle of a worker that is not running already leaves no event processing but those that
    -- were processing before it, however the publisher answers.
    pub run_cycle-processing :
        (id : String)
        → is_processing_at id (run_cycle host options publish clock timeout_sec w).ledger ≡ true
        → is_processing_at id w.ledger ≡ true
    run_cycle-processing id h =
        let taken : PublisherWorker = record w {
          ledger = (claim_pending_outbox_events (batch_size options) clock.claimed found).1;
          running = true;
        } in
        let looped : is_processing_at id
              (publish_events host options publish clock (map (claimed clock.claimed) to_send) 0
                taken).ledger
            ≡ true =
          unfold run_cycle claim_pending_outbox_events in ground (arith, idle, h) in
        let (claimed_yet, others) =
          publish_events-processing (map (claimed clock.claimed) to_send) 0 taken id looped in
        let apart : is_among id to_send ≡ false =
          cc (claimed-among clock.claimed id to_send, others) in
        let kept =
          change_events-other (claimed clock.claimed) id to_send found.outbox_events apart in
        let before : is_processing_at id found ≡ true =
          unfold claim_pending_outbox_events in ground (arith, claimed_yet, kept) in
        unfold recover_stale_processing_outbox_events in
        change_events-processing (put_back clock.started) id
          (stale_events (host.iso_of (host.time_ms clock.started -ℤ pos (timeout_sec * 1000)))
            w.ledger)
          w.ledger.outbox_events (λ e. refl) before

    -- A cycle of a worker that is not running already calls the publisher once with each event that
    -- can be claimed after the recovery, in the order of the claim, and with nothing else.
    pub run_cycle-sent :
        (run_cycle host options publish clock timeout_sec w).sent ≡ w.sent ++ map sent_for to_send
    run_cycle-sent =
        let taken : PublisherWorker = record w {
          ledger = (claim_pending_outbox_events (batch_size options) clock.claimed found).1;
          running = true;
        } in
        let all = publish_events-sent (map (claimed clock.claimed) to_send) 0 taken in
        let same = claimed-sent clock.claimed to_send in
        let q : (run_cycle host options publish clock timeout_sec w).sent
            ≡ (publish_events host options publish clock (map (claimed clock.claimed) to_send) 0
                taken).sent =
          unfold run_cycle claim_pending_outbox_events in ground (arith, idle) in
        cc (q, all, same)
