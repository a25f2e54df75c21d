-- ===== src/Workers/ConsumerRuns.antt =====
-- What a run of src/application/services/event-consumer-runner.ts comes to.
use coin_manage.Base.{
  ℕ, zero, suc, ◌+◌, ◌-◌, ◌≤◌, ◌<◌, String, true, false, Option, none, some, [], ◌≡◌, refl, arith,
  leb, ltb, length, All, joined, str_take, inl, inr, ◌⊎◌, Bool-cases,
}
use mathlib.Core.Path.{subst}
use coin_manage.Base.Map.{lookup, lookup-insert_self}
use coin_manage.Contracts.{Host}
use coin_manage.Ledger.Types.Events.{
  AttemptStatus, CheckpointStatus, EventConsumerDeadLetter, EventConsumerCheckpoint,
}
use coin_manage.Ledger.State.{InMemoryLedger, random_uuid}
use coin_manage.Ledger.Consumers.{
  append_event_consumer_dead_letter, upsert_event_consumer_checkpoint,
  has_succeeded_event_consumer_checkpoint,
}
use coin_manage.Workers.Consumer.{
  RunnerInput, Outcome, Handler, Clock, RunEnd, message_of, delay_ms, note_attempt, note_checkpoint,
  note_dead_letter, give_up, attempts, run,
}

pub Outcome-cases :
    (o : Outcome) → (o ≡ Outcome.done) ⊎ ((m : Option String) × (o ≡ Outcome.threw m))
Outcome-cases Outcome.done = inl refl
Outcome-cases (Outcome.threw m) = inr (m, refl)

module _ (host : Host) (clock : Clock) (input : RunnerInput) where
  -- The checkpoint of the consumer and the event.
  abbrev pub checkpoint_of : InMemoryLedger → Option EventConsumerCheckpoint
  checkpoint_of s = lookup (joined input.consumer_name input.event_key) s.event_consumer_checkpoints

  note_checkpoint-lookup :
      (status : CheckpointStatus) (n : ℕ) (s : InMemoryLedger)
      → (c : EventConsumerCheckpoint) × (checkpoint_of (note_checkpoint host clock input status n s)
          ≡ some c)
        × (c.last_status ≡ status)
  unfolding note_checkpoint upsert_event_consumer_checkpoint
  note_checkpoint-lookup status n s = (
    _,
    lookup-insert_self (joined input.consumer_name input.event_key) _ s.event_consumer_checkpoints,
    refl,
  )

  succeeded-noted :
      (n : ℕ) (s : InMemoryLedger)
      → has_succeeded_event_consumer_checkpoint input.consumer_name input.event_key
          (note_checkpoint host clock input CheckpointStatus.succeeded n s)
        ≡ true
  unfolding has_succeeded_event_consumer_checkpoint
  succeeded-noted n s =
      let (c, found, status) = note_checkpoint-lookup CheckpointStatus.succeeded n s in
      ground (arith, found, status)

  module _ (handler : ℕ → Handler) (on_dead_letter : Option Handler) where
    attempts-succeed :
        (left at n : ℕ) (s : InMemoryLedger)
        → at ≤ n
        → n < at + left
        → at + left ≡ input.max_attempts + 1
        → ((l : InMemoryLedger) → (handler n l).0 ≡ Outcome.done)
        → has_succeeded_event_consumer_checkpoint input.consumer_name input.event_key
            (attempts host clock input handler on_dead_letter left at s).ledger
          ≡ true
    unfolding attempts
    attempts-succeed zero at n s le lt all works = absurd (omega (arith, le, lt))
    attempts-succeed (suc left) at n s le lt all works = elim (Outcome-cases (handler at s).0) [
      | inl ended ↦
          let t = note_attempt host clock input AttemptStatus.succeeded none at (handler at s).1 in
          ground (arith, ended, succeeded-noted at t)
      | inr (m, thrown) ↦
          let t = (handler at s).1 in
          let u =
            note_attempt host clock input AttemptStatus.failed (some (str_take 1000 (message_of m)))
              at t in
          let other : at < n = elim (Bool-cases (ltb at n)) [
            | inl b ↦ ground arith
            | inr b ↦
                let same : n ≡ at = ground (arith, le) in
                absurd (ground (arith, works s, same, thrown))
          ] in
          let rest =
            attempts-succeed left (at + 1) n u (omega (arith, other)) (omega (arith, lt))
              (omega (arith, all)) works in
          ground (arith, thrown, other, lt, all, rest)
    ]

    -- A run with a handler that succeeds in one of its attempts, whatever the ledger, leaves the
    -- event succeeded, for good: a further run, with whatever handler and at whatever time, does
    -- nothing.
    pub run-succeeds :
        (n : ℕ) (s : InMemoryLedger) (later : Clock) (again : ℕ → Handler)
        → 1 ≤ n
        → n ≤ input.max_attempts
        → ((l : InMemoryLedger) → (handler n l).0 ≡ Outcome.done)
        → let t = (run host clock input handler on_dead_letter s).ledger in
          (has_succeeded_event_consumer_checkpoint input.consumer_name input.event_key t ≡ true)
          × (run host later input again on_dead_letter t
              ≡ record { outcome = Outcome.done; ledger = t; slept = [] })
    unfolding run
    run-succeeds n s later again low high works =
        let done_before =
          has_succeeded_event_consumer_checkpoint input.consumer_name input.event_key s in
        let rest =
          attempts-succeed input.max_attempts 1 n s low (omega (arith, high)) (omega arith) works in
        elim (Bool-cases done_before) [
          | inl before ↦ (ground (arith, before), ground (arith, before))
          | inr first ↦ (ground (arith, first, rest), ground (arith, first, rest))
        ]

    attempts-slept :
        (left at : ℕ) (s : InMemoryLedger)
        → at + left ≡ input.max_attempts + 1
        → let slept = (attempts host clock input handler on_dead_letter left at s).slept in
          All (λ d. d ≤ input.retry_max_delay_ms) slept × (length slept ≤ left - 1)
    unfolding attempts
    attempts-slept zero at s all = (tt, omega arith)
    attempts-slept (suc left) at s all = elim (Outcome-cases (handler at s).0) [
      | inl ended ↦ ground (arith, ended)
      | inr (m, thrown) ↦
          let u =
            note_attempt host clock input AttemptStatus.failed (some (str_take 1000 (message_of m)))
              at (handler at s).1 in
          let (bounded, few) = attempts-slept left (at + 1) u (omega (arith, all)) in
          let small : delay_ms input at ≤ input.retry_max_delay_ms = omega arith in
          ground (arith, thrown, bounded, few, small)
    ]

    -- Whatever the handler does, a run sleeps fewer times than it may attempt, and never longer than
    -- the longest delay.
    pub run-slept :
        (s : InMemoryLedger)
        → let slept = (run host clock input handler on_dead_letter s).slept in
          All (λ d. d ≤ input.retry_max_delay_ms) slept × (length slept ≤ input.max_attempts - 1)
    unfolding run
    run-slept s =
        let (bounded, few) = attempts-slept input.max_attempts 1 s (omega arith) in
        ground (arith, bounded, few)

    -- What a run that gave up has written: the dead letter with the error `message` of the last
    -- attempt, and the checkpoint.
    pub record IsGivenUp (message : String) (t : InMemoryLedger) : Type 0 where
      pub letter :
          (id : String) × (d : EventConsumerDeadLetter) × (lookup id t.event_consumer_dead_letters
            ≡ some d)
          × (d.consumer_name ≡ input.consumer_name)
          × (d.event_key ≡ input.event_key)
          × (d.payload ≡ input.payload)
          × (d.error_message ≡ str_take 1000 message)
      pub checkpoint :
          (c : EventConsumerCheckpoint) × (checkpoint_of t ≡ some c)
          × (c.last_status ≡ CheckpointStatus.dead_lettered)

    abbrev pub EndsAs : Outcome × InMemoryLedger → RunEnd → Type 0
    EndsAs (o, l) e = (e.outcome ≡ o) × (e.ledger ≡ l)

    abbrev pub after_dead_letter : InMemoryLedger → Outcome × InMemoryLedger
    after_dead_letter t = elim on_dead_letter [ none ↦ (Outcome.done, t) | some act ↦ act t ]

    note_dead_letter-IsGivenUp :
        (message : String) (n : ℕ) (u : InMemoryLedger)
        → IsGivenUp message (
            note_checkpoint host clock input CheckpointStatus.dead_lettered n
              (note_dead_letter host clock input message n u))
    unfolding note_checkpoint upsert_event_consumer_checkpoint note_dead_letter
        append_event_consumer_dead_letter random_uuid
    note_dead_letter-IsGivenUp message n u = record {
      letter = (
        host.random_uuid u.issued,
        _,
        lookup-insert_self (host.random_uuid u.issued) _ u.event_consumer_dead_letters,
        refl,
        refl,
        refl,
        refl,
      );
      checkpoint = (
        _,
        lookup-insert_self (joined input.consumer_name input.event_key) _
            u.event_consumer_checkpoints,
        refl,
      );
    }

    module _ (thrown : ℕ → Option String)
        (throws : (n : ℕ) (l : InMemoryLedger) → (handler n l).0 ≡ Outcome.threw (thrown n)) where
      attempts-give_up :
          (left at : ℕ) (s : InMemoryLedger)
          → 1 ≤ left
          → at + left ≡ input.max_attempts + 1
          → (t : InMemoryLedger) × IsGivenUp (message_of (thrown input.max_attempts)) t
            × EndsAs
                (after_dead_letter t)
                (attempts host clock input handler on_dead_letter left at s)
      attempts-give_up zero at s some_left all = absurd (omega (arith, some_left))
      attempts-give_up (suc zero) at s some_left all =
          let e = throws at s in
          let u =
            note_attempt host clock input AttemptStatus.failed
              (some (str_take 1000 (message_of (thrown at)))) at (handler at s).1 in
          let last : at ≡ input.max_attempts = omega (arith, all) in
          let t =
            note_checkpoint host clock input CheckpointStatus.dead_lettered at
              (note_dead_letter host clock input (message_of (thrown at)) at u) in
          (
            t,
            subst (λ k. IsGivenUp (message_of (thrown k)) t) last
                (note_dead_letter-IsGivenUp (message_of (thrown at)) at u),
            unfold attempts give_up in ground (arith, e, last),
          )
      attempts-give_up (suc (suc left)) at s some_left all =
          let e = throws at s in
          let u =
            note_attempt host clock input AttemptStatus.failed
              (some (str_take 1000 (message_of (thrown at)))) at (handler at s).1 in
          let (t, gone, ended) =
            attempts-give_up (suc left) (at + 1) u (omega arith) (omega (arith, all)) in
          let more : leb input.max_attempts at ≡ false = ground (arith, all) in
          let q : attempts host clock input handler on_dead_letter (suc (suc left)) at s
              ≡ record (attempts host clock input handler on_dead_letter (suc left) (at + 1) u) {
                slept =
                    (attempts host clock input handler on_dead_letter (suc (suc left)) at s).slept;
              } =
            unfold attempts in ground (arith, e, more) in
          (t, gone, rw q ended)

      -- A run whose every attempt throws, for an event that has not succeeded before and with one
      -- attempt at least, ends with the dead letter of the last attempt's error and the checkpoint
      -- dead_lettered, and then with what is to happen on a dead letter.
      pub run-gives_up :
          (s : InMemoryLedger)
          → has_succeeded_event_consumer_checkpoint input.consumer_name input.event_key s ≡ false
          → 1 ≤ input.max_attempts
          → (t : InMemoryLedger) × IsGivenUp (message_of (thrown input.max_attempts)) t
            × EndsAs (after_dead_letter t) (run host clock input handler on_dead_letter s)
      unfolding run
      run-gives_up s new some_left =
          let (t, gone, ended) = attempts-give_up input.max_attempts 1 s some_left (omega arith) in
          (t, gone, rw new ended)
