-- ===== src/Workers/ConsumerFrames.antt =====
-- What a run of src/application/services/event-consumer-runner.ts leaves to its handler.
use coin_manage.Base.{
  ℕ, zero, suc, ◌+◌, String, Option, none, some, ◌≡◌, refl, arith, str_take, inl, inr,
}
use coin_manage.Contracts.{Host}
use coin_manage.Ledger.Types.Events.{AttemptStatus, CheckpointStatus}
use coin_manage.Ledger.State.{InMemoryLedger, random_uuid}
use coin_manage.Ledger.Consumers.{
  append_event_consumer_attempt, append_event_consumer_dead_letter,
  upsert_event_consumer_checkpoint,
}
use coin_manage.Workers.Consumer.{
  RunnerInput, Outcome, Handler, Clock, message_of, note_attempt, note_checkpoint, note_dead_letter,
  give_up, attempts, run,
}
use coin_manage.Workers.ConsumerRuns.{Outcome-cases}

-- A handler that leaves the withdrawals, and the mark of a dead letter, which leaves the ledger.
module _ (host : Host) (clock : Clock) (input : RunnerInput) (handler : ℕ → Handler)
    (mark : Option String)
    (keeps : (n : ℕ) (l : InMemoryLedger) → (handler n l).1.withdrawals ≡ l.withdrawals) where
  abbrev act : Option Handler
  act = some (λ l. (Outcome.threw mark, l))

  note_attempt-withdrawals :
      (status : AttemptStatus) (m : Option String) (n : ℕ) (s : InMemoryLedger)
      → (note_attempt host clock input status m n s).withdrawals ≡ s.withdrawals
  unfolding note_attempt append_event_consumer_attempt random_uuid
  note_attempt-withdrawals status m n s = refl

  note_checkpoint-withdrawals :
      (status : CheckpointStatus) (n : ℕ) (s : InMemoryLedger)
      → (note_checkpoint host clock input status n s).withdrawals ≡ s.withdrawals
  unfolding note_checkpoint upsert_event_consumer_checkpoint
  note_checkpoint-withdrawals status n s = refl

  give_up-withdrawals :
      (message : String) (n : ℕ) (s : InMemoryLedger)
      → (give_up host clock input handler act message n s).1.withdrawals ≡ s.withdrawals
  unfolding give_up note_dead_letter append_event_consumer_dead_letter random_uuid note_checkpoint
      upsert_event_consumer_checkpoint
  give_up-withdrawals message n s = refl

  attempts-withdrawals :
      (left at : ℕ) (s : InMemoryLedger)
      → (attempts host clock input handler act left at s).ledger.withdrawals ≡ s.withdrawals
  unfolding attempts
  attempts-withdrawals zero at s = refl
  attempts-withdrawals (suc left) at s = elim (Outcome-cases (handler at s).0) [
    | inl e ↦
        let t = (handler at s).1 in
        let u = note_attempt host clock input AttemptStatus.succeeded none at t in
        ground (
          arith,
          e,
          keeps at s,
          note_attempt-withdrawals AttemptStatus.succeeded none at t,
          note_checkpoint-withdrawals CheckpointStatus.succeeded at u,
        )
    | inr (m, e) ↦
        let t = (handler at s).1 in
        let message = message_of m in
        let told = some (str_take 1000 message) in
        let u = note_attempt host clock input AttemptStatus.failed told at t in
        ground (
          arith,
          e,
          keeps at s,
          note_attempt-withdrawals AttemptStatus.failed told at t,
          give_up-withdrawals message at u,
          attempts-withdrawals left (at + 1) u,
        )
  ]

  pub run-withdrawals :
      (s : InMemoryLedger) → (run host clock input handler act s).ledger.withdrawals ≡ s.withdrawals
  unfolding run
  run-withdrawals s = ground (arith, attempts-withdrawals input.max_attempts 1 s)
