-- ===== src/Workers/Tests.antt =====
-- The workers at work on small inputs, and the theorems on them.
use coin_manage.Base.{
  ℕ, suc, ◌+◌, ◌-◌, ◌≤◌, true, false, none, some, List, [], ◌∷◌, ◌++◌, map, ◌≡◌, refl, arith, leb,
  length, All, concat, str_le,
}
use coin_manage.Base.Int.{pos, ◌+ℤ◌}
use coin_manage.Base.Map.{lookup, insert, values}
use coin_manage.Base.Action.{plain_error, err}
use coin_manage.Contracts.{build_deposit_state_changed_contract}
use coin_manage.Ledger.Types.Events.{Payload}
use coin_manage.Ledger.State.{InMemoryLedger}
use coin_manage.Ledger.Consumers.{has_succeeded_event_consumer_checkpoint}
use coin_manage.Ledger.Outbox.{
  claimable_events, claim_pending_outbox_events, recover_stale_processing_outbox_events,
}
use coin_manage.Ledger.Deposits.{apply_deposit}
use coin_manage.Ledger.Calls.{empty_ledger, Call, perform, run as run_ledger}
use coin_manage.Ledger.Tests.{host, ticks, today, deposit}
use coin_manage.Workers.Breakers.{
  BreakerOptions, BreakerCall, assert_callable, on_failure, on_success, state, step, steps,
  new_breaker, failures_since, all_fail, assert_callable-refuses, assert_callable-trips,
}
use coin_manage.Workers.OfflineBreaker.{
  default_options, can_execute, record_failures, record_success, new_offline_breaker,
  can_execute_lem,
}
use coin_manage.Workers.Consumer.{RunnerInput, Outcome, Handler, Clock, run}
use coin_manage.Workers.ConsumerRuns.{
  run-succeeds, run-slept, run-gives_up, IsGivenUp, EndsAs, after_dead_letter,
}
use coin_manage.Workers.Publisher.{
  PublisherOptions, CycleClock, Publish, PublisherWorker, sent_for, publish_events, run_cycle,
  recovered,
}
use coin_manage.Workers.PublisherCycles.{is_processing_at, run_cycle-processing, run_cycle-sent}

abbrev breaker_options : BreakerOptions
breaker_options = record { name = "alert"; threshold = 2; cooldown_ms = 60 }

abbrev breaker_calls : List BreakerCall
breaker_calls = BreakerCall.succeeds ∷ BreakerCall.fails 1 ∷ BreakerCall.fails 2 ∷ []

refused_at_five :
    (assert_callable breaker_options 5 (steps breaker_options breaker_calls new_breaker)).0
    ≡ err (plain_error "alert circuit is open")
unfolding assert_callable steps step on_failure on_success state
refused_at_five = refl

assert_callable-refuses_example : breaker_options.threshold ≤ failures_since 0 breaker_calls
assert_callable-refuses_example =
    assert_callable-refuses breaker_options breaker_calls 5 (plain_error "alert circuit is open")
      refused_at_five

assert_callable-trips_example :
    (assert_callable breaker_options 5
      (steps breaker_options (all_fail ((1 ∷ []) ++ 2 ∷ [])) new_breaker)).0
    ≡ err (plain_error (concat "alert" " circuit is open"))
assert_callable-trips_example =
    assert_callable-trips breaker_options (omega arith) (1 ∷ []) 2 5 (omega arith) (omega arith)

can_execute_lem_example :
    let b = record_failures default_options ((1 ∷ 2 ∷ []) ++ 900000 ∷ []) new_offline_breaker in
    (can_execute 900001 b ≡ leb (900000 + default_options.open_cooldown_ms) 900001)
    × (can_execute 900001 (record_success b).1 ≡ true)
can_execute_lem_example =
    can_execute_lem default_options (omega arith) (1 ∷ 2 ∷ []) 900000 900001 (omega arith)

abbrev clock : Clock
clock = record { now_iso = λ n. today; duration_ms = λ n. 5 }

abbrev event : RunnerInput
event = record {
  consumer_name = "mailer";
  event_type = "deposit.detected";
  event_key = "key";
  payload = Payload.json "{}";
  aggregate_id = none;
  max_attempts = 3;
  retry_base_delay_ms = 100;
  retry_max_delay_ms = 150;
}

-- It fails once, and then works.
abbrev second_time : ℕ → Handler
second_time (suc (suc n)) s = (Outcome.done, s)
second_time n s = (Outcome.threw (some "no reply"), s)

abbrev never : ℕ → Handler
never n s = (Outcome.threw (some "no reply"), s)

run-succeeds_example :
    let t = (run host clock event second_time none empty_ledger).ledger in
    (has_succeeded_event_consumer_checkpoint "mailer" "key" t ≡ true)
    × (run host clock event never none t
        ≡ record { outcome = Outcome.done; ledger = t; slept = [] })
run-succeeds_example =
    run-succeeds host clock event second_time none 2 empty_ledger clock never (omega arith)
      (omega arith) (λ l. refl)

run-slept_example :
    let slept = (run host clock event never none empty_ledger).slept in
    All (λ d. d ≤ 150) slept × (length slept ≤ 3 - 1)
run-slept_example = run-slept host clock event never none empty_ledger

new_event : has_succeeded_event_consumer_checkpoint "mailer" "key" empty_ledger ≡ false
unfolding has_succeeded_event_consumer_checkpoint lookup
new_event = refl

run-gives_up_example :
    (t : InMemoryLedger) × IsGivenUp host clock event never none "no reply" t
    × EndsAs host clock event never none
        (after_dead_letter host clock event never none t)
        (run host clock event never none empty_ledger)
run-gives_up_example =
    run-gives_up host clock event never none (λ n. some "no reply") (λ n l. refl) empty_ledger
      new_event (omega arith)

-- The event of a deposit, which a first cycle has claimed and not finished.
abbrev claimed_ledger : InMemoryLedger
claimed_ledger =
    run_ledger host
      ((today, Call.apply_deposit deposit) ∷ (today, Call.claim_pending_outbox_events 5) ∷ [])
      empty_ledger

abbrev publisher_options : PublisherOptions
publisher_options = record {
  batch_size = none;
  retry_base_delay_ms = none;
  retry_max_delay_ms = none;
  max_attempts = some 2;
}

abbrev accepts : Publish
accepts sent next = Outcome.done

abbrev cycle_clock : CycleClock
cycle_clock = record {
  started = today;
  claimed = today;
  ended = λ place. today;
  ended_ms = λ place. pos 0;
}

abbrev worker : PublisherWorker
worker = record { ledger = claimed_ledger; running = false; sent = [] }

still_processing :
    is_processing_at "|||" (run_cycle host publisher_options accepts cycle_clock 60 worker).ledger
    ≡ true
unfolding run_cycle publish_events recover_stale_processing_outbox_events
    claim_pending_outbox_events run_ledger perform apply_deposit
    build_deposit_state_changed_contract lookup insert values ticks str_le ◌+ℤ◌
still_processing = refl

run_cycle-processing_example : is_processing_at "|||" claimed_ledger ≡ true
run_cycle-processing_example =
    run_cycle-processing host publisher_options accepts cycle_clock 60 worker refl "|||"
      still_processing

abbrev fresh_worker : PublisherWorker
fresh_worker = record {
  ledger = run_ledger host ((today, Call.apply_deposit deposit) ∷ []) empty_ledger;
  running = false;
  sent = [];
}

run_cycle-sent_example :
    (run_cycle host publisher_options accepts cycle_clock 60 fresh_worker).sent
    ≡ []
      ++ map sent_for (
          claimable_events 100 today
            (recovered host publisher_options accepts cycle_clock 60 fresh_worker.ledger))
run_cycle-sent_example =
    run_cycle-sent host publisher_options accepts cycle_clock 60 fresh_worker refl
