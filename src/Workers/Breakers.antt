-- ===== src/Workers/Breakers.antt =====
-- src/application/services/simple-circuit-breaker.ts. `Date.now()` is an argument; times are in
-- milliseconds since the epoch.
use coin_manage.Base.{
  ℕ, ◌+◌, ◌≤◌, ◌<◌, String, Bool, true, false, ◌||◌, Option, none, some, List, [], ◌∷◌, ◌++◌, ◌≡◌,
  arith, map, length, leb, ltb, is_some, concat, if◌then◌else◌,
}
use coin_manage.Base.Action.{Error, plain_error, Result, ok, err}

pub record BreakerOptions : Type 0 where
  pub name : String
  pub threshold : ℕ
  pub cooldown_ms : ℕ

pub record SimpleCircuitBreaker : Type 0 where
  pub failures : ℕ
  pub opened_at_ms : Option ℕ

pub data BreakerState : Type 0 where
  closed opened : BreakerState

-- The fields of a new breaker.
abbrev pub new_breaker : SimpleCircuitBreaker
new_breaker = record { failures = 0; opened_at_ms = none }

abbrev pub is_opened : BreakerState → Bool
is_opened BreakerState.opened = true
is_opened BreakerState.closed = false

module _ (options : BreakerOptions) where
  -- `get state()`: where the cooldown is over, reading it closes the breaker.
  unfoldable pub state : ℕ → SimpleCircuitBreaker → BreakerState × SimpleCircuitBreaker
  state now_ms b = elim b.opened_at_ms [
    | none ↦ (BreakerState.closed, b)
    | some opened_at_ms ↦
        if leb (opened_at_ms + options.cooldown_ms) now_ms
        then (BreakerState.closed, record { failures = 0; opened_at_ms = none })
        else (BreakerState.opened, b)
  ]

  unfoldable pub assert_callable :
      ℕ → SimpleCircuitBreaker → Result (Unit {0}) × SimpleCircuitBreaker
  assert_callable now_ms b =
      let (found, b') = state now_ms b in
      (
        if is_opened found
            then err (plain_error (concat options.name " circuit is open"))
            else ok tt,
        b',
      )

  unfoldable pub on_success : SimpleCircuitBreaker → Bool × SimpleCircuitBreaker
  on_success b =
      (is_some b.opened_at_ms || ltb 0 b.failures, record { failures = 0; opened_at_ms = none })

  unfoldable pub on_failure : ℕ → SimpleCircuitBreaker → Bool × SimpleCircuitBreaker
  on_failure now_ms b =
      let failures = b.failures + 1 in
      let b' : SimpleCircuitBreaker = record {
        failures = failures;
        opened_at_ms = if leb options.threshold failures then some now_ms else b.opened_at_ms;
      } in
      let (found, b'') = state now_ms b' in
      if is_some b.opened_at_ms then (false, b') else (is_opened found, b'')

  unfoldable pub failure_count : SimpleCircuitBreaker → ℕ
  failure_count b = b.failures

-- What is asked of a breaker, at a time.
pub data BreakerCall : Type 0 where
  asserts fails : ℕ → BreakerCall
  succeeds : BreakerCall

module _ (options : BreakerOptions) where
  unfoldable pub step : BreakerCall → SimpleCircuitBreaker → SimpleCircuitBreaker
  step (BreakerCall.asserts now_ms) b = (assert_callable options now_ms b).1
  step (BreakerCall.fails now_ms) b = (on_failure options now_ms b).1
  step BreakerCall.succeeds b = (on_success options b).1

  unfoldable pub steps : List BreakerCall → SimpleCircuitBreaker → SimpleCircuitBreaker
  steps [] b = b
  steps (call ∷ calls) b = steps calls (step call b)

-- The failures after the last success, those of `n` before the calls included.
unfoldable pub failures_since : ℕ → List BreakerCall → ℕ
failures_since n [] = n
failures_since n (BreakerCall.asserts now_ms ∷ calls) = failures_since n calls
failures_since n (BreakerCall.fails now_ms ∷ calls) = failures_since (n + 1) calls
failures_since n (BreakerCall.succeeds ∷ calls) = failures_since 0 calls

module _ (options : BreakerOptions) where
  -- An open breaker has counted its threshold, and no count is over the failures that there were.
  record IsCounting (b : SimpleCircuitBreaker) (n : ℕ) : Type 0 where
    counted : b.failures ≤ n
    reached : is_some b.opened_at_ms ≡ true → options.threshold ≤ b.failures

  step-IsCounting :
      (call : BreakerCall) (b : SimpleCircuitBreaker) (n : ℕ)
      → IsCounting b n
      → IsCounting (step options call b) (failures_since n (call ∷ []))
  unfolding step assert_callable on_failure on_success state failures_since
  step-IsCounting (BreakerCall.asserts now_ms) b n h = record {
    counted = ground (arith, h.counted);
    reached = λ o. ground (arith, h.reached);
  }
  step-IsCounting (BreakerCall.fails now_ms) b n h = record {
    counted = ground (arith, h.counted);
    reached = λ o. ground (arith, h.reached);
  }
  step-IsCounting BreakerCall.succeeds b n h = record {
    counted = ground arith;
    reached = λ o. ground arith;
  }

  steps-IsCounting :
      (calls : List BreakerCall) (b : SimpleCircuitBreaker) (n : ℕ)
      → IsCounting b n
      → IsCounting (steps options calls b) (failures_since n calls)
  unfolding steps failures_since
  steps-IsCounting [] b n h = h
  steps-IsCounting (BreakerCall.asserts now_ms ∷ calls) b n h =
      steps-IsCounting calls _ n (step-IsCounting (BreakerCall.asserts now_ms) b n h)
  steps-IsCounting (BreakerCall.fails now_ms ∷ calls) b n h =
      steps-IsCounting calls _ (n + 1) (step-IsCounting (BreakerCall.fails now_ms) b n h)
  steps-IsCounting (BreakerCall.succeeds ∷ calls) b n h =
      steps-IsCounting calls _ 0 (step-IsCounting BreakerCall.succeeds b n h)

  -- After any calls of a new breaker, it refuses a call only where at least its threshold of failures
  -- came after the last success.
  pub assert_callable-refuses :
      (calls : List BreakerCall) (now_ms : ℕ) (x : Error)
      → (assert_callable options now_ms (steps options calls new_breaker)).0 ≡ err x
      → options.threshold ≤ failures_since 0 calls
  unfolding assert_callable state
  assert_callable-refuses calls now_ms x e =
      let start : IsCounting new_breaker 0 = record {
        counted = omega arith;
        reached = λ o. absurd (ground arith);
      } in
      let h = steps-IsCounting calls new_breaker 0 start in ground (arith, h.counted, h.reached)

abbrev pub all_fail : List ℕ → List BreakerCall
all_fail times = map (λ t. BreakerCall.fails t) times

module _ (options : BreakerOptions) (cools : 0 < options.cooldown_ms) where
  failed_once :
      (t : ℕ) (b : SimpleCircuitBreaker)
      → step options (BreakerCall.fails t) b ≡ record {
        failures = b.failures + 1;
        opened_at_ms = if leb options.threshold (b.failures + 1) then some t else b.opened_at_ms;
      }
  unfolding step on_failure state
  failed_once t b = ground (arith, cools)

  failed_times :
      (times : List ℕ) (last : ℕ) (b : SimpleCircuitBreaker)
      → options.threshold ≤ b.failures + length times + 1
      → (steps options (all_fail (times ++ last ∷ [])) b).opened_at_ms ≡ some last
  unfolding steps
  failed_times [] last b h = rw (failed_once last b) (ground arith)
  failed_times (t ∷ times) last b h =
      failed_times times last (step options (BreakerCall.fails t) b)
        (rw (failed_once t b) (omega (arith, h)))

  -- Where the cooldown is positive, failures in a row, as many as the threshold or more, leave a new
  -- breaker refusing every call until the cooldown after the last of them is over.
  pub assert_callable-trips :
      (times : List ℕ) (last now_ms : ℕ)
      → options.threshold ≤ length times + 1
      → now_ms < last + options.cooldown_ms
      → (assert_callable options now_ms
          (steps options (all_fail (times ++ last ∷ [])) new_breaker)).0
        ≡ err (plain_error (concat options.name " circuit is open"))
  unfolding assert_callable state
  assert_callable-trips times last now_ms h early =
      ground (arith, failed_times times last new_breaker, early)
