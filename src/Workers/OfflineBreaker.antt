-- ===== src/Workers/OfflineBreaker.antt =====
-- src/application/services/offline-pay-settlement-circuit-breaker.ts. `nowMs` is an argument; times are in
-- milliseconds since the epoch.
use coin_manage.Base.{
  ℕ, ◌+◌, ◌-◌, ◌*◌, ◌≤◌, min, length, ◌++◌, Bool, true, false, not, Option, none, some, List, [],
  ◌∷◌, ◌≡◌, refl, arith, leb, ltb, if◌then◌else◌,
}

pub record OfflinePaySettlementCircuitBreakerOptions : Type 0 where
  pub failure_threshold : ℕ
  pub open_cooldown_ms : ℕ

abbrev pub default_options : OfflinePaySettlementCircuitBreakerOptions
default_options = record { failure_threshold = 3; open_cooldown_ms = 5 * 60 * 1000 }

pub record OfflinePaySettlementCircuitState : Type 0 where
  pub is_open_now : Bool
  pub consecutive_failures : ℕ
  pub open_until_ms : Option ℕ
  pub cooldown_remaining_ms : ℕ

pub record OfflinePaySettlementCircuitBreaker : Type 0 where
  pub consecutive_failures : ℕ
  pub open_until_ms : Option ℕ

abbrev pub new_offline_breaker : OfflinePaySettlementCircuitBreaker
new_offline_breaker = record { consecutive_failures = 0; open_until_ms = none }

-- `Number.MAX_SAFE_INTEGER`
abbrev pub max_safe_integer : ℕ
max_safe_integer = 9007199254740991

unfoldable pub is_open : ℕ → OfflinePaySettlementCircuitBreaker → Bool
is_open now_ms b = elim b.open_until_ms [ none ↦ false | some until ↦ ltb now_ms until ]

unfoldable pub can_execute : ℕ → OfflinePaySettlementCircuitBreaker → Bool
can_execute now_ms b = not (is_open now_ms b)

-- `Boolean(this.openUntilMs)`: zero is falsy too.
abbrev pub is_set : Option ℕ → Bool
is_set none = false
is_set (some until) = ltb 0 until

unfoldable pub record_success :
    OfflinePaySettlementCircuitBreaker → Bool × OfflinePaySettlementCircuitBreaker
record_success b =
    (is_set b.open_until_ms, record { consecutive_failures = 0; open_until_ms = none })

-- `Math.max(0, until - now)` is the subtraction of natural numbers.
unfoldable pub snapshot : ℕ → OfflinePaySettlementCircuitBreaker → OfflinePaySettlementCircuitState
snapshot now_ms b = record {
  is_open_now = is_open now_ms b;
  consecutive_failures = b.consecutive_failures;
  open_until_ms = b.open_until_ms;
  cooldown_remaining_ms = elim b.open_until_ms [ none ↦ 0 | some until ↦ until - now_ms ];
}

pub record FailureReport : Type 0 where
  pub opened : Bool
  pub report : OfflinePaySettlementCircuitState

module _ (options : OfflinePaySettlementCircuitBreakerOptions) where
  unfoldable pub record_failure :
      ℕ → OfflinePaySettlementCircuitBreaker → FailureReport × OfflinePaySettlementCircuitBreaker
  record_failure now_ms b =
      let failures = min (b.consecutive_failures + 1) max_safe_integer in
      let opened = leb options.failure_threshold failures in
      let b' : OfflinePaySettlementCircuitBreaker = record {
        consecutive_failures = failures;
        open_until_ms =
            if opened then some (now_ms + options.open_cooldown_ms) else b.open_until_ms;
      } in
      (record { opened = opened; report = snapshot now_ms b' }, b')

  -- `n` failures in a row, at the times of the list.
  unfoldable pub record_failures :
      List ℕ → OfflinePaySettlementCircuitBreaker → OfflinePaySettlementCircuitBreaker
  record_failures [] b = b
  record_failures (now_ms ∷ times) b = record_failures times (record_failure now_ms b).1

-- A snapshot says that the breaker is open exactly where there is cooldown left, and then, and only
-- then, nothing may be executed.
pub snapshot-open :
    (now_ms : ℕ) (b : OfflinePaySettlementCircuitBreaker)
    → ((snapshot now_ms b).is_open_now ≡ ltb 0 (snapshot now_ms b).cooldown_remaining_ms)
      × (can_execute now_ms b ≡ not (ltb 0 (snapshot now_ms b).cooldown_remaining_ms))
unfolding snapshot can_execute is_open
snapshot-open now_ms b = (ground arith, ground arith)

module _ (options : OfflinePaySettlementCircuitBreakerOptions)
    (reachable : options.failure_threshold ≤ max_safe_integer) where
  failures_counted :
      (times : List ℕ) (last : ℕ) (b : OfflinePaySettlementCircuitBreaker)
      → options.failure_threshold ≤ b.consecutive_failures + length times + 1
      → b.consecutive_failures ≤ max_safe_integer
      → (record_failures options (times ++ last ∷ []) b).open_until_ms
        ≡ some (last + options.open_cooldown_ms)
  unfolding record_failures record_failure
  failures_counted [] last b h bound = ground (arith, reachable)
  failures_counted (t ∷ times) last b h bound =
      failures_counted times last (record_failure options t b).1 (ground (arith, reachable))
        (ground arith)

  -- Where the threshold is a safe integer: after failures in a row, as many as the threshold or more
  -- and however far apart, a new breaker lets something execute exactly when the cooldown after the
  -- last of them is over, and a success lets it execute at any time.
  pub can_execute_lem :
      (times : List ℕ) (last now_ms : ℕ)
      → options.failure_threshold ≤ length times + 1
      → let b = record_failures options (times ++ last ∷ []) new_offline_breaker in
        (can_execute now_ms b ≡ leb (last + options.open_cooldown_ms) now_ms)
        × (can_execute now_ms (record_success b).1 ≡ true)
  unfolding can_execute is_open record_success
  can_execute_lem times last now_ms h =
      let until =
        failures_counted times last new_offline_breaker (omega (arith, h)) (omega arith) in
      (ground (arith, until), refl)
