-- ===== src/Ledger/Lifecycle/Limits.antt =====
-- The daily limit: what a user asked for on one day.
use coin_manage.Base.{
  ◌+◌, String, true, none, some, ◌≡◌, refl, arith, eq_iff, List, [], ◌∷◌, ◌==◌, map, if◌then◌else◌,
  filter, inl, inr, ◌&&◌, length, Bool-cases, All,
}
use coin_manage.Base.Int.{ℤ, pos, ◌+ℤ◌, ◌≤ℤ◌, int_laws}
use coin_manage.Base.Map.{
  Map, lookup, insert, values, sum_of, sum_of-insert, sum_of-insert_new, Every, Every-lookup,
}
use coin_manage.Money.{sum_big_int, sum_big_int-cons}
use coin_manage.Contracts.{Host}
use coin_manage.Ledger.Types.Funds.{Withdrawal}
use coin_manage.Ledger.State.{InMemoryLedger, counts_daily}
use coin_manage.Ledger.Requests.{day_of, get_daily_requested_withdrawal_amount}
use coin_manage.Ledger.Calls.{Call, perform, run, empty_ledger}
use coin_manage.Ledger.Solvency.{IsSound, IsDistinct, HasAmount}
use coin_manage.Ledger.Solvency.Run.{HasValidAmount, perform-IsSound, empty_ledger-IsSound}
use coin_manage.Ledger.Lifecycle.{
  Effect, quiet, requests, authorises, reviews, approves, broadcasts, confirms, fails, Replaces,
  requested, approvals_with,
}
use coin_manage.Ledger.Withdrawals.{approved_by}
use coin_manage.Ledger.Lifecycle.Run.{perform-Effect}

zero_add : (a : ℤ) → pos 0 +ℤ a ≡ a
zero_add a = omega int_laws

-- What a withdrawal adds to a user's sum for a day.
abbrev pub daily_share : String → String → Withdrawal → ℤ
daily_share user_id day w =
    if w.user_id == user_id
    then (if day_of w.created_at == day
        then (if counts_daily w.status then w.amount else pos 0)
        else pos 0)
    else pos 0

-- The amounts that `getDailyRequestedWithdrawalAmount` adds up.
abbrev daily_amounts : String → String → Map Withdrawal → List ℤ
daily_amounts user_id day m =
    map (λ (w : Withdrawal). w.amount)
      (filter (λ (w : Withdrawal). counts_daily w.status)
        (filter (λ (w : Withdrawal). day_of w.created_at == day)
          (filter (λ (w : Withdrawal). w.user_id == user_id) (values m))))

daily-sum :
    (user_id day : String) (m : Map Withdrawal)
    → sum_big_int (daily_amounts user_id day m) ≡ sum_of (daily_share user_id day) m
unfolding values sum_of
daily-sum user_id day [] = unfold sum_big_int in refl
daily-sum user_id day ((j, w) ∷ m) = ground (
  arith,
  sum_big_int-cons w.amount (daily_amounts user_id day m),
  zero_add (sum_of (daily_share user_id day) m),
  daily-sum user_id day m,
)

abbrev KeepsLimit : Host → InMemoryLedger → Type 0
KeepsLimit host s =
    (user_id day : String)
    → sum_of (daily_share user_id day) s.withdrawals ≤ℤ host.limits.daily_limit

shrinks : (new old a b bound : ℤ) → new +ℤ a ≡ old +ℤ b → b ≤ℤ a → old ≤ℤ bound → new ≤ℤ bound
shrinks new old a b bound sums less fits = grind int_laws

-- A withdrawal with the same terms counts for the day only if it did before.
less_share :
    (x x' : Withdrawal)
    → pos 0 ≤ℤ x.amount
    → x'.user_id ≡ x.user_id
    → x'.created_at ≡ x.created_at
    → x'.amount ≡ x.amount
    → (counts_daily x'.status ≡ true → counts_daily x.status ≡ true)
    → (user_id day : String) → daily_share user_id day x' ≤ℤ daily_share user_id day x
less_share x x' nonneg user created amount from user_id day =
    rw (user, created, amount)
      (elim (Bool-cases (counts_daily x'.status)) [
        | inl c ↦ let q : _ = from c in ground arith
        | inr c ↦ ground arith
      ])

module _ (host : Host) (s t : InMemoryLedger) (h : KeepsLimit host s) where
  -- A withdrawal that moves on keeps its share, or loses it.
  written-KeepsLimit :
      (id : String) (x x' : Withdrawal)
      → Every HasAmount s.withdrawals
      → lookup id s.withdrawals ≡ some x
      → t.withdrawals ≡ insert id x' s.withdrawals
      → x'.user_id ≡ x.user_id
      → x'.created_at ≡ x.created_at
      → x'.amount ≡ x.amount
      → (counts_daily x'.status ≡ true → counts_daily x.status ≡ true)
      → KeepsLimit host t
  written-KeepsLimit id x x' nonneg found set user created amount from user_id day =
      let less : daily_share user_id day x' ≤ℤ daily_share user_id day x =
        less_share x x' (Every-lookup HasAmount id x s.withdrawals nonneg found) user created amount
          from user_id day in
      rw set (
        shrinks _ _ _ _ _ (sum_of-insert (daily_share user_id day) id x' x s.withdrawals found) less
          (h user_id day))

  requested-KeepsLimit :
      (id : String) (x : Withdrawal)
      → lookup id s.withdrawals ≡ none
      → t.withdrawals ≡ insert id x s.withdrawals
      → get_daily_requested_withdrawal_amount x.user_id x.created_at s +ℤ x.amount
        ≤ℤ host.limits.daily_limit
      → KeepsLimit host t
  unfolding get_daily_requested_withdrawal_amount
  requested-KeepsLimit id x free set fits user_id day =
      let new : sum_of (daily_share user_id day) t.withdrawals
          ≡ sum_of (daily_share user_id day) s.withdrawals +ℤ daily_share user_id day x =
        rw set (sum_of-insert_new (daily_share user_id day) id x s.withdrawals free) in
      rw new (elim (Bool-cases (x.user_id == user_id && day_of x.created_at == day)) [
        | inl here ↦
            let u : x.user_id ≡ user_id = ground (arith, eq_iff x.user_id user_id) in
            let d : day_of x.created_at ≡ day = ground (arith, eq_iff (day_of x.created_at) day) in
            let sums : sum_big_int (daily_amounts user_id day s.withdrawals)
                ≡ sum_of (daily_share user_id day) s.withdrawals =
              daily-sum user_id day s.withdrawals in
            let fits2 : sum_big_int (daily_amounts user_id day s.withdrawals) +ℤ x.amount
                ≤ℤ host.limits.daily_limit =
              rw (u, d) at fits in
            elim (Bool-cases (counts_daily x.status)) [
              | inl c ↦
                  let share : daily_share user_id day x ≡ x.amount = ground arith in
                  rw (share, ← sums) fits2
              | inr c ↦
                  let share : daily_share user_id day x ≡ pos 0 = ground arith in
                  rw share (omega (int_laws, h user_id day))
            ]
        | inr other ↦
            let zero_share : daily_share user_id day x ≡ pos 0 = ground arith in
            rw zero_share (omega (int_laws, h user_id day))
      ])

module _ (host : Host) (distinct : IsDistinct host) (s t : InMemoryLedger) where
  replaced-KeepsLimit :
      {id : String} {x x' : Withdrawal}
      → IsSound host s
      → KeepsLimit host s
      → Replaces s t id x x'
      → x'.user_id ≡ x.user_id
      → x'.created_at ≡ x.created_at
      → x'.amount ≡ x.amount
      → (counts_daily x'.status ≡ true → counts_daily x.status ≡ true)
      → KeepsLimit host t
  replaced-KeepsLimit {id} {x} {x'} sound h step =
      written-KeepsLimit host s t h id x x' sound.amounts step.found step.withdrawals_set

  Effect-KeepsLimit :
      {now : String} → Effect host now s t → IsSound host s → KeepsLimit host s → KeepsLimit host t
  Effect-KeepsLimit (quiet same _ _) sound h = rw same h
  Effect-KeepsLimit {now} (requests input fits _ set _ _) sound h =
      requested-KeepsLimit host s t h _ (requested host input now s)
        (sound.unissued (s.issued + 1) (omega arith)) set fits
  Effect-KeepsLimit (authorises id p r x b step) sound h =
      replaced-KeepsLimit sound h step refl refl refl (ground arith)
  Effect-KeepsLimit (reviews id x b step) sound h =
      replaced-KeepsLimit sound h step refl refl refl (ground arith)
  Effect-KeepsLimit {now} (approves id a input x b c found set _ _) sound h =
      written-KeepsLimit host s t h id x
        (approved_by (length (approvals_with input a id now s)) now x) sound.amounts found set
        (ground arith) (ground arith) (ground arith) (ground arith)
  Effect-KeepsLimit (broadcasts id tx x b step) sound h =
      replaced-KeepsLimit sound h step refl refl refl (ground arith)
  Effect-KeepsLimit (confirms id x b step) sound h =
      replaced-KeepsLimit sound h step refl refl refl (ground arith)
  Effect-KeepsLimit (fails id reason x b step) sound h =
      replaced-KeepsLimit sound h step refl refl refl (ground arith)

run_from-KeepsLimit :
    (host : Host) (calls : List (String × Call)) (s : InMemoryLedger)
    → IsDistinct host
    → All (λ (c : String × Call). HasValidAmount c.1) calls
    → IsSound host s
    → KeepsLimit host s
    → KeepsLimit host (run host calls s)
unfolding run
run_from-KeepsLimit host [] s distinct v sound h = h
run_from-KeepsLimit host ((now, call) ∷ calls) s distinct v sound h =
    run_from-KeepsLimit host calls (perform host now call s) distinct v.1
      (perform-IsSound host distinct now call s v.0 sound)
      (Effect-KeepsLimit host distinct s (perform host now call s) (perform-Effect host now call s)
        sound h)

-- After any calls on a new ledger, what `getDailyRequestedWithdrawalAmount` gives for any user and
-- time is at most the daily limit. No deposit, transfer or request has a negative amount,
-- `randomUUID` never repeats itself, and the limit is not negative.
pub run-daily_limit :
    (host : Host) (calls : List (String × Call)) (user_id now : String)
    → IsDistinct host
    → pos 0 ≤ℤ host.limits.daily_limit
    → All (λ (c : String × Call). HasValidAmount c.1) calls
    → get_daily_requested_withdrawal_amount user_id now (run host calls empty_ledger)
      ≤ℤ host.limits.daily_limit
unfolding get_daily_requested_withdrawal_amount
run-daily_limit host calls user_id now distinct nonneg v =
    rw (daily-sum user_id (day_of now) (run host calls empty_ledger).withdrawals) (
      run_from-KeepsLimit host calls empty_ledger distinct v (empty_ledger-IsSound host)
        (λ u d. unfold sum_of in nonneg) user_id (day_of now))
