-- ===== src/Ledger/Repeats/Request.antt =====
-- src/ledger/in-memory-ledger.ts: a withdrawal that is requested again.
use coin_manage.Base.{ℕ, ◌+◌, String, true, some, ◌≡◌, refl, arith, truthy, Option-cases, inl, inr}
use coin_manage.Base.Map.{lookup, lookup-insert_self}
use coin_manage.Base.Action.{ok, Result-cases}
use coin_manage.Contracts.{Host}
use coin_manage.Ledger.Types.Funds.{Withdrawal, WithdrawalRequestResult}
use coin_manage.Ledger.State.{InMemoryLedger}
use coin_manage.Ledger.Requests.{
  WithdrawalInput, request_withdrawal, request_new, replay_request, record_request, known_id,
  check_limits, reserve_funds,
}
use coin_manage.Ledger.Frames.{check_limits-frame, reserve_funds-frame}
use coin_manage.Ledger.Lifecycle.{requested}

module _ (host : Host) (input : WithdrawalInput) (now : String) (s : InMemoryLedger) where
  request_new-known :
      (r : WithdrawalRequestResult)
      → ((n : ℕ) → truthy (host.random_uuid n) ≡ true)
      → (request_new host input now s).0 ≡ ok r
      → (known_id (
            lookup input.idempotency_key
              (request_new host input now s).1.withdrawal_by_idempotency_key)
          ≡ some (host.random_uuid (s.issued + 1)))
        × (lookup (host.random_uuid (s.issued + 1)) (request_new host input now s).1.withdrawals
            ≡ some r.withdrawal)
  unfolding request_new record_request
  request_new-known r named e = elim (Result-cases (check_limits host input now s).0) [
    | inr (x, c) ↦ ground arith
    | inl (_, c) ↦ elim (Result-cases (reserve_funds input.user_id input.amount now s).0) [
      | inr (x, c2) ↦ ground (
        arith,
        check_limits-frame host input now s,
        reserve_funds-frame input.user_id input.amount now s,
      )
      | inl (_, c2) ↦ ground (
        arith,
        check_limits-frame host input now s,
        reserve_funds-frame input.user_id input.amount now s,
        named (s.issued + 1),
        lookup-insert_self input.idempotency_key (host.random_uuid (s.issued + 1))
            s.withdrawal_by_idempotency_key,
        lookup-insert_self (host.random_uuid (s.issued + 1)) (requested host input now s)
            s.withdrawals,
      )
    ]
  ]

  replayed :
      (t : InMemoryLedger) (id : String) (w : Withdrawal) (retry : WithdrawalInput) (later : String)
      → retry.idempotency_key ≡ input.idempotency_key
      → known_id (lookup input.idempotency_key t.withdrawal_by_idempotency_key) ≡ some id
      → lookup id t.withdrawals ≡ some w
      → request_withdrawal host retry later t
        ≡ (ok (record { withdrawal = w; duplicated = true }), t)
  replayed t id w retry later same k e =
      let known : known_id (lookup retry.idempotency_key t.withdrawal_by_idempotency_key)
          ≡ some id =
        rw same k in
      unfold request_withdrawal replay_request in
      rw (known, request_withdrawal, e, replay_request) refl

  replay-found :
      (id : String) (r : WithdrawalRequestResult)
      → replay_request id s ≡ ok r
      → lookup id s.withdrawals ≡ some r.withdrawal
  unfolding replay_request
  replay-found id r e = ground arith

  -- Where `randomUUID` gives no empty id: after `requestWithdrawal` returned, a call with the same
  -- idempotency key changes nothing, and answers with the same withdrawal as a duplicate.
  pub request_withdrawal-repeat :
      (r : WithdrawalRequestResult) (retry : WithdrawalInput) (later : String)
      → ((n : ℕ) → truthy (host.random_uuid n) ≡ true)
      → (request_withdrawal host input now s).0 ≡ ok r
      → retry.idempotency_key ≡ input.idempotency_key
      → request_withdrawal host retry later (request_withdrawal host input now s).1 ≡ (
        ok (record { withdrawal = r.withdrawal; duplicated = true }),
        (request_withdrawal host input now s).1,
      )
  request_withdrawal-repeat r retry later named e same =
      elim (Option-cases
        (known_id (lookup input.idempotency_key s.withdrawal_by_idempotency_key))) [
          | inr (id, k) ↦
              let q : request_withdrawal host input now s ≡ (replay_request id s, s) =
                unfold request_withdrawal in rw (k, request_withdrawal) refl in
              let old : replay_request id s ≡ ok r = rw q at e in
              rw q (replayed s id r.withdrawal retry later same k (replay-found id r old))
          | inl k ↦
              let q : request_withdrawal host input now s ≡ request_new host input now s =
                unfold request_withdrawal in rw (k, request_withdrawal) refl in
              let known = request_new-known r named (rw q at e) in
              rw q (
                replayed (request_new host input now s).1 (host.random_uuid (s.issued + 1))
                  r.withdrawal retry later same known.0 known.1)
        ]
