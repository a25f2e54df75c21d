-- ===== src/Ledger/Lifecycle/Effects.antt =====
-- Each method's step in the life of the withdrawals.
use coin_manage.Base.{
  String, true, not, ◌&&◌, some, none, ◌≡◌, arith, inl, inr, ap, ◌⊎◌, Option, Option-cases,
  Bool-cases,
}
use coin_manage.Base.Int.{◌+ℤ◌, ◌≤ℤ◌}
use coin_manage.Base.Action.{Error, ok, err, Result-cases}
use coin_manage.Base.Map.{lookup}
use coin_manage.Contracts.{Host}
use coin_manage.Ledger.Types.Funds.{Withdrawal, LedgerTransaction}
use coin_manage.Ledger.Types.Records.{NetworkFee}
use coin_manage.Ledger.State.{InMemoryLedger, is_active}
use coin_manage.Ledger.Requests.{
  get_daily_requested_withdrawal_amount, WithdrawalInput, check_limits, reserve_funds,
  record_request, request_new, request_withdrawal, known_id,
}
use coin_manage.Ledger.Withdrawals.{
  ApprovalInput, approve_withdrawal, approved_already, broadcast_withdrawal, confirm_withdrawal,
  confirm_withdrawal_external_auth, fail_withdrawal, is_approved, is_broadcasted, is_pending_admin,
  is_reserved, mark_withdrawal_review_required, settle_account, settle_transaction, released,
  refunded, completed_at, failed_for,
}
use coin_manage.Ledger.Frames.{check_limits-frame, settle_account-frame, reserve_funds-frame}
use coin_manage.Ledger.Lifecycle.{
  Effect, quiet, requests, authorises, reviews, approves, broadcasts, confirms, fails, Replaces,
  approvals_of,
}

-- A step that changes no withdrawal and no approval.
quiet_as :
    {host : Host} {now : String} (s : InMemoryLedger) {t : InMemoryLedger}
    → t ≡ s
    → Effect host now s t
quiet_as s same = quiet (ground arith) (ground arith) (ground arith)

module _ {host : Host} {now : String} (s : InMemoryLedger) {t : InMemoryLedger} where
  -- A step that changes the accounts at most.
  quiet_funds : t ≡ record s { accounts = t.accounts } → Effect host now s t
  quiet_funds same =
      quiet (ap (λ (x : InMemoryLedger). x.withdrawals) same)
        (ap (λ (x : InMemoryLedger). x.approvals_by_withdrawal_id) same) (ground arith)

module _ (host : Host) (id now : String) (s : InMemoryLedger) where
  module _ (w : Withdrawal) (e : lookup id s.withdrawals ≡ some w) where
    -- A confirmation that the account or the transaction stops.
    confirm_stops :
        (fee : Option NetworkFee)
        → is_broadcasted w.status ≡ true
        → ((x : Error) × ((settle_account w.user_id w.amount now (released w.amount now) s).0
              ≡ err x))
          ⊎ (lookup w.ledger_tx_id s.transactions ≡ none)
        → (confirm_withdrawal host id fee now s).1
          ≡ (settle_account w.user_id w.amount now (released w.amount now) s).1
    unfolding confirm_withdrawal settle_transaction
    confirm_stops fee b stop =
        ground (arith, settle_account-frame w.user_id w.amount now s (released w.amount now))

    confirm_goes_on :
        (fee : Option NetworkFee)
        → is_broadcasted w.status ≡ true
        → (settle_account w.user_id w.amount now (released w.amount now) s).0 ≡ ok tt
        → (tx : LedgerTransaction) → lookup w.ledger_tx_id s.transactions ≡ some tx
        → Replaces s (confirm_withdrawal host id fee now s).1 id w (completed_at now w)
    unfolding confirm_withdrawal settle_transaction
    confirm_goes_on fee b r tx found =
        ground (arith, settle_account-frame w.user_id w.amount now s (released w.amount now))

    fail_stops :
        (reason : String)
        → is_active w.status ≡ true
        → ((x : Error) × ((settle_account w.user_id w.amount now (refunded w.amount now) s).0
              ≡ err x))
          ⊎ (lookup w.ledger_tx_id s.transactions ≡ none)
        → (fail_withdrawal host id reason now s).1
          ≡ (settle_account w.user_id w.amount now (refunded w.amount now) s).1
    unfolding fail_withdrawal settle_transaction
    fail_stops reason b stop =
        ground (arith, settle_account-frame w.user_id w.amount now s (refunded w.amount now))

    fail_goes_on :
        (reason : String)
        → is_active w.status ≡ true
        → (settle_account w.user_id w.amount now (refunded w.amount now) s).0 ≡ ok tt
        → (tx : LedgerTransaction) → lookup w.ledger_tx_id s.transactions ≡ some tx
        → Replaces s (fail_withdrawal host id reason now s).1 id w (failed_for reason now w)
    unfolding fail_withdrawal settle_transaction
    fail_goes_on reason b r tx found =
        ground (arith, settle_account-frame w.user_id w.amount now s (refunded w.amount now))

  pub confirm_withdrawal-Effect :
      (fee : Option NetworkFee) → Effect host now s (confirm_withdrawal host id fee now s).1
  confirm_withdrawal-Effect fee = elim (Option-cases (lookup id s.withdrawals)) [
    | inl e ↦ quiet_as s (unfold confirm_withdrawal in ground arith)
    | inr (w, e) ↦ elim (Bool-cases (is_broadcasted w.status)) [
      | inr b ↦ quiet_as s (unfold confirm_withdrawal in ground arith)
      | inl b ↦
          elim (Result-cases (settle_account w.user_id w.amount now (released w.amount now) s).0) [
            | inr r ↦ quiet_funds s (
                rw (confirm_stops w e fee b (inl r))
                  (settle_account-frame w.user_id w.amount now s (released w.amount now)))
            | inl (_, r) ↦ elim (Option-cases (lookup w.ledger_tx_id s.transactions)) [
              | inl none_there ↦ quiet_funds s (
                  rw (confirm_stops w e fee b (inr none_there))
                    (settle_account-frame w.user_id w.amount now s (released w.amount now)))
              | inr (tx, found) ↦ confirms id w b (confirm_goes_on w e fee b r tx found)
            ]
          ]
    ]
  ]

  pub fail_withdrawal-Effect :
      (reason : String) → Effect host now s (fail_withdrawal host id reason now s).1
  fail_withdrawal-Effect reason = elim (Option-cases (lookup id s.withdrawals)) [
    | inl e ↦ quiet_as s (unfold fail_withdrawal in ground arith)
    | inr (w, e) ↦ elim (Bool-cases (is_active w.status)) [
      | inr b ↦ quiet_as s (unfold fail_withdrawal in ground arith)
      | inl b ↦
          elim (Result-cases (settle_account w.user_id w.amount now (refunded w.amount now) s).0) [
            | inr r ↦ quiet_funds s (
                rw (fail_stops w e reason b (inl r))
                  (settle_account-frame w.user_id w.amount now s (refunded w.amount now)))
            | inl (_, r) ↦ elim (Option-cases (lookup w.ledger_tx_id s.transactions)) [
              | inl none_there ↦ quiet_funds s (
                  rw (fail_stops w e reason b (inr none_there))
                    (settle_account-frame w.user_id w.amount now s (refunded w.amount now)))
              | inr (tx, found) ↦ fails id reason w b (fail_goes_on w e reason b r tx found)
            ]
          ]
    ]
  ]

  pub confirm_withdrawal_external_auth-Effect :
      (provider request_id : String)
      → Effect host now s (confirm_withdrawal_external_auth host id provider request_id now s).1
  unfolding confirm_withdrawal_external_auth
  confirm_withdrawal_external_auth-Effect provider request_id =
      elim (Option-cases (lookup id s.withdrawals)) [
        | inl e ↦ quiet_as s (ground arith)
        | inr (w, e) ↦ elim (Bool-cases (is_reserved w.status)) [
          | inr b ↦ quiet_as s (ground arith)
          | inl b ↦ authorises id provider request_id w b (ground arith)
        ]
      ]

  pub mark_withdrawal_review_required-Effect :
      Effect host now s (mark_withdrawal_review_required id now s).1
  unfolding mark_withdrawal_review_required
  mark_withdrawal_review_required-Effect = elim (Option-cases (lookup id s.withdrawals)) [
    | inl e ↦ quiet_as s (ground arith)
    | inr (w, e) ↦ elim (Bool-cases (is_pending_admin w.status)) [
      | inr b ↦ quiet_as s (ground arith)
      | inl b ↦ reviews id w b (ground arith)
    ]
  ]

  pub broadcast_withdrawal-Effect :
      (tx_hash : String) → Effect host now s (broadcast_withdrawal host id tx_hash now s).1
  unfolding broadcast_withdrawal
  broadcast_withdrawal-Effect tx_hash = elim (Option-cases (lookup id s.withdrawals)) [
    | inl e ↦ quiet_as s (ground arith)
    | inr (w, e) ↦ elim (Bool-cases (is_approved w.status)) [
      | inr b ↦ quiet_as s (ground arith)
      | inl b ↦ broadcasts id tx_hash w b (ground arith)
    ]
  ]

  pub approve_withdrawal-Effect :
      (input : ApprovalInput) → Effect host now s (approve_withdrawal host id input now s).1
  unfolding approve_withdrawal
  approve_withdrawal-Effect input = elim (Option-cases (lookup id s.withdrawals)) [
    | inl e ↦ quiet_as s (ground arith)
    | inr (w, e) ↦
        elim (Bool-cases (
          is_pending_admin w.status && not (approved_already input.admin_id (approvals_of id s)))) [
            | inr b ↦ quiet_as s (ground arith)
            | inl b ↦
                approves id (host.random_uuid s.issued) input w (ground arith) (ground arith) e
                  (ground arith) (ground arith) (ground arith)
          ]
  ]

module _ (host : Host) (input : WithdrawalInput) (now : String) (s : InMemoryLedger) where
  -- A request past the checks keeps within both limits.
  check_limits-bounds :
      (check_limits host input now s).0 ≡ ok tt
      → (get_daily_requested_withdrawal_amount input.user_id now s +ℤ input.amount
          ≤ℤ host.limits.daily_limit)
        × (input.amount ≤ℤ host.limits.single_limit)
  unfolding check_limits
  check_limits-bounds c = ground arith

  request_stops :
      (x : Error)
      → ((check_limits host input now s).0 ≡ err x)
        ⊎ ((reserve_funds input.user_id input.amount now s).0 ≡ err x)
      → (request_new host input now s).1
        ≡ record s { accounts = (request_new host input now s).1.accounts }
  unfolding request_new record_request
  request_stops x stop = ground (
    arith,
    check_limits-frame host input now s,
    reserve_funds-frame input.user_id input.amount now s,
  )

  request_goes_on :
      (check_limits host input now s).0 ≡ ok tt
      → (reserve_funds input.user_id input.amount now s).0 ≡ ok tt
      → Effect host now s (request_new host input now s).1
  unfolding request_new record_request
  request_goes_on c r =
      requests input (check_limits-bounds c).0 (check_limits-bounds c).1
        (ground (
          arith,
          check_limits-frame host input now s,
          reserve_funds-frame input.user_id input.amount now s,
        ))
        (ground (
          arith,
          check_limits-frame host input now s,
          reserve_funds-frame input.user_id input.amount now s,
        ))
        (ground (
          arith,
          check_limits-frame host input now s,
          reserve_funds-frame input.user_id input.amount now s,
        ))

  request_new-Effect : Effect host now s (request_new host input now s).1
  request_new-Effect = elim (Result-cases (check_limits host input now s).0) [
    | inr (x, c) ↦ quiet_funds s (request_stops x (inl c))
    | inl (_, c) ↦ elim (Result-cases (reserve_funds input.user_id input.amount now s).0) [
      | inr (x, r) ↦ quiet_funds s (request_stops x (inr r))
      | inl (_, r) ↦ request_goes_on c r
    ]
  ]

  pub request_withdrawal-Effect : Effect host now s (request_withdrawal host input now s).1
  request_withdrawal-Effect =
      elim (Option-cases
        (known_id (lookup input.idempotency_key s.withdrawal_by_idempotency_key))) [
          | inr (r, e) ↦ quiet_as s (unfold request_withdrawal in rw (e, request_withdrawal))
          | inl e ↦ unfold request_withdrawal in rw (e, request_withdrawal) request_new-Effect
        ]
