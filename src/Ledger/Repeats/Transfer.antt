-- ===== src/Ledger/Repeats/Transfer.antt =====
-- src/ledger/in-memory-ledger.ts: a transfer that is made again.
use coin_manage.Base.{
  ℕ, ◌+◌, String, true, false, some, ◌≡◌, refl, arith, eq_iff, ◌==◌, Option-cases, Bool-cases, inl,
  inr,
}
use mathlib.Core.Path.{subst}
use coin_manage.Base.Map.{lookup, insert, lookup-insert, lookup-insert_self}
use coin_manage.Base.Action.{ok, Result-cases}
use coin_manage.Contracts.{Host}
use coin_manage.Ledger.Types.Funds.{TransactionType, TransferResult}
use coin_manage.Ledger.State.{InMemoryLedger, TransferIdempotencyRecord}
use coin_manage.Ledger.Transfers.{
  transfer_tx, TransferInput, transfer, transfer_new, replay_transfer, record_transfer, move_funds,
}
use coin_manage.Ledger.Frames.{move_funds-frame}
use coin_manage.Ledger.Solvency.{IsDistinct}

module _ (host : Host) (distinct : IsDistinct host) (input : TransferInput) (now : String)
    (s : InMemoryLedger) where
  transferred :
      (t : InMemoryLedger) (r : TransferResult) (k : TransferIdempotencyRecord)
      (retry : TransferInput) (later : String)
      → retry.idempotency_key ≡ input.idempotency_key
      → lookup input.idempotency_key t.transfer_by_idempotency_key ≡ some k
      → lookup k.from_tx_id t.transactions ≡ some r.from_tx
      → lookup k.to_tx_id t.transactions ≡ some r.to_tx
      → transfer host retry later t ≡ (ok (record r { duplicated = true }), t)
  transferred t r k retry later same e from to =
      let known : lookup retry.idempotency_key t.transfer_by_idempotency_key ≡ some k = rw same e in
      unfold transfer replay_transfer in rw (known, transfer, replay_transfer, from, to) refl

  apart :
      (t : InMemoryLedger) → (host.random_uuid (t.issued + 1) == host.random_uuid t.issued) ≡ false
  apart t = elim (Bool-cases (host.random_uuid (t.issued + 1) == host.random_uuid t.issued)) [
    | inr other ↦ other
    | inl same ↦
        let q : t.issued + 1 ≡ t.issued =
          distinct (t.issued + 1) t.issued (
            ground (arith, eq_iff (host.random_uuid (t.issued + 1)) (host.random_uuid t.issued))) in
        ground arith
  ]

  -- What the records of a transfer are found under.
  IsTransferred : ℕ → InMemoryLedger → TransferResult → Type 0
  IsTransferred n t r =
      (lookup input.idempotency_key t.transfer_by_idempotency_key
        ≡ some (record { from_tx_id = host.random_uuid n; to_tx_id = host.random_uuid (n + 1) }))
      × (lookup (host.random_uuid n) t.transactions ≡ some r.from_tx)
      × (lookup (host.random_uuid (n + 1)) t.transactions ≡ some r.to_tx)

  record_transfer-IsTransferred :
      (t : InMemoryLedger) (r : TransferResult)
      → (record_transfer host input now t).0 ≡ ok r
      → IsTransferred t.issued (record_transfer host input now t).1 r
  unfolding record_transfer IsTransferred
  record_transfer-IsTransferred t r e =
      let A = host.random_uuid t.issued in
      let B = host.random_uuid (t.issued + 1) in
      let from =
        transfer_tx TransactionType.internal_transfer_out A input.from_user_id input.to_user_id
          input now in
      let to =
        transfer_tx TransactionType.internal_transfer_in B input.to_user_id input.from_user_id input
          now in
      let ids : TransferIdempotencyRecord = record { from_tx_id = A; to_tx_id = B } in
      ground (
        arith,
        apart t,
        lookup-insert B A to (insert A from t.transactions),
        lookup-insert_self A from t.transactions,
        lookup-insert_self B to (insert A from t.transactions),
        lookup-insert_self input.idempotency_key ids t.transfer_by_idempotency_key,
      )

  transfer_new-known :
      (r : TransferResult)
      → (transfer_new host input now s).0 ≡ ok r
      → IsTransferred s.issued (transfer_new host input now s).1 r
  transfer_new-known r e = elim (Bool-cases (input.from_user_id == input.to_user_id)) [
    | inl same ↦ unfold transfer_new in ground arith
    | inr other ↦ elim (Result-cases (move_funds input now s).0) [
      | inr (x, m) ↦ unfold transfer_new in ground arith
      | inl (_, m) ↦
          let t = (move_funds input now s).1 in
          let q : transfer_new host input now s ≡ record_transfer host input now t =
            unfold transfer_new in ground arith in
          let i : t.issued ≡ s.issued = ground (arith, move_funds-frame input now s) in
          rw q (
            subst (λ n. IsTransferred n (record_transfer host input now t).1 r) i
              (record_transfer-IsTransferred t r (rw q at e)))
    ]
  ]

  replay_transfer-found :
      (k : TransferIdempotencyRecord) (r : TransferResult)
      → replay_transfer k s ≡ ok r
      → (lookup k.from_tx_id s.transactions ≡ some r.from_tx)
        × (lookup k.to_tx_id s.transactions ≡ some r.to_tx)
  unfolding replay_transfer
  replay_transfer-found k r e = ground arith

  -- Where `randomUUID` never repeats itself: after `transfer` returned, a call with the same
  -- idempotency key changes nothing, and answers with the same two transactions as a duplicate.
  pub transfer-repeat :
      (r : TransferResult) (retry : TransferInput) (later : String)
      → (transfer host input now s).0 ≡ ok r
      → retry.idempotency_key ≡ input.idempotency_key
      → transfer host retry later (transfer host input now s).1
        ≡ (ok (record r { duplicated = true }), (transfer host input now s).1)
  unfolding IsTransferred
  transfer-repeat r retry later e same =
      elim (Option-cases (lookup input.idempotency_key s.transfer_by_idempotency_key)) [
        | inr (k, known) ↦
            let q : transfer host input now s ≡ (replay_transfer k s, s) =
              unfold transfer in rw (known, transfer) refl in
            let found = replay_transfer-found k r (rw q at e) in
            rw q (transferred s r k retry later same known found.0 found.1)
        | inl unknown ↦
            let q : transfer host input now s ≡ transfer_new host input now s =
              unfold transfer in rw (unknown, transfer) refl in
            let known = transfer_new-known r (rw q at e) in
            rw q (
              transferred (transfer_new host input now s).1 r _ retry later same known.0 known.1
                known.2)
      ]
